-- ===== src/Serial/Upkeep/Gains.antt =====
-- How the nodes may differ after a pass of _serialReconnect in src/serial.c: links are filled in.
use serial_proxy_c.Prelude.{
  length-replicate, ℕ, ◌≡◌, refl, inl, inr, ◌⊎◌, ◌∙◌, ap, sym, subst, ◌≤◌, Bool, true, Option, none,
  some, List, ◌∷◌, arith, Bool-cases, ◌==◌,
}
use serial_proxy_c.Prelude.Text.{Text}
use serial_proxy_c.Machine.Types.{Node, Link, Server, Call, Env, World}
use serial_proxy_c.Machine.Monad.{update}
use serial_proxy_c.Machine.Returns.{Returns, Returns-of_eq}
use serial_proxy_c.Machine.Memory.{update_same}
use serial_proxy_c.Serial.Link.{new_link}
use serial_proxy_c.Log.{server_log}
use serial_proxy_c.Log.Laws.{server_log-Logs}
use serial_proxy_c.Serial.Nodes.Chain.{Nodes, KeepsNext, IsChain-keep}
use serial_proxy_c.Serial.Nodes.Lists.{IsVirtuals}
use serial_proxy_c.Serial.Nodes.Tree.{SameNodes}
use serial_proxy_c.Serial.Link.Flags.{flags_of}
use serial_proxy_c.Serial.Link.Descriptors.{open_fds, open_fds-OnlyLog}
use serial_proxy_c.Serial.Link.Accounts.{
  Balanced, Balanced-trans, Balanced-fds, Balanced-connected, Balanced-unconnected,
}
use serial_proxy_c.Serial.Link.Linked.New.{IsLinked-connected, IsLinked-unconnected}
use serial_proxy_c.Serial.Link.Linked.{IsLinked, Fits, IsLinked-aside}
use serial_proxy_c.Serial.Link.Connect.{Connected, connected, unconnected}

-- A node is as it was, or had no link and differs in its link at most.
abbrev pub Relinked : Node → Node → Type 0
Relinked n m = (m ≡ n) ⊎ ((n.link ≡ none) × (m ≡ record n { link = m.link }))

abbrev pub NodesKept : Nodes → Nodes → Type 0
NodesKept old new =
    (p : ℕ) (n : Node) → old p ≡ some n → (m : Node) × (new p ≡ some m) × Relinked n m

-- From `w` to `v` the configuration is the same, every node is there with its link if it had one,
-- the links of `v` are live and lead back to their nodes, and as many descriptors were opened as
-- they hold more.
pub record Gains (env : Env) (w v : World) : Type 0 where
  pub server_same : v.server ≡ w.server
  pub grows : w.fresh ≤ v.fresh
  pub kept : NodesKept w.nodes v.nodes
  pub same_tree : SameNodes w.nodes v.nodes
  pub linked : IsLinked env v
  pub balance : Balanced env w v

pub Relinked-fields :
    (n m : Node)
    → Relinked n m
    → (m.flags ≡ n.flags)
      × (m.baudrate ≡ n.baudrate)
      × (m.virtual_head ≡ n.virtual_head)
      × (m.next ≡ n.next)
Relinked-fields n m (inl e) = (
  ap (λ (x : Node). x.flags) e,
  ap (λ (x : Node). x.baudrate) e,
  ap (λ (x : Node). x.virtual_head) e,
  ap (λ (x : Node). x.next) e,
)
Relinked-fields n m (inr (none_before, e)) = (
  ap (λ (x : Node). x.flags) e,
  ap (λ (x : Node). x.baudrate) e,
  ap (λ (x : Node). x.virtual_head) e,
  ap (λ (x : Node). x.next) e,
)

pub Gains-refl : {env : Env} (w : World) → IsLinked env w → Gains env w w
Gains-refl {env = env} w is = record {
  server_same = refl;
  grows = omega arith;
  kept = λ p n at. (n, at, inl refl);
  same_tree = λ p. refl;
  linked = is;
  balance = Balanced-fds env w w refl (λ d. refl);
}

Relinked-trans : (a b c : Node) → Relinked a b → Relinked b c → Relinked a c
Relinked-trans a b c (inl e) r = subst (λ x. Relinked x c) e r
Relinked-trans a b c (inr (free, e)) (inl f) = inr (
  free,
  f ∙ (e ∙ ap (λ (l : Option ℕ). record a { link = l }) (ap (λ (x : Node). x.link) (sym f))),
)
Relinked-trans a b c (inr (free, e)) (inr (free', f)) =
    inr (free, f ∙ ap (λ (x : Node). record x { link = c.link }) e)

pub Gains-trans : {env : Env} {u v w : World} → Gains env u v → Gains env v w → Gains env u w
Gains-trans {env = env} {u = u} {v = v} {w = w} g h = record {
  server_same = h.server_same ∙ g.server_same;
  grows = omega (arith, g.grows, h.grows);
  kept = λ p n at.
      let (m, at', r) = g.kept p n at in
      let (m', at'', r') = h.kept p m at' in (m', at'', Relinked-trans n m m' r r');
  same_tree = λ p. h.same_tree p ∙ g.same_tree p;
  linked = h.linked;
  balance = Balanced-trans env u v w g.balance h.balance;
}

pub Gains-trace :
    {env : Env} {w v : World} (t : List Call)
    → open_fds env t ≡ open_fds env v.trace
    → Gains env w v
    → Gains env w (record v { trace = t })
Gains-trace {env = env} {w = w} {v = v} t fds g = record {
  server_same = g.server_same;
  grows = g.grows;
  kept = g.kept;
  same_tree = g.same_tree;
  linked = IsLinked-aside env v g.linked v.server t fds;
  balance = Balanced-trans env w v _ g.balance (Balanced-fds env v _ fds (λ d. refl));
}

-- A node with a live link.
abbrev pub HasLink : World → ℕ → Type 0
HasLink w p =
    (n : Node) × (l : ℕ) × (k : Link) × (w.nodes p ≡ some n)
    × (n.link ≡ some l)
    × (w.links l ≡ some k)

module _ (env : Env) (w : World) (p : ℕ) (n : Node) (at : w.nodes p ≡ some n) (free : n.link ≡ none)
    (is : IsLinked env w) where
  NodesKept-connected :
      NodesKept w.nodes (update w.nodes p (some (record n { link = some w.fresh })))
  NodesKept-connected q m at' =
      let n' : Node = record n { link = some w.fresh } in
      elim (Bool-cases (q == p)) [
        | inl here ↦
            let old : n ≡ m = ground arith in
            (n', ground arith, subst (λ x. Relinked x n') old (inr (free, refl)))
        | inr away ↦ (m, ground arith, inl refl)
      ]

  SameNodes-connected :
      SameNodes w.nodes (update w.nodes p (some (record n { link = some w.fresh })))
  SameNodes-connected q = elim (Bool-cases (q == p)) [
    | inl here ↦ rw (here, ap w.nodes (address here) ∙ at)
    | inr away ↦ rw away
  ]
    where
      address : q == p ≡ true → q ≡ p
      address here = ground arith

  pub Gains-Connected :
      (vs : List ℕ) (r : Bool) (u : World)
      → Connected env w p n vs r u
      → Gains env w u × (r ≡ true → HasLink u p)
  Gains-Connected vs _ _ (connected fd sfd {t = t} h) =
      let k : Link = record (new_link env) { fd = some fd; sfd = sfd; node = some p } in
      let n' : Node = record n { link = some w.fresh } in
      let fits : Fits env k = (length-replicate env.buf_size 0, omega arith) in
      (
        record {
          server_same = refl;
          grows = omega arith;
          kept = NodesKept-connected;
          same_tree = SameNodes-connected;
          linked =
              IsLinked-connected env w is p n at free k fd
                (Call.create_file_event fd (flags_of w.nodes vs n) w.fresh ∷ t) refl refl fits h;
          balance =
              Balanced-connected env w (update w.nodes p (some n')) k fd
                (Call.create_file_event fd (flags_of w.nodes vs n) w.fresh ∷ t) refl h;
        },
        λ e. (
          n',
          w.fresh,
          k,
          update_same w.nodes p (some n'),
          refl,
          update_same w.links w.fresh (some k),
        ),
      )
  Gains-Connected vs _ _ (unconnected {t = t} h) = (
    record {
      server_same = refl;
      grows = omega arith;
      kept = λ q m at'. (m, at', inl refl);
      same_tree = λ q. refl;
      linked = IsLinked-unconnected env w is p n at free t h;
      balance = Balanced-unconnected env w t h;
    },
    λ e. cc,
  )

-- What a message costs.
pub server_log-Gains :
    (env : Env) (level : ℕ) (path : Text) (w v : World)
    → w.server.logfile ≡ some path
    → Gains env w v
    → Returns (λ r. Gains env w) (server_log env level v)
server_log-Gains env level path w v set g =
    let set' : v.server.logfile ≡ some path = ap (λ (s : Server). s.logfile) g.server_same ∙ set in
    let (t, log, e) = server_log-Logs env level v path set' in
    Returns-of_eq _ e (Gains-trace t (open_fds-OnlyLog env log) g)

-- The lists of nodes are as they were.
pub IsVirtuals-Gains :
    {env : Env} {w v : World} (p : ℕ) (n : Node) (vs : List ℕ)
    → Gains env w v
    → w.nodes p ≡ some n
    → IsVirtuals w n vs
    → (m : Node) × (v.nodes p ≡ some m)
      × IsVirtuals v m vs
      × (m.flags ≡ n.flags)
      × (m.baudrate ≡ n.baudrate)
      × (m.virtual_head ≡ n.virtual_head)
      × (m.next ≡ n.next)
IsVirtuals-Gains {w = w} {v = v} p n vs g at (c, h) =
    let (m, at', r) = g.kept p n at in
    let (flags, baudrate, virtual_head, next) = Relinked-fields n m r in
    let c' = IsChain-keep w.nodes v.nodes n.virtual_head vs (keeps g) c in
    (m, at', (rw virtual_head c', omega (arith, h, g.grows)), flags, baudrate, virtual_head, next)
  where
    keeps : {env : Env} {w v : World} → Gains env w v → KeepsNext w.nodes v.nodes
    keeps g q k at =
        let (m, at', r) = g.kept q k at in
        let (flags, baudrate, virtual_head, next) = Relinked-fields k m r in (m, at', next)
