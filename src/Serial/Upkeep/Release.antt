-- ===== src/Serial/Upkeep/Release.antt =====
-- What the end makes of one node: its link is closed, and its memory given back.
pub mod Close
use serial_proxy_c.Prelude.{
  some-inj, ℕ, ◌≡◌, ◌≢◌, refl, ◌⊎◌, inl, inr, ◌∙◌, ap, sym, subst, true, false, Option, none, some,
  List, [], ◌∷◌, arith, ◌==◌, Bool-cases, Option-cases,
}
use serial_proxy_c.Prelude.Text.{Text}
use serial_proxy_c.Machine.Types.{Node, Link, Server, Call, Env, World}
use serial_proxy_c.Machine.Monad.{done, update}
use serial_proxy_c.Machine.Memory.{
  load_node-some, change_node-some, update_same, when-true, when-false,
}
use serial_proxy_c.Machine.Returns.{Returns, returned, Returns-and_then}
use serial_proxy_c.Log.{ll_info, server_log}
use serial_proxy_c.Log.Laws.{server_log-Logs}
use serial_proxy_c.Serial.Nodes.{node_is_virtual, free_node}
use serial_proxy_c.Serial.Nodes.Chain.{Nodes, KeepsNext, IsChain-keep}
use serial_proxy_c.Serial.Nodes.Lists.{IsVirtuals}
use serial_proxy_c.Serial.Nodes.Free.{free_node-root, free_node-first, free_node-later}
use serial_proxy_c.Serial.Link.{free_link}
use serial_proxy_c.Serial.Link.Close.{closed, free_link-closed}
use serial_proxy_c.Serial.Link.Flags.{flags_of}
use serial_proxy_c.Serial.Link.Descriptors.{open_fds}
use serial_proxy_c.Serial.Link.Accounts.{Balanced, Balanced-trans, Balanced-fds, AllOpen-Balanced}
use serial_proxy_c.Serial.Link.Linked.{IsLinked, IsLinked-aside, IsLinked-closed, closed-Balanced}
use serial_proxy_c.Serial.Transfer.Owner.{IsOpen}
use serial_proxy_c.Serial.Upkeep.{drop_link, close_node}

-- From `v` to `u` nothing is added, the settings stay, nodes and links lead to each other, and the
-- descriptors of the links that are gone, and no others, were closed.
pub record Shrinks (env : Env) (v u : World) : Type 0 where
  pub settings : u.server ≡ v.server
  pub same_fresh : u.fresh ≡ v.fresh
  pub stay_gone : (q : ℕ) → v.nodes q ≡ none → u.nodes q ≡ none
  pub old_links : (l : ℕ) (k : Link) → u.links l ≡ some k → v.links l ≡ some k
  pub linked : IsLinked env u
  pub balance : Balanced env v u

pub Shrinks-trans :
    {env : Env} {v u x : World} → Shrinks env v u → Shrinks env u x → Shrinks env v x
Shrinks-trans {env = env} {v = v} {u = u} {x = x} a b = record {
  settings = b.settings ∙ a.settings;
  same_fresh = b.same_fresh ∙ a.same_fresh;
  stay_gone = λ q e. b.stay_gone q (a.stay_gone q e);
  old_links = λ l k e. a.old_links l k (b.old_links l k e);
  linked = b.linked;
  balance = Balanced-trans env v u x a.balance b.balance;
}

-- Other nodes with the same links, and more calls.
IsLinked-nodes :
    (env : Env) (v : World) (new : Nodes) (t : List Call)
    → ((q : ℕ) (n : Node) → new q ≡ some n → (m : Node) × (v.nodes q ≡ some m) × (m.link ≡ n.link))
    → ((q : ℕ) (m : Node) (l : ℕ)
        → v.nodes q ≡ some m
        → m.link ≡ some l
        → (n : Node) × (new q ≡ some n) × (n.link ≡ some l))
    → open_fds env t ≡ open_fds env v.trace
    → IsLinked env v
    → IsLinked env (record v { nodes = new; trace = t })
IsLinked-nodes env v new t old kept fds is = record {
  open_all =
      AllOpen-Balanced env v (record v { nodes = new; trace = t })
        (Balanced-fds env v (record v { nodes = new; trace = t }) fds (λ d. refl)) is.open_all;
  back = λ q n l at e. let (m, at', same) = old q n at in is.back q m l at' (same ∙ e);
  owned = λ l k at.
      let (p, n, fd, o, fits) = is.owned l k at in
      let (n', at', link) = kept p n l o.node_at o.back in
      (
        p,
        n',
        fd,
        record {
          link_at = at;
          node_at = at';
          owner = o.owner;
          descriptor = o.descriptor;
          back = link;
        },
        fits,
      );
}

module _ (env : Env) (v : World) (is : IsLinked env v) (p : ℕ) (n : Node) (at : v.nodes p ≡ some n)
    (childless : n.virtual_head ≡ none) where
  -- `p` has no link any more, and everything else stays.
  abbrev pub Dropped : World → Type 0
  Dropped u =
      Shrinks env v u
      × (u.nodes p ≡ some (record n { link = none }))
      × ((q : ℕ) → (q == p) ≡ false → u.nodes q ≡ v.nodes q)

  drop_link-closed :
      (l : ℕ) (k : Link) (fd : ℕ)
      → IsOpen v l k p n fd
      → Returns (λ r. Dropped) (drop_link p (some l) v)
  unfolding drop_link
  drop_link-closed l k fd o =
      let n' : Node = record n { link = none } in
      let flags = flags_of v.nodes [] n in
      let v1 : World = closed v l k.sfd p n fd flags in
      let at1 : v1.nodes p ≡ some n' = update_same v.nodes p (some n') in
      let linked : IsLinked env v1 = IsLinked-closed env v is l p fd flags k n v.trace o refl in
      rw
        (
          free_link-closed v l k p n fd [] o.link_at o.owner o.descriptor at
              (childless, omega arith),
          change_node-some v1 p (λ (x : Node). record x { link = none }) at1,
        )
        (returned (
          record {
            settings = refl;
            same_fresh = refl;
            stay_gone = λ q gone. ground arith;
            old_links = λ j k' e. ground arith;
            linked =
                IsLinked-nodes env v1 (update v1.nodes p (some n')) v1.trace
                  (λ q x new. (x, ground arith, refl)) (λ q x j old e. (x, ground arith, e)) refl
                  linked;
            balance =
                Balanced-trans env v v1 _ (closed-Balanced env v is l p fd flags k n v.trace o refl)
                  (Balanced-fds env v1 _ refl (λ d. refl));
          },
          update_same v1.nodes p (some n'),
          λ q away. ground arith,
        ))

  drop_link-none : n.link ≡ none → Returns (λ r. Dropped) (drop_link p none v)
  unfolding drop_link
  drop_link-none free = returned (
    record {
      settings = refl;
      same_fresh = refl;
      stay_gone = λ q gone. gone;
      old_links = λ l k e. e;
      linked = is;
      balance = Balanced-fds env v v refl (λ d. refl);
    },
    at ∙ ap (λ o. some (record n { link = o })) free,
    λ q away. refl,
  )

  drop_link-Dropped : Returns (λ r. Dropped) (drop_link p n.link v)
  drop_link-Dropped = elim (Option-cases n.link) [
    | inl free ↦
        subst (λ o. Returns (λ r. Dropped) (drop_link p o v)) (sym free) (drop_link-none free)
    | inr (l, e) ↦
        let (below, k, live, own) = is.back p n l at e in
        let (q, m, fd, o, fits) = is.owned l k live in
        subst (λ j. Returns (λ r. Dropped) (drop_link p j v)) (sym e)
          (drop_link-closed l k fd (record {
            link_at = live;
            node_at = at;
            owner = own;
            descriptor = o.descriptor;
            back = e;
          }))
  ]

-- An unlinked node, as the unlinked nodes before it.
module _ (env : Env) (u : World) (is : IsLinked env u) (p : ℕ) (n : Node) (at : u.nodes p ≡ some n)
    (unlinked : n.link ≡ none) where
  -- It is taken out of memory, and other nodes keep their links.
  taken_out :
      (new : Nodes) (t : List Call)
      → open_fds env t ≡ open_fds env u.trace
      → new p ≡ none
      → ((q : ℕ) (x : Node)
          → new q ≡ some x
          → (y : Node) × (u.nodes q ≡ some y) × (y.link ≡ x.link))
      → ((q : ℕ) (y : Node)
          → (q == p) ≡ false
          → u.nodes q ≡ some y
          → (x : Node) × (new q ≡ some x) × (x.link ≡ y.link))
      → Shrinks env u (record u { nodes = new; trace = t })
  taken_out new t fds gone old kept = record {
    settings = refl;
    same_fresh = refl;
    stay_gone = λ q none_there. elim (Option-cases (new q)) [
      | inl e ↦ e
      | inr (x, e) ↦ let (y, there, link) = old q x e in absurd (ground arith)
    ];
    old_links = λ l k e. e;
    linked =
        IsLinked-nodes env u new t old
          (λ q y l there e. elim (Bool-cases (q == p)) [
            | inl here ↦
                let address : q ≡ p = ground arith in
                let same : y ≡ n = some-inj (sym there ∙ ap u.nodes address ∙ at) in
                let free : y.link ≡ none = ap (λ (x : Node). x.link) same ∙ unlinked in cc
            | inr away ↦ let (x, e', link) = kept q y away there in (x, e', link ∙ e)
          ])
          fds is;
    balance = Balanced-fds env u (record u { nodes = new; trace = t }) fds (λ d. refl);
  }
