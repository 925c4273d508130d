-- ===== src/Config/Devices/Heap.antt =====
-- The heap while src/config.c builds the lists of devices, before any of them is opened.
use serial_proxy_c.Prelude.{
  ℕ, suc, ◌≡◌, ◌≢◌, refl, inl, inr, ◌∙◌, ap, subst, ◌≤◌, ◌==◌, true, false, none, some, List, [],
  ◌∷◌, arith, Bool-cases, All,
}
use serial_proxy_c.Machine.Types.{Node, Server, Call, Env, World}
use serial_proxy_c.Machine.Monad.{update}
use serial_proxy_c.Machine.Memory.{update_same}
use serial_proxy_c.Serial.Nodes.{node_is_master, node_is_virtual}
use serial_proxy_c.Serial.Nodes.Chain.{Nodes}
use serial_proxy_c.Serial.Nodes.Lists.{IsMasters}
use serial_proxy_c.Serial.Nodes.Tree.{IsTree, IsRoot, IsTree-same}
use serial_proxy_c.Serial.Nodes.Grow.{
  GrowsTo, IsProper, IsTree-of_IsProper, masters-GrowsTo, IsProper-old,
}
use serial_proxy_c.Serial.Device.Configure.{HasSpeed}

-- No address from `fresh` on is in use, masters and virtuals are a tree, no node has a link, no link
-- is live, and the settings are those of `s`.
pub record IsWell (env : Env) (s : Server) (w : World) : Type 0 where
  pub bounded : (q : ℕ) → w.fresh ≤ q → w.nodes q ≡ none
  pub tree : IsTree env w
  pub unlinked : (p : ℕ) (n : Node) → w.nodes p ≡ some n → n.link ≡ none
  pub no_links : (l : ℕ) → w.links l ≡ none
  pub settings : w.server ≡ record s { master_head = w.server.master_head }

pub IsWell-trace :
    {env : Env} {s : Server} {w : World} (t : List Call)
    → IsWell env s w
    → IsWell env s (record w { trace = t })
IsWell-trace {env = env} {w = w} t well = record {
  bounded = well.bounded;
  tree = IsTree-same env w (record w { trace = t }) refl (omega arith) (λ p. refl) well.tree;
  unlinked = well.unlinked;
  no_links = well.no_links;
  settings = well.settings;
}

-- A node that is in use is below `fresh`.
pub below_fresh :
    {env : Env} {s : Server} {w : World} {p : ℕ} {n : Node}
    → IsWell env s w
    → w.nodes p ≡ some n
    → p ≢ w.fresh
below_fresh {w = w} {p = p} well at e =
    let free : w.nodes w.fresh ≡ none = well.bounded w.fresh (omega arith) in
    let free' : w.nodes p ≡ none = ap w.nodes e ∙ free in cc

module _ (env : Env) (s : Server) (w : World) (well : IsWell env s w) (t : List Call) where
  -- A master without virtuals in front of the masters, at the fresh address.
  pub IsWell-master :
      (n : Node)
      → node_is_master n ≡ true
      → node_is_virtual n ≡ false
      → n.virtualof ≡ none
      → HasSpeed env n.baudrate
      → n.next ≡ w.server.master_head
      → n.virtual_head ≡ none
      → n.link ≡ none
      → IsWell env s (record w {
        server = record w.server { master_head = some w.fresh };
        nodes = update w.nodes w.fresh (some n);
        fresh = suc w.fresh;
        trace = t;
      })
  IsWell-master n master real free_node has next no_virtuals no_link = record {
    bounded = λ q above. let old = well.bounded q (omega (arith, above)) in ground arith;
    tree = IsTree-of_IsProper env v masters IsProper-new;
    unlinked = λ p m at. elim (Bool-cases (p == w.fresh)) [
      | inl here ↦ let same : m ≡ n = ground arith in ap (λ (x : Node). x.link) same ∙ no_link
      | inr away ↦ well.unlinked p m (ground arith)
    ];
    no_links = well.no_links;
    settings = ap (λ (x : Server). record x { master_head = some w.fresh }) well.settings;
  }
    where
      new : Nodes
      new = update w.nodes w.fresh (some n)

      v : World
      v = record w {
        server = record w.server { master_head = some w.fresh };
        nodes = new;
        fresh = suc w.fresh;
        trace = t;
      }

      GrowsTo-new : GrowsTo w.nodes new
      GrowsTo-new p m at =
          let free = well.bounded w.fresh (omega arith) in
          (m, ground arith, refl, refl, refl, refl, λ e. refl)

      masters : (ms : List ℕ) × IsMasters v ms × All (IsRoot v.nodes) ms
      masters =
          let (ms, c, h, kinds) =
            masters-GrowsTo env w v well.tree GrowsTo-new (omega arith) n.next next in
          (
            w.fresh ∷ ms,
            ((refl, n, update_same w.nodes w.fresh (some n), c), omega (arith, h)),
            ((n, update_same w.nodes w.fresh (some n), master, real, free_node), kinds),
          )

      IsProper-new : (p : ℕ) (m : Node) → new p ≡ some m → IsProper env v p m
      IsProper-new p m at = elim (Bool-cases (p == w.fresh)) [
        | inl here ↦
            let same : n ≡ m = ground arith in
            subst (IsProper env v p) same (record {
              virtuals = ([], (no_virtuals, omega arith), tt);
              parent = λ virtual. cc;
              speed = λ e. has;
            })
        | inr away ↦
            let old : w.nodes p ≡ some m = ground arith in
            IsProper-old env w v well.tree GrowsTo-new (omega arith) p m m old refl refl refl
              (well.tree.speed p m old)
      ]
