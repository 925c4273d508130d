-- ===== src/Serial/Nodes/Tree.antt =====
-- The lists of src/serial.c as a whole: masters, their virtuals, and what does not depend on links.
use serial_proxy_c.Prelude.{
  ℕ, ◌≡◌, refl, ◌∙◌, ap, sym, subst, ◌≤◌, true, false, Option, none, some, List, arith, All,
  All-imp,
}
use serial_proxy_c.Machine.Types.{Node, Env, World}
use serial_proxy_c.Serial.Nodes.{node_is_master, node_is_virtual}
use serial_proxy_c.Serial.Nodes.Chain.{Nodes, IsChain, KeepsNext, IsChain-keep}
use serial_proxy_c.Serial.Nodes.Lists.{IsMasters, IsVirtuals}
use serial_proxy_c.Serial.Device.Configure.{HasSpeed}

-- A node without regard to its link.
abbrev pub strip : Option Node → Option Node
strip none = none
strip (some n) = some (record n { link = none })

-- Two heaps that differ in links at most.
abbrev pub SameNodes : Nodes → Nodes → Type 0
SameNodes old new = (p : ℕ) → strip (new p) ≡ strip (old p)

-- A live node that is a master and no virtual.
abbrev pub IsRoot : Nodes → ℕ → Type 0
IsRoot nodes p =
    (n : Node) × (nodes p ≡ some n)
    × (node_is_master n ≡ true)
    × (node_is_virtual n ≡ false)
    × (n.virtualof ≡ none)

-- A live node that is a virtual of `p`, and no master, and has no virtuals.
abbrev pub IsLeaf : Nodes → ℕ → ℕ → Type 0
IsLeaf nodes p v =
    (n : Node) × (nodes v ≡ some n)
    × (node_is_master n ≡ false)
    × (node_is_virtual n ≡ true)
    × (n.virtualof ≡ some p)
    × (n.virtual_head ≡ none)

-- The masters are a list, the virtuals of every node are a list of nodes without virtuals, a virtual
-- knows a live master, and the speed of a master can be set.
pub record IsTree (env : Env) (w : World) : Type 0 where
  pub masters : (ms : List ℕ) × IsMasters w ms × All (IsRoot w.nodes) ms
  pub virtuals :
      (p : ℕ) (n : Node)
      → w.nodes p ≡ some n
      → (vs : List ℕ) × IsVirtuals w n vs × All (IsLeaf w.nodes p) vs
  pub parent :
      (p : ℕ) (n : Node)
      → w.nodes p ≡ some n
      → node_is_virtual n ≡ true
      → (m : ℕ) × (mn : Node) × (n.virtualof ≡ some m) × (w.nodes m ≡ some mn)
  pub speed :
      (p : ℕ) (n : Node) → w.nodes p ≡ some n → node_is_master n ≡ true → HasSpeed env n.baudrate

-- A node of the one heap in the other.
pub strip-some :
    (o : Option Node) (n : Node)
    → strip o ≡ strip (some n)
    → (m : Node) × (o ≡ some m) × (record m { link = none } ≡ record n { link = none })
strip-some none n e = cc
strip-some (some m) n e = (m, refl, ground arith)

module _ (nodes new : Nodes) (same : SameNodes nodes new) where
  pub SameNodes-KeepsNext : KeepsNext nodes new
  SameNodes-KeepsNext p n at =
      let (m, at', e) = strip-some (new p) n (same p ∙ ap strip at) in
      (m, at', ap (λ (x : Node). x.next) e)

  IsRoot-same : (p : ℕ) → IsRoot nodes p → IsRoot new p
  IsRoot-same p (n, at, master, real, free) =
      let (m, at', e) = strip-some (new p) n (same p ∙ ap strip at) in
      (
        m,
        at',
        ap node_is_master e ∙ master,
        ap node_is_virtual e ∙ real,
        ap (λ (x : Node). x.virtualof) e ∙ free,
      )

  IsLeaf-same : (p v : ℕ) → IsLeaf nodes p v → IsLeaf new p v
  IsLeaf-same p v (n, at, other, virtual, of, childless) =
      let (m, at', e) = strip-some (new v) n (same v ∙ ap strip at) in
      (
        m,
        at',
        ap node_is_master e ∙ other,
        ap node_is_virtual e ∙ virtual,
        ap (λ (x : Node). x.virtualof) e ∙ of,
        ap (λ (x : Node). x.virtual_head) e ∙ childless,
      )

-- The tree does not depend on links.
pub IsTree-same :
    (env : Env) (w v : World)
    → v.server.master_head ≡ w.server.master_head
    → w.fresh ≤ v.fresh
    → SameNodes w.nodes v.nodes
    → IsTree env w
    → IsTree env v
IsTree-same env w v head grows same tree =
    let keeps = SameNodes-KeepsNext w.nodes v.nodes same in
    let (ms, (c, h), kinds) = tree.masters in
    record {
      masters = (
        ms,
        (
          subst (λ o. IsChain v.nodes o ms) (sym head) (IsChain-keep w.nodes v.nodes _ ms keeps c),
          omega (arith, h, grows),
        ),
        All-imp ms (IsRoot-same w.nodes v.nodes same) kinds,
      );
      virtuals = λ p m at.
          let (n, at', e) = strip-some (w.nodes p) m (sym (same p) ∙ ap strip at) in
          let (vs, (c', h'), children) = tree.virtuals p n at' in
          (
            vs,
            (
              subst (λ o. IsChain v.nodes o vs) (ap (λ (x : Node). x.virtual_head) e)
                  (IsChain-keep w.nodes v.nodes n.virtual_head vs keeps c'),
              omega (arith, h', grows),
            ),
            All-imp vs (IsLeaf-same w.nodes v.nodes same p) children,
          );
      parent = λ p m at virtual.
          let (n, at', e) = strip-some (w.nodes p) m (sym (same p) ∙ ap strip at) in
          let (q, qn, of, at_q) = tree.parent p n at' (ap node_is_virtual e ∙ virtual) in
          let (qm, at_q', _) = strip-some (v.nodes q) qn (same q ∙ ap strip at_q) in
          (q, qm, ap (λ (x : Node). x.virtualof) (sym e) ∙ of, at_q');
      speed = λ p m at master.
          let (n, at', e) = strip-some (w.nodes p) m (sym (same p) ∙ ap strip at) in
          subst (HasSpeed env) (ap (λ (x : Node). x.baudrate) e)
            (tree.speed p n at' (ap node_is_master e ∙ master));
    }
