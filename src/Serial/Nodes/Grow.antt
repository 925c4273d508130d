-- ===== src/Serial/Nodes/Grow.antt =====
-- The tree of nodes of src/serial.c while nodes are added to it.
use serial_proxy_c.Prelude.{
  ℕ, ◌≡◌, inl, inr, Option-cases, Bool-cases, ◌∙◌, sym, subst, ◌≤◌, Bool, true, false, Option, some,
  List, [], ◌∷◌, length, arith, All, All-imp,
}
use serial_proxy_c.Machine.Types.{Node, Env, World}
use serial_proxy_c.Serial.Nodes.{node_is_master, node_is_virtual}
use serial_proxy_c.Serial.Nodes.Chain.{Nodes, IsChain, KeepsNext, IsChain-keep, first_with}
use serial_proxy_c.Serial.Nodes.Lists.{IsMasters, IsVirtuals}
use serial_proxy_c.Serial.Nodes.Tree.{IsTree, IsRoot, IsLeaf}
use serial_proxy_c.Serial.Device.Configure.{HasSpeed}

-- Every old node is there, on the list where it was and of its kind; only masters may have other
-- virtuals than before.
abbrev pub GrowsTo : Nodes → Nodes → Type 0
GrowsTo old new =
    (p : ℕ) (n : Node)
    → old p ≡ some n
    → (m : Node) × (new p ≡ some m)
      × (m.next ≡ n.next)
      × (node_is_master m ≡ node_is_master n)
      × (node_is_virtual m ≡ node_is_virtual n)
      × (m.virtualof ≡ n.virtualof)
      × (node_is_master n ≡ false → m.virtual_head ≡ n.virtual_head)

module _ (old new : Nodes) (grow : GrowsTo old new) where
  pub GrowsTo-KeepsNext : KeepsNext old new
  GrowsTo-KeepsNext p n at =
      let (m, at', next, master, virtual, of, head) = grow p n at in (m, at', next)

  IsRoot-GrowsTo : (p : ℕ) → IsRoot old p → IsRoot new p
  IsRoot-GrowsTo p (n, at, is, real, free) =
      let (m, at', next, master, virtual, of, head) = grow p n at in
      (m, at', master ∙ is, virtual ∙ real, of ∙ free)

  IsLeaf-GrowsTo : (q p : ℕ) → IsLeaf old q p → IsLeaf new q p
  IsLeaf-GrowsTo q p (n, at, other, is, of_q, childless) =
      let (m, at', next, master, virtual, of, head) = grow p n at in
      (m, at', master ∙ other, virtual ∙ is, of ∙ of_q, head other ∙ childless)

-- What a tree asks of the node `m` at `p`.
pub record IsProper (env : Env) (v : World) (p : ℕ) (m : Node) : Type 0 where
  pub virtuals : (vs : List ℕ) × IsVirtuals v m vs × All (IsLeaf v.nodes p) vs
  pub parent :
      node_is_virtual m ≡ true
      → (q : ℕ) × (qn : Node) × (m.virtualof ≡ some q) × (v.nodes q ≡ some qn)
  pub speed : node_is_master m ≡ true → HasSpeed env m.baudrate

pub IsTree-of_IsProper :
    (env : Env) (v : World)
    → (ms : List ℕ) × IsMasters v ms × All (IsRoot v.nodes) ms
    → ((p : ℕ) (m : Node) → v.nodes p ≡ some m → IsProper env v p m)
    → IsTree env v
IsTree-of_IsProper env v masters proper = record {
  masters = masters;
  virtuals = λ p m at. (proper p m at).virtuals;
  parent = λ p m at. (proper p m at).parent;
  speed = λ p m at. (proper p m at).speed;
}

module _ (env : Env) (w v : World) (tree : IsTree env w) (grow : GrowsTo w.nodes v.nodes)
    (grows : w.fresh ≤ v.fresh) where
  -- The masters of before.
  pub masters-GrowsTo :
      (head : Option ℕ)
      → head ≡ w.server.master_head
      → (ms : List ℕ) × IsChain v.nodes head ms × (length ms ≤ w.fresh) × All (IsRoot v.nodes) ms
  masters-GrowsTo head same =
      let (ms, (c, h), kinds) = tree.masters in
      (
        ms,
        subst (λ o. IsChain v.nodes o ms) (sym same)
            (IsChain-keep w.nodes v.nodes _ ms (GrowsTo-KeepsNext w.nodes v.nodes grow) c),
        h,
        All-imp ms (IsRoot-GrowsTo w.nodes v.nodes grow) kinds,
      )

  -- The virtuals of an old node.
  pub virtuals-GrowsTo :
      (p : ℕ) (n : Node) (head : Option ℕ)
      → w.nodes p ≡ some n
      → head ≡ n.virtual_head
      → (vs : List ℕ) × IsChain v.nodes head vs × (length vs ≤ w.fresh) × All (IsLeaf v.nodes p) vs
  virtuals-GrowsTo p n head at same =
      let (vs, (c, h), leaves) = tree.virtuals p n at in
      (
        vs,
        subst (λ o. IsChain v.nodes o vs) (sym same)
            (IsChain-keep w.nodes v.nodes _ vs (GrowsTo-KeepsNext w.nodes v.nodes grow) c),
        h,
        All-imp vs (IsLeaf-GrowsTo w.nodes v.nodes grow p) leaves,
      )

  -- The master of an old virtual.
  pub parent-GrowsTo :
      (p : ℕ) (n m : Node)
      → w.nodes p ≡ some n
      → m.virtualof ≡ n.virtualof
      → node_is_virtual m ≡ node_is_virtual n
      → node_is_virtual m ≡ true
      → (q : ℕ) × (qn : Node) × (m.virtualof ≡ some q) × (v.nodes q ≡ some qn)
  parent-GrowsTo p n m at of kind virtual =
      let (q, qn, of', at_q) = tree.parent p n at (sym kind ∙ virtual) in
      let (qm, at_q', next, master, virtual', of_q, head) = grow q qn at_q in
      (q, qm, of ∙ of', at_q')

  -- A node that stays as it was but for its link, and for a speed that can be set.
  pub IsProper-old :
      (p : ℕ) (n m : Node)
      → w.nodes p ≡ some n
      → m.virtual_head ≡ n.virtual_head
      → m.virtualof ≡ n.virtualof
      → node_is_virtual m ≡ node_is_virtual n
      → (node_is_master m ≡ true → HasSpeed env m.baudrate)
      → IsProper env v p m
  IsProper-old p n m at head of kind speed =
      let (vs, c, h, leaves) = virtuals-GrowsTo p n m.virtual_head at head in
      record {
        virtuals = (vs, (c, omega (arith, h, grows)), leaves);
        parent = parent-GrowsTo p n m at of kind;
        speed = speed;
      }

-- What holds of a list holds of what is found on it.
pub first_with-All :
    (P : ℕ → Type 0) (test : Node → Bool) (nodes : Nodes) (ps : List ℕ) (q : ℕ)
    → first_with test nodes ps ≡ some q
    → All P ps
    → P q
unfolding first_with
first_with-All P test nodes [] q e all = cc
first_with-All P test nodes (p ∷ ps) q e (here, rest) = elim (Option-cases (nodes p)) [
  | inl dead ↦ absurd (ground arith)
  | inr (n, at) ↦ elim (Bool-cases (test n)) [
    | inl hit ↦ let same : p ≡ q = ground arith in subst P same here
    | inr miss ↦ first_with-All P test nodes ps q (ground arith) rest
  ]
]
