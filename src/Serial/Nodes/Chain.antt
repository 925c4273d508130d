-- ===== src/Serial/Nodes/Chain.antt =====
-- What a linked list of nodes stands for: the addresses that `next` leads through.
use serial_proxy_c.Prelude.{
  ℕ, zero, suc, ◌≡◌, refl, inl, inr, Bool, false, ◌||◌, Option, none, some, List, [], ◌∷◌, arith,
  ◌≤◌, ◌==◌, if◌then◌else◌, length, All, Bool-cases,
}
use serial_proxy_c.Machine.Types.{Node, World}
use serial_proxy_c.Machine.Monad.{done, update}
use serial_proxy_c.Serial.Nodes.{find_node}

abbrev pub Nodes : Type 0
Nodes = ℕ → Option Node

-- From `head` the `next` pointers lead through the live nodes `ps`, and then to NULL.
abbrev pub IsChain : Nodes → Option ℕ → List ℕ → Type 0
IsChain nodes head [] = head ≡ none
IsChain nodes head (p ∷ ps) =
    (head ≡ some p) × (n : Node) × (nodes p ≡ some n) × IsChain nodes n.next ps

abbrev pub is_among : ℕ → List ℕ → Bool
is_among p [] = false
is_among p (q ∷ qs) = (q == p) || is_among p qs

-- Every node that `old` has is in `new` with the same successor.
abbrev pub KeepsNext : Nodes → Nodes → Type 0
KeepsNext old new =
    (p : ℕ) (n : Node) → old p ≡ some n → (n' : Node) × (new p ≡ some n') × (n'.next ≡ n.next)

pub IsChain-keep :
    (old new : Nodes) (head : Option ℕ) (ps : List ℕ)
    → KeepsNext old new
    → IsChain old head ps
    → IsChain new head ps
IsChain-keep old new head [] keep c = c
IsChain-keep old new head (p ∷ ps) keep (e, n, at, c) =
    let (n', at', same) = keep p n at in
    (e, n', at', rw same (IsChain-keep old new n.next ps keep c))

pub KeepsNext-update :
    (nodes : Nodes) (q : ℕ) (n n' : Node)
    → nodes q ≡ some n
    → n'.next ≡ n.next
    → KeepsNext nodes (update nodes q (some n'))
KeepsNext-update nodes q n n' at same p m e = elim (Bool-cases (p == q)) [
  | inl hit ↦ (n', ground arith, ground arith)
  | inr miss ↦ (m, ground arith, refl)
]

-- A list is not touched by a write to an address that is not on it.
pub IsChain-update_out :
    (nodes : Nodes) (head : Option ℕ) (ps : List ℕ) (q : ℕ) (v : Option Node)
    → is_among q ps ≡ false
    → IsChain nodes head ps
    → IsChain (update nodes q v) head ps
IsChain-update_out nodes head [] q v out c = c
IsChain-update_out nodes head (p ∷ ps) q v out (e, n, at, c) =
    (e, n, ground arith, IsChain-update_out nodes n.next ps q v (ground arith) c)

-- An address without a node is on no list.
pub not-is_among_of_none :
    (nodes : Nodes) (head : Option ℕ) (ps : List ℕ) (q : ℕ)
    → nodes q ≡ none
    → IsChain nodes head ps
    → is_among q ps ≡ false
not-is_among_of_none nodes head [] q free c = refl
not-is_among_of_none nodes head (p ∷ ps) q free (e, n, at, c) =
    ground (arith, not-is_among_of_none nodes n.next ps q free c)

-- The first address on a list whose node passes a test.
unfoldable pub first_with : (Node → Bool) → Nodes → List ℕ → Option ℕ
first_with test nodes [] = none
first_with test nodes (p ∷ ps) = elim (nodes p) [
  | none ↦ none
  | some n ↦ if test n then some p else first_with test nodes ps
]

-- The search loop returns the first node that passes, and changes nothing.
pub find_node-first_with :
    (fuel : ℕ) (test : Node → Bool) (w : World) (head : Option ℕ) (ps : List ℕ)
    → IsChain w.nodes head ps
    → length ps ≤ fuel
    → find_node fuel test head w ≡ done (first_with test w.nodes ps) w
unfolding find_node first_with
find_node-first_with fuel test w none [] c h = refl
find_node-first_with fuel test w (some q) [] c h = cc
find_node-first_with fuel test w none (p ∷ ps) (e, n, at, c) h = cc
find_node-first_with zero test w (some q) (p ∷ ps) c h = absurd (omega arith)
find_node-first_with (suc fuel) test w (some q) (p ∷ ps) (e, n, at, c) h =
    ground (arith, find_node-first_with fuel test w n.next ps c)

-- What holds of every live node holds of every node on a list.
pub All-of_IsChain :
    (P : ℕ → Type 0) (nodes : Nodes) (head : Option ℕ) (ps : List ℕ)
    → IsChain nodes head ps
    → ((p : ℕ) (n : Node) → nodes p ≡ some n → P p)
    → All P ps
All-of_IsChain P nodes head [] c all = tt
All-of_IsChain P nodes head (p ∷ ps) (e, n, at, c) all =
    (all p n at, All-of_IsChain P nodes n.next ps c all)

-- The search finds live nodes.
pub first_with-some :
    (test : Node → Bool) (nodes : Nodes) (head : Option ℕ) (ps : List ℕ) (q : ℕ)
    → IsChain nodes head ps
    → first_with test nodes ps ≡ some q
    → (n : Node) × (nodes q ≡ some n)
unfolding first_with
first_with-some test nodes head [] q c e = cc
first_with-some test nodes head (p ∷ ps) q (h, n, at, c) e = elim (Bool-cases (test n)) [
  | inl hit ↦ (n, ground arith)
  | inr miss ↦ first_with-some test nodes n.next ps q c (ground arith)
]
