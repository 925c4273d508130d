-- ===== src/Serial/Nodes/Distinct.antt =====
-- The lists of src/serial.c hold no node twice, and depend on nothing but the nodes on them.
use serial_proxy_c.Prelude.{
  some-inj, ℕ, ◌≡◌, refl, inl, inr, ap, sym, subst, ◌∙◌, true, false, Option, none, some, List, [],
  ◌∷◌, arith, ◌≤◌, ◌==◌, length, All, Bool-cases,
}
use serial_proxy_c.Machine.Types.{Node}
use serial_proxy_c.Machine.Monad.{update}
use serial_proxy_c.Serial.Nodes.Chain.{Nodes, IsChain, is_among, not-is_among_of_none}

-- A head leads through one list only.
pub IsChain-unique :
    (nodes : Nodes) (head : Option ℕ) (ps qs : List ℕ)
    → IsChain nodes head ps
    → IsChain nodes head qs
    → ps ≡ qs
IsChain-unique nodes head [] [] c d = refl
IsChain-unique nodes head [] (q ∷ qs) c (e, n, at, d) = cc
IsChain-unique nodes head (p ∷ ps) [] (e, n, at, c) d = cc
IsChain-unique nodes head (p ∷ ps) (q ∷ qs) (e, n, at, c) (f, m, at', d) =
    let address : p ≡ q = some-inj (sym e ∙ f) in
    let same : n ≡ m = some-inj (sym at ∙ ap nodes address ∙ at') in
    let d' = subst (λ (x : Node). IsChain nodes x.next qs) (sym same) d in
    ap (λ x. x ∷ ps) address ∙ ap (λ xs. q ∷ xs) (IsChain-unique nodes n.next ps qs c d')

-- The rest of a list from a node on it.
suffix :
    (nodes : Nodes) (head : Option ℕ) (ps : List ℕ) (p : ℕ)
    → is_among p ps ≡ true
    → IsChain nodes head ps
    → (qs : List ℕ) × IsChain nodes (some p) qs × (length qs ≤ length ps)
suffix nodes head [] p e c = cc
suffix nodes head (q ∷ ps) p e (h, n, at, c) = elim (Bool-cases (q == p)) [
  | inl here ↦
      let address : q ≡ p = ground arith in (q ∷ ps, (ap some (sym address), n, at, c), omega arith)
  | inr away ↦
      let (qs, d, le) = suffix nodes n.next ps p (ground arith) c in (qs, d, omega (arith, le))
]

pub not-is_among-rest :
    (nodes : Nodes) (head : Option ℕ) (p : ℕ) (ps : List ℕ)
    → IsChain nodes head (p ∷ ps)
    → is_among p ps ≡ false
not-is_among-rest nodes head p ps (h, n, at, c) = elim (Bool-cases (is_among p ps)) [
  | inl again ↦
      let (qs, d, le) = suffix nodes n.next ps p again c in
      let same : length (p ∷ ps) ≡ length qs =
        ap length (IsChain-unique nodes (some p) (p ∷ ps) qs (refl, n, at, c) d) in
      absurd (omega (arith, le, same))
  | inr once ↦ once
]

-- The nodes of a list are the same in both heaps.
abbrev pub Agree : Nodes → Nodes → List ℕ → Type 0
Agree old new ps = (q : ℕ) → is_among q ps ≡ true → new q ≡ old q

pub Agree-rest : (old new : Nodes) (p : ℕ) (ps : List ℕ) → Agree old new (p ∷ ps) → Agree old new ps
Agree-rest old new p ps agree q e = agree q (ground arith)

pub Agree-first : (old new : Nodes) (p : ℕ) (ps : List ℕ) → Agree old new (p ∷ ps) → new p ≡ old p
Agree-first old new p ps agree = agree p (ground arith)

pub IsChain-Agree :
    (old new : Nodes) (head : Option ℕ) (ps : List ℕ)
    → Agree old new ps
    → IsChain old head ps
    → IsChain new head ps
IsChain-Agree old new head [] agree c = c
IsChain-Agree old new head (p ∷ ps) agree (e, n, at, c) = (
  e,
  n,
  Agree-first old new p ps agree ∙ at,
  IsChain-Agree old new n.next ps (Agree-rest old new p ps agree) c,
)

-- What holds of all nodes of a list is known of each.
pub All-is_among : (P : ℕ → Type 0) (ps : List ℕ) (q : ℕ) → All P ps → is_among q ps ≡ true → P q
All-is_among P [] q all e = cc
All-is_among P (p ∷ ps) q (one, all) e = elim (Bool-cases (p == q)) [
  | inl here ↦ let address : p ≡ q = ground arith in subst P address one
  | inr away ↦ All-is_among P ps q all (ground arith)
]

pub All-of_is_among :
    (P : ℕ → Type 0) (ps : List ℕ) → ((q : ℕ) → is_among q ps ≡ true → P q) → All P ps
All-of_is_among P [] each = tt
All-of_is_among P (p ∷ ps) each =
    (each p (ground arith), All-of_is_among P ps λ q e. each q (ground arith))

-- A node on a list and one that is not on it differ.
pub apart :
    (ps : List ℕ) (q p : ℕ) → is_among q ps ≡ true → is_among p ps ≡ false → (q == p) ≡ false
apart ps q p on off = elim (Bool-cases (q == p)) [
  | inl here ↦
      let address : q ≡ p = ground arith in
      let again : is_among p ps ≡ true = ap (λ x. is_among x ps) (sym address) ∙ on in cc
  | inr away ↦ away
]

-- A list is not touched by a write to an address that is free.
pub Agree-fresh :
    (nodes : Nodes) (head : Option ℕ) (ps : List ℕ) (p : ℕ) (n : Option Node)
    → nodes p ≡ none
    → IsChain nodes head ps
    → Agree nodes (update nodes p n) ps
Agree-fresh nodes head ps p n free c q on =
    let off = not-is_among_of_none nodes head ps p free c in
    let away : (q == p) ≡ false = apart ps q p on off in rw away
