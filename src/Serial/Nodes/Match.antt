-- ===== src/Serial/Nodes/Match.antt =====
-- What a list of nodes stands for: one value for each node, and the search for one of them.
use serial_proxy_c.Prelude.{
  ℕ, ◌≡◌, refl, inl, inr, ap, sym, subst, ◌∙◌, Bool, true, false, Option, none, some, List, [], ◌∷◌,
  arith, ◌==◌, Bool-cases, Matches, any, change_first,
}
use serial_proxy_c.Machine.Types.{Node}
use serial_proxy_c.Serial.Nodes.Chain.{Nodes, IsChain, is_among, first_with}
use serial_proxy_c.Serial.Nodes.Distinct.{not-is_among-rest, apart}

pub Matches-imp {ℓ} :
    {X : Type ℓ} {R S : ℕ → X → Type 0} (ps : List ℕ) (xs : List X)
    → ((q : ℕ) (x : X) → is_among q ps ≡ true → R q x → S q x)
    → Matches R ps xs
    → Matches S ps xs
Matches-imp [] [] imp m = tt
Matches-imp [] (x ∷ xs) imp m = absurd m
Matches-imp (p ∷ ps) [] imp m = absurd m
Matches-imp (p ∷ ps) (x ∷ xs) imp (one, rest) =
    (imp p x (ground arith) one, Matches-imp ps xs (λ q y on. imp q y (ground arith)) rest)

module _ {ℓ} {X : Type ℓ} (nodes : Nodes) (node_test : Node → Bool) (test : X → Bool)
    (R : ℕ → X → Type 0)
    (reads : (q : ℕ) (x : X)
      → R q x
      → (n : Node) × (nodes q ≡ some n) × (node_test n ≡ test x)) where
  -- The search ends in vain exactly where no value passes the test.
  pub first_with-none :
      (ps : List ℕ) (xs : List X)
      → Matches R ps xs
      → first_with node_test nodes ps ≡ none
      → any test xs ≡ false
  unfolding first_with
  first_with-none [] [] m e = refl
  first_with-none [] (x ∷ xs) m e = absurd m
  first_with-none (p ∷ ps) [] m e = absurd m
  first_with-none (p ∷ ps) (x ∷ xs) (one, rest) e =
      let (n, at, same) = reads p x one in
      elim (Bool-cases (node_test n)) [
        | inl hit ↦ absurd (ground arith)
        | inr miss ↦ let later = first_with-none ps xs rest (ground arith) in ground arith
      ]

  pub first_with-any :
      (ps : List ℕ) (xs : List X) (p : ℕ)
      → Matches R ps xs
      → first_with node_test nodes ps ≡ some p
      → (any test xs ≡ true) × (is_among p ps ≡ true)
  unfolding first_with
  first_with-any [] [] p m e = cc
  first_with-any [] (x ∷ xs) p m e = absurd m
  first_with-any (q ∷ ps) [] p m e = absurd m
  first_with-any (q ∷ ps) (x ∷ xs) p (one, rest) e =
      let (n, at, same) = reads q x one in
      elim (Bool-cases (node_test n)) [
        | inl hit ↦ let here : q ≡ p = ground arith in (ground arith, ground arith)
        | inr miss ↦
            let (some_later, on) = first_with-any ps xs p rest (ground arith) in
            (ground arith, ground arith)
      ]

  -- A change of the node that is found is one of the first value that passes the test.
  pub change_first-Matches :
      (S : ℕ → X → Type 0) (f : X → X) (head : Option ℕ) (ps : List ℕ) (xs : List X) (p : ℕ)
      → IsChain nodes head ps
      → Matches R ps xs
      → first_with node_test nodes ps ≡ some p
      → ((x : X) → R p x → S p (f x))
      → ((q : ℕ) (x : X) → is_among q ps ≡ true → (q == p) ≡ false → R q x → S q x)
      → Matches S ps (change_first test f xs)
  unfolding first_with
  change_first-Matches S f head [] [] p c m e here there = cc
  change_first-Matches S f head [] (x ∷ xs) p c m e here there = absurd m
  change_first-Matches S f head (q ∷ ps) [] p c m e here there = absurd m
  change_first-Matches S f head (q ∷ ps) (x ∷ xs) p (h, k, at', c) (one, rest) e here there =
      let (n, at, same) = reads q x one in
      let once = not-is_among-rest nodes head q ps (h, k, at', c) in
      elim (Bool-cases (node_test n)) [
        | inl hit ↦
            let address : q ≡ p = ground arith in
            let passes : test x ≡ true = sym same ∙ hit in
            let off : is_among p ps ≡ false = ap (λ y. is_among y ps) (sym address) ∙ once in
            rw passes (
              (
                subst (λ y. S y (f x)) (sym address) (here x (subst (λ y. R y x) address one)),
                Matches-imp ps xs (λ r y on. there r y (ground arith) (apart ps r p on off)) rest,
              ))
        | inr miss ↦
            let fails : test x ≡ false = sym same ∙ miss in
            let later : first_with node_test nodes ps ≡ some p = ground arith in
            let (found, on) = first_with-any ps xs p rest later in
            let away : (p == q) ≡ false = apart ps p q on once in
            rw fails (
              (
                there q x (ground arith) (ground arith) one,
                change_first-Matches S f k.next ps xs p c rest later here
                    (λ r y on'. there r y (ground arith)),
              ))
      ]

-- A change for an element that is not there changes nothing.
pub change_first-none {ℓ} :
    {X : Type ℓ} (test : X → Bool) (f : X → X) (xs : List X)
    → any test xs ≡ false
    → change_first test f xs ≡ xs
change_first-none test f [] e = refl
change_first-none test f (x ∷ xs) e =
    let fails : test x ≡ false = ground arith in
    let rest = change_first-none test f xs (ground arith) in rw (fails, rest)
