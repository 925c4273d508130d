-- ===== src/Machine/Returns.antt =====
-- Total correctness: the command returns (it neither exits, nor meets undefined behaviour, nor runs
-- out of fuel), and the result and the state that it leaves have a property.
use serial_proxy_c.Prelude.{◌≡◌, refl, sym, subst}
use serial_proxy_c.Machine.Types.{World}
use serial_proxy_c.Machine.Monad.{Outcome, done, M, and_then}

pub data Returns {A : Type 0} (P : A → World → Type 0) : Outcome A → Type 0 where
  returned : {a : A} {w : World} → P a w → Returns P (done a w)

module _ {A : Type 0} {P : A → World → Type 0} where
  -- What a command does, read off an equation.
  pub Returns-of_eq : {a : A} {w : World} (o : Outcome A) → o ≡ done a w → P a w → Returns P o
  Returns-of_eq o e p = subst (Returns P) (sym e) (returned p)

  Returns-done : {a : A} {w : World} → Returns P (done a w) → P a w
  Returns-done (returned p) = p

  pub Returns-result : {a : A} {w : World} {o : Outcome A} → Returns P o → o ≡ done a w → P a w
  Returns-result r e = Returns-done (subst (Returns P) e r)

  pub Returns-and_then :
      {B : Type 0} {Q : B → World → Type 0} {o : Outcome A} (k : A → M B)
      → Returns P o
      → ((a : A) (w : World) → P a w → Returns Q (k a w))
      → Returns Q (and_then o k)
  Returns-and_then k (returned p) next = next _ _ p

  pub Returns-weaken :
      {Q : A → World → Type 0} {o : Outcome A}
      → Returns P o
      → ((a : A) (w : World) → P a w → Q a w)
      → Returns Q o
  Returns-weaken (returned p) imp = returned (imp _ _ p)

  pub outcome_of_Returns :
      {o : Outcome A} → Returns P o → (a : A) × (w : World) × (o ≡ done a w) × P a w
  outcome_of_Returns (returned p) = (_, _, refl, p)

-- Two things that hold of the same outcome hold together.
pub Returns-both :
    {A : Type 0} {P Q : A → World → Type 0} {o : Outcome A}
    → Returns P o
    → Returns Q o
    → Returns (λ a w. P a w × Q a w) o
Returns-both (returned p) q = returned (p, Returns-result q refl)
