-- ===== src/Machine/Monad.antt =====
-- Commands: they return, end the process by `exit`, or have undefined behaviour.
use serial_proxy_c.Prelude.{
  ℕ, suc, Bool, true, false, Option, none, some, ◌∷◌, ◌==◌, ltb, if◌then◌else◌,
}
use serial_proxy_c.Prelude.Int.{ℤ, pos, negsuc}
use serial_proxy_c.Machine.Types.{Node, Link, Server, Call, Env, World, Fault}

pub data Outcome (A : Type 0) : Type 0 where
  done : A → World → Outcome A
  exited : ℕ → World → Outcome A
  fault : Fault → Outcome A

abbrev pub M : Type 0 → Type 0
M A = World → Outcome A

module _ {A : Type 0} where
  abbrev pub pure : A → M A
  pure a w = done a w

  abbrev pub undefined : Fault → M A
  undefined f w = fault f

  -- `exit(status)`
  abbrev pub exit : ℕ → M A
  exit n w = exited n w

module _ {A B : Type 0} where
  abbrev pub and_then : Outcome A → (A → M B) → Outcome B
  and_then (done a w) k = k a w
  and_then (exited n w) k = exited n w
  and_then (fault f) k = fault f

  infixl 5 ◌>>=◌ ◌>>◌
  abbrev pub ◌>>=◌ : M A → (A → M B) → M B
  ◌>>=◌ m k w = and_then (m w) k

  abbrev pub ◌>>◌ : M A → M B → M B
  ◌>>◌ m k w = and_then (m w) (λ a. k)

abbrev pub skip : M (Unit {0})
skip = pure tt

abbrev pub gets : {A : Type 0} → (World → A) → M A
gets f w = done (f w) w

abbrev pub set_server : Server → M (Unit {0})
set_server s w = done tt (record w { server = s })

-- Runs a command when a test holds.
abbrev pub when : Bool → M (Unit {0}) → M (Unit {0})
when true m = m
when false m = skip

-- A pointer that is about to be followed.
abbrev pub deref : Option ℕ → M ℕ
deref none = undefined Fault.null_pointer
deref (some p) = pure p

-- One address of a memory is given a new content.
abbrev pub update : {A : Type 0} → (ℕ → Option A) → ℕ → Option A → ℕ → Option A
update f p v q = if q == p then v else f q

abbrev pub load_node : ℕ → M Node
load_node p w = elim (w.nodes p) [ none ↦ fault Fault.dangling_pointer | some n ↦ done n w ]

abbrev pub load_link : ℕ → M Link
load_link l w = elim (w.links l) [ none ↦ fault Fault.dangling_pointer | some k ↦ done k w ]

abbrev pub set_node : ℕ → Option Node → M (Unit {0})
set_node p v w = done tt (record w { nodes = update w.nodes p v })

abbrev pub set_link : ℕ → Option Link → M (Unit {0})
set_link l v w = done tt (record w { links = update w.links l v })

-- A field of a live node, or of a live link, is written.
abbrev pub change_node : ℕ → (Node → Node) → M (Unit {0})
change_node p f = do n ← load_node p; set_node p (some (f n))

abbrev pub change_link : ℕ → (Link → Link) → M (Unit {0})
change_link l f = do k ← load_link l; set_link l (some (f k))

-- An address that no pointer of the program holds.
abbrev pub take_address : M ℕ
take_address w = done w.fresh (record w { fresh = suc w.fresh })

abbrev pub note : Call → M (Unit {0})
note c w = done tt (record w { trace = c ∷ w.trace })

-- A call whose result is tested for success only.
abbrev pub perform : Env → Call → M Bool
perform env c w = done (env.succeeds w.trace c) (record w { trace = c ∷ w.trace })

-- A result that has to fit a 32-bit `int`.
abbrev pub to_int : ℤ → M ℤ
to_int (pos n) = if ltb n 2_147_483_648 then pure (pos n) else undefined Fault.int_overflow
to_int (negsuc n) = if ltb n 2_147_483_648 then pure (negsuc n) else undefined Fault.int_overflow
