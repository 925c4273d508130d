-- ===== src/Machine/Memory.antt =====
-- Reads and writes of memory at addresses whose content is known.
use serial_proxy_c.Prelude.{ℕ, ◌≡◌, refl, Bool, true, false, Option, none, some, arith, fun_ext}
use serial_proxy_c.Machine.Types.{Node, Link, World, Fault}
use serial_proxy_c.Machine.Monad.{
  M, done, fault, when, load_node, load_link, change_node, change_link, update,
}

module _ (w : World) (p : ℕ) where
  pub load_node-some : {n : Node} → w.nodes p ≡ some n → load_node p w ≡ done n w
  load_node-some at = ground arith

  pub load_link-some : {k : Link} → w.links p ≡ some k → load_link p w ≡ done k w
  load_link-some at = ground arith

  pub load_link-none : w.links p ≡ none → load_link p w ≡ fault Fault.dangling_pointer
  load_link-none at = ground arith

  pub change_node-some :
      {n : Node} (f : Node → Node)
      → w.nodes p ≡ some n
      → change_node p f w ≡ done tt (record w { nodes = update w.nodes p (some (f n)) })
  change_node-some f at = ground arith

  pub change_link-some :
      {k : Link} (f : Link → Link)
      → w.links p ≡ some k
      → change_link p f w ≡ done tt (record w { links = update w.links p (some (f k)) })
  change_link-some f at = ground arith

module _ {A : Type 0} (f : ℕ → Option A) (p : ℕ) where
  pub update_same : (v : Option A) → update f p v p ≡ v
  update_same v = ground arith

  pub update-update : (u v : Option A) → update (update f p u) p v ≡ update f p v
  update-update u v = fun_ext λ q. ground arith

-- A command under a test whose value is known.
pub when-false :
    (test : Bool) (m : M (Unit {0})) (w : World) → test ≡ false → when test m w ≡ done tt w
when-false false m w e = refl
when-false true m w e = cc

pub when-true : (test : Bool) (m : M (Unit {0})) (w : World) → test ≡ true → when test m w ≡ m w
when-true false m w e = cc
when-true true m w e = refl
