-- ===== src/Prelude/Flags.antt =====
-- Bit flags: a test and a set of one bit of a number, the flag being a power of two.
use Prim.Native.Nat.{ℕ, ◌+◌, ◌/◌, ◌%◌}
use mathlib.Core.Bool.{Bool}
use serial_proxy_c.Prelude.Tests.{◌==◌, if◌then◌else◌}

-- `set & flag`
abbrev pub has_flag : ℕ → ℕ → Bool
has_flag set flag = set / flag % 2 == 1

-- `set | flag`
abbrev pub add_flag : ℕ → ℕ → ℕ
add_flag set flag = if has_flag set flag then set else set + flag
