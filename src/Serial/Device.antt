-- ===== src/Serial/Device.antt =====
-- Opening and configuring a device: the first part of _serialCreateLink in src/serial.c.
pub mod Configure
pub mod Open
use serial_proxy_c.Prelude.{
  ℕ, Bool, true, false, ◌&&◌, ◌||◌, Option, none, some, List, [], ◌∷◌, ◌==◌, if◌then◌else◌,
}
use serial_proxy_c.Prelude.Int.{ℤ, pos, negsuc, ◌/ℤ◌, is_nonzero}
use serial_proxy_c.Machine.Types.{Node, Call, Env, Fault}
use serial_proxy_c.Machine.Monad.{
  M, pure, undefined, ◌>>=◌, ◌>>◌, gets, change_link, note, perform, to_int,
}
use serial_proxy_c.Log.{ll_error, server_log_errno}
use serial_proxy_c.Serial.Nodes.{node_is_master, node_is_virtual}

-- The cases of the `switch` over the baud rate.
abbrev pub listed_speeds : List ℕ
listed_speeds =
    0 ∷ 50 ∷ 75 ∷ 110 ∷ 134 ∷ 150 ∷ 200 ∷ 300 ∷ 600 ∷ 1200 ∷ 1800 ∷ 2400 ∷ 4800 ∷ 7200 ∷ 9600
    ∷ 14400 ∷ 19200 ∷ 28800 ∷ 57600 ∷ 76800 ∷ 38400 ∷ 115200 ∷ 128000 ∷ 153600 ∷ 230400 ∷ 256000
    ∷ 460800 ∷ 576000 ∷ 921600 ∷ 1000000 ∷ 1152000 ∷ 1500000 ∷ 2000000 ∷ 2500000 ∷ 3000000 ∷ 3500000
    ∷ 4000000 ∷ []

contains : ℕ → List ℕ → Bool
contains b [] = false
contains b (c ∷ cs) = (b == c) || contains b cs

-- `some b` if the `switch` has a case for the baud rate on this platform.
pub standard_speed : Env → ℤ → Option ℕ
standard_speed env (pos b) = if contains b listed_speeds && env.has_speed b then some b else none
standard_speed env (negsuc b) = none

-- A call on a descriptor fails where the descriptor is -1.
on_descriptor : Option ℕ → (ℕ → M Bool) → M Bool
on_descriptor none call = pure false
on_descriptor (some fd) call = call fd

-- On failure `errno` is logged, and the code goes to `err`.
pub checked : Env → M Bool → M Bool
checked env call = do
  ok ← call
  if ok then pure true else (do server_log_errno env ll_error; pure false)

open_master : Env → ℕ → Node → M Bool
open_master env l n = do
  h ← gets (λ w. w.trace)
  ok ← perform env (Call.open_path n.name)
  let fd = env.descriptor h (Call.open_path n.name)
  if ok
      then (do
        change_link l (λ k. record k { fd = some fd })
        checked env (perform env (Call.isatty fd)))
      else (do server_log_errno env ll_error; pure false)

open_virtual : Env → ℕ → Node → M Bool
open_virtual env l n = do
  h ← gets (λ w. w.trace)
  ok ← perform env Call.openpty
  let fd = env.descriptor h Call.openpty
  let sfd = env.slave_descriptor h
  if ok
      then (do
        change_link l (λ k. record k { fd = some fd; sfd = some sfd })
        note (Call.remove n.name)
        checked env (perform env (Call.symlink sfd n.name)))
      else (do server_log_errno env ll_error; pure false)

unfoldable pub open_device : Env → ℕ → Node → M Bool
unfolding open_master open_virtual checked
open_device env l n =
    if node_is_master n
    then open_master env l n
    else if node_is_virtual n
    then open_virtual env l n
    else pure true

-- `ser.custom_divisor = ser.baud_base / node->baudrate`, and the call that sets it.
set_divisor : Env → ℤ → ℤ → ℕ → M Bool
set_divisor env base baudrate fd =
    if is_nonzero baudrate
    then (do
      divisor ← to_int (base /ℤ baudrate)
      checked env (perform env (Call.set_serial fd divisor)))
    else undefined Fault.division_by_zero

-- The `default` case: a custom divisor. Only the second failure is logged.
custom_speed : Env → ℤ → ℕ → M Bool
unfolding set_divisor
custom_speed env baudrate fd = do
  h ← gets (λ w. w.trace)
  ok ← perform env (Call.get_serial fd)
  if ok then set_divisor env (env.baud_base h fd) baudrate fd else pure false

-- The cases of the `switch` and its `default`.
take_speed : Env → Option ℕ → ℤ → Option ℕ → M (Option (Option ℕ))
unfolding custom_speed
take_speed env fd baudrate (some b) = pure (some (some b))
take_speed env fd baudrate none = do
  ok ← on_descriptor fd (custom_speed env baudrate)
  pure (if ok then some none else none)

-- `none` is `goto err`; `some s` goes on, `s` being the standard speed that was set, if one was.
choose_speed : Env → Option ℕ → ℤ → M (Option (Option ℕ))
unfolding take_speed
choose_speed env fd baudrate = take_speed env fd baudrate (standard_speed env baudrate)

set_attributes : Env → Option ℕ → Option (Option ℕ) → M Bool
set_attributes env fd none = pure false
set_attributes env fd (some speed) =
    checked env (on_descriptor fd (λ d. perform env (Call.tcsetattr d speed)))

unfoldable pub configure : Env → Option ℕ → Node → M Bool
unfolding choose_speed set_attributes checked on_descriptor standard_speed contains
configure env fd n = do
  got ← checked env (on_descriptor fd (λ d. perform env (Call.tcgetattr d)))
  if got
      then (do
        speed ← if node_is_master n then choose_speed env fd n.baudrate else pure (some none)
        set_attributes env fd speed)
      else pure false
