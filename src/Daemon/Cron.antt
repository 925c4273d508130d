-- ===== src/Daemon/Cron.antt =====
-- The timer of src/server.c: serverCron with the macro run_with_period, the signal handler that it
-- answers to, and what runs before the event loop sleeps.
pub mod Period
pub mod Round
use serial_proxy_c.Prelude.{
  ℕ, ◌+◌, ◌/◌, ◌%◌, ◌==◌, Bool, true, false, ◌&&◌, ◌||◌, ltb, leb, if◌then◌else◌, is_some,
}
use serial_proxy_c.Machine.Types.{Server, Call, Env, Fault}
use serial_proxy_c.Machine.Monad.{
  M, pure, undefined, exit, ◌>>=◌, ◌>>◌, skip, gets, set_server, when, note,
}
use serial_proxy_c.Log.{ll_info, server_log}
use serial_proxy_c.Serial.Upkeep.{serial_before_sleep, serial_cron}
use serial_proxy_c.Config.Settings.{change_server}

pub data Signal : Type 0 where
  sigint sigterm other : Signal

abbrev pub is_sigint : Signal → Bool
is_sigint Signal.sigint = true
is_sigint _ = false

unfoldable pub sig_handler : Signal → M (Unit {0})
sig_handler Signal.other = skip
sig_handler sig = do
  down ← gets (λ w. w.server.shutdown)
  if down && is_sigint sig then exit 1 else change_server (λ s. record s { shutdown = true })

unfoldable pub prepare_for_shutdown : Env → M (Unit {0})
prepare_for_shutdown env = do
  server_log env ll_info
  s ← gets (λ w. w.server)
  when (s.daemonize || is_some s.pidfile) (note (Call.unlink s.pidfile))

-- `a / b` and `a % b` on numbers that are no less than zero.
pub divide : ℕ → ℕ → M ℕ
divide a b = if b == 0 then undefined Fault.division_by_zero else pure (a / b)

remainder : ℕ → ℕ → M ℕ
remainder a b = if b == 0 then undefined Fault.division_by_zero else pure (a % b)

-- The test of the macro run_with_period; the right side of `||` runs only if the left one fails.
unfoldable pub run_with_period : ℕ → Server → M Bool
unfolding divide remainder
run_with_period ms s = do
  tick ← divide 1000 s.hz
  if leb ms tick then pure true else (do
    tick ← divide 1000 s.hz
    period ← divide ms tick
    left ← remainder s.cronloops period
    pure (left == 0))

-- `server.cronloops++` on an `int`.
pub count_loop : M (Unit {0})
count_loop = do
  s ← gets (λ w. w.server)
  if ltb s.cronloops 2_147_483_647
      then set_server (record s { cronloops = s.cronloops + 1 })
      else undefined Fault.int_overflow

-- The result is the number of milliseconds until the next call.
unfoldable pub server_cron : Env → M ℕ
unfolding count_loop divide
server_cron env = do
  down ← gets (λ w. w.server.shutdown)
  when down (do prepare_for_shutdown env; note Call.ae_stop)
  s ← gets (λ w. w.server)
  due ← run_with_period s.reconnect_interval s
  when due (serial_cron env)
  count_loop
  s ← gets (λ w. w.server)
  divide 1000 s.hz

unfoldable pub server_before_sleep : M (Unit {0})
server_before_sleep = serial_before_sleep
