-- ===== src/Tests/Daemon.antt =====
-- The theorems on settings, timer, signals and PID file at concrete inputs.
use serial_proxy_c.Prelude.{◌*◌, ◌≤◌, ◌<◌, ◌≡◌, refl, false, some, List, [], ◌∷◌, arith}
use serial_proxy_c.Prelude.Text.{Text, codes, case_eq}
use serial_proxy_c.Machine.Types.{Entry, Env}
use serial_proxy_c.Machine.Monad.{done, exited, ◌>>◌}
use serial_proxy_c.Machine.Returns.{Returns}
use serial_proxy_c.Config.Settings.{get_log_level}
use serial_proxy_c.Log.{server_log_level}
use serial_proxy_c.Config.Settings.Levels.{get_log_level-server_log_level}
use serial_proxy_c.Config.Settings.Limits.{IsWithinLimits}
use serial_proxy_c.Daemon.Cron.{Signal, sig_handler, run_with_period}
use serial_proxy_c.Daemon.Cron.Period.{
  run_with_period-once, receive, asked, sig_handler-interrupt_again,
}
use serial_proxy_c.Tests.Setup.{env, world, server}

abbrev entry : Text → Text → Text → Entry
entry section name value = record { section = section; name = name; value = value }

abbrev settings : List Entry
settings =
    entry (codes "system") (codes "hz") (codes "20")
    ∷ entry (codes "Logging") (codes "LogLevel") (codes "info")
    ∷ entry (codes "system") (codes "hz") (codes " 9000")
    ∷ entry (codes "system") (codes "reconnect-interval") (codes "-3")
    ∷ []

abbrev configured_env : Env
configured_env = record env { ini_entries = λ path. some settings }

limits : IsWithinLimits server
limits = omega arith

run_with_period-once_example :
    (run_with_period 5000 server world ≡ done false world) × (50 * 100 ≤ 5000) × (5000 < 51 * 100)
run_with_period-once_example =
    run_with_period-once server world 0 7 limits (omega arith) refl (omega arith)

sig_handler-interrupt_again_example :
    ((sig_handler Signal.sigint >> receive (Signal.sigterm ∷ [])) world ≡ done tt (asked world))
    × ((sig_handler Signal.sigint >> (receive (Signal.sigterm ∷ []) >> sig_handler Signal.sigint))
          world
        ≡ exited 1 (asked world))
sig_handler-interrupt_again_example =
    sig_handler-interrupt_again world Signal.sigint (Signal.sigterm ∷ []) refl (grind arith)
      (grind arith, tt)

abbrev pid_settings : List Entry
pid_settings = entry (codes "system") (codes "pidfile") (codes "/tmp/p") ∷ []

abbrev pid_env : Env
pid_env = record env { ini_entries = λ path. some pid_settings }

get_log_level-server_log_level_example : get_log_level (some (codes "WaRN")) ≡ 2
unfolding server_log_level case_eq
get_log_level-server_log_level_example =
    get_log_level-server_log_level 2 (codes "warn") (codes "WaRN") refl refl
