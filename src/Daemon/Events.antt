-- ===== src/Daemon/Events.antt =====
-- What the event loop and the kernel call of the running daemon, one event at a time: the callbacks
-- that src/serial.c and src/server.c register, and the signal handler.
pub mod Run
use serial_proxy_c.Prelude.{ℕ, ◌≡◌, ◌≢◌, ◌<◌, ◌&&◌, true, false, some}
use serial_proxy_c.Prelude.Flags.{add_flag}
use serial_proxy_c.Machine.Types.{Link, Env, World}
use serial_proxy_c.Machine.Monad.{M, done, ◌>>◌, skip}
use serial_proxy_c.Serial.Link.{ae_readable, ae_writable}
use serial_proxy_c.Serial.Transfer.{event_handler}
use serial_proxy_c.Serial.Sound.Handlers.{Delivers, IsLive}
use serial_proxy_c.Daemon.Cron.{Signal, is_sigint, sig_handler, server_cron, server_before_sleep}

pub data Event : Type 0 where
  -- a link can be read, written, or both
  readable writable both : ℕ → Event
  timer sleep : Event
  signal : Signal → Event

unfoldable pub occur : Env → Event → M (Unit {0})
occur env (Event.readable l) = event_handler env (some l) ae_readable
occur env (Event.writable l) = event_handler env (some l) ae_writable
occur env (Event.both l) = event_handler env (some l) (add_flag ae_readable ae_writable)
occur env Event.timer = do server_cron env; skip
occur env Event.sleep = server_before_sleep
occur env (Event.signal s) = sig_handler s

-- When an event may occur: on a live link; both at once only where the read does not fail; the timer
-- as long as its counter does not overflow; SIGINT as long as no shutdown was asked for.
unfoldable pub CanOccur : Env → World → Event → Type 0
CanOccur env w (Event.readable l) = IsLive w l
CanOccur env w (Event.writable l) = IsLive w l
CanOccur env w (Event.both l) =
    (k : Link) × (w.links l ≡ some k)
    × ((fd : ℕ) → k.fd ≡ some fd → Delivers (env.received w.trace fd))
CanOccur env w Event.timer = w.server.cronloops < 2_147_483_647
CanOccur env w Event.sleep = Unit
CanOccur env w (Event.signal s) = (w.server.shutdown && is_sigint s) ≡ false

-- The states that events lead to.
pub data Reaches (env : Env) (w : World) : World → Type 0 where
  here : Reaches env w w
  next :
      {v u : World} (e : Event)
      → Reaches env w v
      → CanOccur env v e
      → occur env e v ≡ done tt u
      → Reaches env w u
