-- ===== src/Daemon/Cron/Period.antt =====
-- The timer's arithmetic: in which calls serverCron is due to reconnect; and the signals.
use serial_proxy_c.Prelude.{
  ℕ, zero, suc, ◌+◌, ◌*◌, ◌/◌, ◌%◌, ◌≤◌, ◌<◌, ◌≡◌, refl, inl, inr, Bool, true, false, ◌||◌, List,
  [], ◌∷◌, arith, ap, subst, ◌∙◌, Bool-cases, ◌==◌, leb, ◌≢◌, All,
}
use native.Mathlib.Nat.{
  div-mul-le_self, lt-mul-div-succ, mul_comm, zero-mul, zero-add, mod-eq_of_lt, add-mod_right,
}
use serial_proxy_c.Machine.Types.{Server, World}
use serial_proxy_c.Machine.Monad.{M, done, exited, skip, ◌>>◌}
use serial_proxy_c.Config.Settings.Limits.{IsWithinLimits}
use serial_proxy_c.Daemon.Cron.{Signal, sig_handler, run_with_period, divide, remainder, count_loop}

-- The milliseconds after which serverCron asks to be called again.
abbrev pub tick : Server → ℕ
tick s = 1000 / s.hz

-- The number of calls from one reconnect to the next.
abbrev pub period : Server → ℕ
period s = s.reconnect_interval / tick s

pub divide_lem : (a b : ℕ) (w : World) → 0 < b → divide a b w ≡ done (a / b) w
unfolding divide
divide_lem a b w h = ground arith

remainder_lem : (a b : ℕ) (w : World) → 0 < b → remainder a b w ≡ done (a % b) w
unfolding remainder
remainder_lem a b w h = ground arith

tick_bounds : (s : Server) → IsWithinLimits s → (2 ≤ tick s) × (tick s ≤ 1000)
tick_bounds s h = grind arith

period_pos : (s : Server) → IsWithinLimits s → 0 < period s
period_pos s h = grind (arith, tick_bounds s h)

-- Whether this call of serverCron reconnects.
abbrev pub due : Server → Bool
due s = leb s.reconnect_interval (tick s) || (s.cronloops % period s == 0)

-- Within the limits of the configuration the macro divides by no zero, and says whether the interval
-- is no longer than a tick, or the calls made so far are a multiple of the period.
pub run_with_period-due :
    (s : Server) (w : World)
    → IsWithinLimits s
    → run_with_period s.reconnect_interval s w ≡ done (due s) w
unfolding run_with_period
run_with_period-due s w h =
    let hz_pos : 0 < s.hz = omega arith in
    let tick_pos : 0 < tick s = omega (arith, tick_bounds s h) in
    rw (divide_lem 1000 s.hz w hz_pos) (elim (Bool-cases (leb s.reconnect_interval (tick s))) [
      | inl short ↦ rw short
      | inr long ↦ rw (
        long,
        divide_lem 1000 s.hz w hz_pos,
        divide_lem s.reconnect_interval (tick s) w tick_pos,
        remainder_lem s.cronloops (period s) w (period_pos s h),
      )
    ])

mod-add_mul : (q p j : ℕ) → j < p → (q * p + j) % p ≡ j
mod-add_mul zero p j h = rw (zero-mul p, zero-add j) (mod-eq_of_lt h)
mod-add_mul (suc q) p j h =
    let next : suc q * p + j ≡ q * p + j + p = omega arith in
    rw (next, add-mod_right (q * p + j) p) (mod-add_mul q p j h)

-- Let the settings be within their limits, and the interval longer than a tick, which is 1000 / hz.
-- Then exactly one in every `period` calls of serverCron is due to reconnect, the first of each group,
-- and no division by zero is met. The period is the interval in ticks, rounded down: so many ticks
-- are no longer than the interval, and one more is longer. How much time passes between two calls is
-- not stated.
pub run_with_period-once :
    (s : Server) (w : World) (q j : ℕ)
    → IsWithinLimits s
    → tick s < s.reconnect_interval
    → s.cronloops ≡ q * period s + j
    → j < period s
    → (run_with_period s.reconnect_interval s w ≡ done (j == 0) w)
      × (period s * tick s ≤ s.reconnect_interval)
      × (s.reconnect_interval < (period s + 1) * tick s)
run_with_period-once s w q j h long loops below =
    let (low, high) = tick_bounds s h in
    (
      run_with_period-due s w h
          ∙ ap (λ (b : Bool). done b w) (ground (arith, mod-add_mul q (period s) j below)),
      div-mul-le_self s.reconnect_interval (tick s),
      subst (λ x. s.reconnect_interval < x) (mul_comm (tick s) (period s + 1))
          (lt-mul-div-succ s.reconnect_interval (omega (arith, low))),
    )

pub count_loop_lem :
    (w : World)
    → w.server.cronloops < 2_147_483_647
    → count_loop w
      ≡ done tt (record w { server = record w.server { cronloops = w.server.cronloops + 1 } })
unfolding count_loop
count_loop_lem w few = ground arith

-- The signals of a list arrive one after the other.
unfoldable pub receive : List Signal → M (Unit {0})
receive [] = skip
receive (sig ∷ sigs) = do sig_handler sig; receive sigs

abbrev pub asked : World → World
asked w = record w { server = record w.server { shutdown = true } }

receive-asked :
    (sigs : List Signal) (w : World)
    → All (λ sig. sig ≢ Signal.sigint) sigs
    → receive sigs (asked w) ≡ done tt (asked w)
unfolding receive sig_handler
receive-asked [] w quiet = refl
receive-asked (Signal.other ∷ sigs) w (n, quiet) = receive-asked sigs w quiet
receive-asked (Signal.sigterm ∷ sigs) w (n, quiet) = receive-asked sigs w quiet
receive-asked (Signal.sigint ∷ sigs) w (n, quiet) = absurd (n refl)

first_request :
    (w : World) (first : Signal)
    → w.server.shutdown ≡ false
    → first ≢ Signal.other
    → sig_handler first w ≡ done tt (asked w)
unfolding sig_handler
first_request w Signal.other up asks = absurd (asks refl)
first_request w Signal.sigterm up asks = ground arith
first_request w Signal.sigint up asks = ground arith

-- The first SIGINT or SIGTERM asks for a shutdown. The request stands, and the process runs on,
-- whatever signals other than SIGINT follow; the next SIGINT ends the process with status 1.
pub sig_handler-interrupt_again :
    (w : World) (first : Signal) (middle : List Signal)
    → w.server.shutdown ≡ false
    → first ≢ Signal.other
    → All (λ sig. sig ≢ Signal.sigint) middle
    → ((sig_handler first >> receive middle) w ≡ done tt (asked w))
      × ((sig_handler first >> (receive middle >> sig_handler Signal.sigint)) w
          ≡ exited 1 (asked w))
sig_handler-interrupt_again w first middle up asks quiet = (
  rw (first_request w first up asks, receive-asked middle w quiet),
  rw (first_request w first up asks, receive-asked middle w quiet) (interrupt w),
)
  where
    interrupt : (u : World) → sig_handler Signal.sigint (asked u) ≡ exited 1 (asked u)
    interrupt u = unfold sig_handler in refl
