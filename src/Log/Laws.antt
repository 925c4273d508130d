-- ===== src/Log/Laws.antt =====
-- What a line of the log costs: nothing but log output, and a crash where no log file is set.
use serial_proxy_c.Prelude.{
  ℕ, ◌≡◌, refl, inl, inr, Bool, true, false, Option, none, some, List, [], ◌∷◌, ltb, if◌then◌else◌,
  Bool-cases,
}
use serial_proxy_c.Prelude.Int.{is_nonzero}
use serial_proxy_c.Prelude.Text.{Text}
use serial_proxy_c.Machine.Types.{Call, Env, World, Fault}
use serial_proxy_c.Machine.Monad.{Outcome, done, fault}
use serial_proxy_c.Log.{
  open_log, close_log, print_line, print_opened, server_log_raw, server_log, server_log_errno,
}

-- The calls that only write the log.
abbrev pub is_logging : Call → Bool
is_logging (Call.fopen p) = true
is_logging (Call.fclose p) = true
is_logging Call.gettimeofday = true
is_logging (Call.log_line n) = true
is_logging (Call.syslog_line n) = true
is_logging _ = false

-- A history without the calls that only write the log.
abbrev pub device_calls : List Call → List Call
device_calls [] = []
device_calls (c ∷ t) = let rest = device_calls t in if is_logging c then rest else c ∷ rest

-- The second history is the first one and more log output.
pub data OnlyLog (s : List Call) : List Call → Type 0 where
  same : OnlyLog s s
  more : {c : Call} {t : List Call} → is_logging c ≡ true → OnlyLog s t → OnlyLog s (c ∷ t)

OnlyLog-trans : {r s t : List Call} → OnlyLog r s → OnlyLog s t → OnlyLog r t
OnlyLog-trans a same = a
OnlyLog-trans a (more quiet b) = more quiet (OnlyLog-trans a b)

pub device_calls-OnlyLog : {s t : List Call} → OnlyLog s t → device_calls t ≡ device_calls s
device_calls-OnlyLog same = refl
device_calls-OnlyLog (more quiet b) = rw quiet (device_calls-OnlyLog b)

-- The command returns, and leaves the world as it was but for more log output.
abbrev pub Logs : World → Outcome (Unit {0}) → Type 0
Logs w o = (t : List Call) × OnlyLog w.trace t × (o ≡ done tt (record w { trace = t }))

close_log-some :
    (name : Option Text) (path : Text) (w : World) → name ≡ some path → Logs w (close_log name w)
unfolding close_log
close_log-some none path w e = cc
close_log-some (some []) path w e = (w.trace, same, refl)
close_log-some (some (c ∷ rest)) path w e = (Call.fclose (c ∷ rest) ∷ w.trace, more refl same, refl)

module _ (env : Env) (level : ℕ) (w : World) (path : Text)
    (set : w.server.logfile ≡ some path) where
  print_line-Logs : Logs w (print_line env level w)
  unfolding print_line
  print_line-Logs =
      let w1 : World = record w { trace = Call.log_line level ∷ w.trace } in
      let (t, log, e) = close_log-some w.server.logfile path w1 set in
      let log' : OnlyLog w.trace t = OnlyLog-trans (more refl same) log in
      elim (Bool-cases (is_nonzero w.server.syslog)) [
        | inl on ↦ (Call.syslog_line level ∷ t, more refl log', rw (e, on))
        | inr off ↦ (t, log', rw (e, off))
      ]

-- Opening the log says yes or no, and leaves a trace in the history at most.
open_log-some :
    (env : Env) (name : Option Text) (path : Text) (w : World)
    → name ≡ some path
    → (b : Bool) × (t : List Call) × OnlyLog w.trace t
      × (open_log env name w ≡ done b (record w { trace = t }))
unfolding open_log
open_log-some env none path w e = cc
open_log-some env (some []) path w e = (true, w.trace, same, refl)
open_log-some env (some (c ∷ rest)) path w e = (
  env.succeeds w.trace (Call.fopen (c ∷ rest)),
  Call.fopen (c ∷ rest) ∷ w.trace,
  more refl same,
  refl,
)

open_log-none :
    (env : Env) (name : Option Text) (w : World)
    → name ≡ none
    → open_log env name w ≡ fault Fault.null_pointer
unfolding open_log
open_log-none env none w e = refl
open_log-none env (some path) w e = cc

module _ (env : Env) (level : ℕ) (w : World) (path : Text)
    (set : w.server.logfile ≡ some path) where
  -- The part behind a log file that was opened.
  print_opened-Logs : (b : Bool) → Logs w (print_opened env level b w)
  unfolding print_opened
  print_opened-Logs false = (w.trace, same, refl)
  print_opened-Logs true =
      let t = Call.gettimeofday ∷ w.trace in
      elim (Bool-cases (env.succeeds w.trace Call.gettimeofday)) [
        | inl ok ↦
            let (u, log, e) = print_line-Logs env level (record w { trace = t }) path set in
            (u, OnlyLog-trans (more refl same) log, rw ok e)
        | inr failed ↦ (t, more refl same, rw failed)
      ]

module _ (env : Env) (level : ℕ) (w : World) (path : Text)
    (set : w.server.logfile ≡ some path) where
  server_log_raw-Logs : Logs w (server_log_raw env level w)
  unfolding server_log_raw
  server_log_raw-Logs = elim (Bool-cases (ltb level w.server.verbosity)) [
    | inl low ↦ (w.trace, same, rw low)
    | inr high ↦
        let (b, t, log, e) = open_log-some env w.server.logfile path w set in
        let (u, log', e') = print_opened-Logs env level (record w { trace = t }) path set b in
        (u, OnlyLog-trans log log', rw (high, e) e')
  ]

  pub server_log-Logs : Logs w (server_log env level w)
  unfolding server_log
  server_log-Logs = elim (Bool-cases (ltb level w.server.verbosity)) [
    | inl low ↦ (w.trace, same, rw low)
    | inr high ↦ rw high server_log_raw-Logs
  ]

  pub server_log_errno-Logs : Logs w (server_log_errno env level w)
  unfolding server_log_errno
  server_log_errno-Logs = elim (Bool-cases (ltb level w.server.verbosity)) [
    | inl low ↦ (w.trace, same, rw low)
    | inr high ↦ rw high server_log-Logs
  ]

-- A message below the verbosity costs nothing; any other one follows the log file's name, which is
-- a NULL pointer where the configuration set none.
pub server_log_needs_logfile :
    (env : Env) (level : ℕ) (w : World)
    → w.server.logfile ≡ none
    → server_log env level w
      ≡ (if ltb level w.server.verbosity then done tt w else fault Fault.null_pointer)
unfolding server_log server_log_raw
server_log_needs_logfile env level w unset = elim (Bool-cases (ltb level w.server.verbosity)) [
  | inl low ↦ rw low
  | inr high ↦ rw (high, high, open_log-none env w.server.logfile w unset)
]
