-- ===== src/Log/Files.antt =====
-- serverLogRaw opens the log file for each line: when it is closed again.
use serial_proxy_c.Prelude.{
  ℕ, ◌+◌, ◌-◌, ◌≡◌, inl, inr, not, ◌&&◌, none, some, Option, some-inj, ap, sym, ◌∙◌, List, [], ◌∷◌,
  arith, ltb, if◌then◌else◌, Bool-cases,
}
use serial_proxy_c.Prelude.Int.{is_nonzero}
use serial_proxy_c.Prelude.Text.{Text}
use serial_proxy_c.Machine.Types.{Call, Env, World}
use serial_proxy_c.Machine.Monad.{◌>>=◌}
use serial_proxy_c.Machine.Returns.{Returns, returned, Returns-and_then, Returns-weaken}
use serial_proxy_c.Log.{open_log, close_log, print_line, print_opened, server_log_raw, server_log}

-- What a call makes of the number of open files, after the calls `t`.
abbrev files_after : Env → List Call → Call → ℕ → ℕ
files_after env t (Call.fopen p) n = if env.succeeds t (Call.fopen p) then n + 1 else n
files_after env t (Call.fclose p) n = n - 1
files_after env t (Call.write_pid p) n = n - 1
files_after env t _ n = n

-- How many files are open that were opened by `fopen`.
abbrev pub open_files : Env → List Call → ℕ
open_files env [] = 0
open_files env (c ∷ t) = files_after env t c (open_files env t)

-- How many files a line to the log file `path` leaves open: one if it was opened and the time is not
-- to be had.
abbrev pub left_open : Env → List Call → Text → ℕ
left_open env t [] = 0
left_open env t (c ∷ path) =
    let opening = Call.fopen (c ∷ path) in
    if env.succeeds t opening && not (env.succeeds (opening ∷ t) Call.gettimeofday) then 1 else 0

-- What `fclose` of the log file makes of the number.
abbrev closed_files : Text → ℕ → ℕ
closed_files [] n = n
closed_files (c ∷ path) n = n - 1

close_log-files :
    (env : Env) (name : Option Text) (path : Text) (w : World)
    → name ≡ some path
    → Returns
        (λ r u. open_files env u.trace ≡ closed_files path (open_files env w.trace))
        (close_log name w)
unfolding close_log
close_log-files env none path w e = cc
close_log-files env (some []) path w e =
    returned (ap (λ p. closed_files p (open_files env w.trace)) (some-inj e))
close_log-files env (some (c ∷ rest)) path w e =
    returned (ap (λ p. closed_files p (open_files env w.trace)) (some-inj e))

-- A line is written to the file that is open, and the file is closed.
print_line-files :
    (env : Env) (level : ℕ) (w : World) (path : Text)
    → w.server.logfile ≡ some path
    → Returns
        (λ r u. open_files env u.trace ≡ closed_files path (open_files env w.trace))
        (print_line env level w)
unfolding print_line
print_line-files env level w path set =
    let w1 : World = record w { trace = Call.log_line level ∷ w.trace } in
    Returns-and_then _ (close_log-files env w.server.logfile path w1 set) λ r u now.
      elim (Bool-cases (is_nonzero u.server.syslog)) [
        | inl on ↦ rw on (returned now)
        | inr off ↦ rw off (returned now)
      ]

-- Where a log file is set, serverLog returns. A message below the verbosity leaves as many files open
-- as before, and so does any other one that goes to the standard output, whose log file cannot be
-- opened, or which is written; but if the log file was opened and gettimeofday fails, it stays open.
pub server_log-open_files :
    (env : Env) (level : ℕ) (w : World) (path : Text)
    → w.server.logfile ≡ some path
    → Returns
        (λ r u.
          open_files env u.trace
          ≡ open_files env w.trace
            + (if ltb level w.server.verbosity then 0 else left_open env w.trace path))
        (server_log env level w)
unfolding server_log server_log_raw open_log print_opened
server_log-open_files env level w path set = elim (Bool-cases (ltb level w.server.verbosity)) [
  | inl low ↦ rw low (returned (omega arith))
  | inr high ↦ rw (high, high) (line w.server.logfile set set)
]
  where
    line :
        (o : Option Text)
        → o ≡ some path
        → w.server.logfile ≡ some path
        → Returns
            (λ r u. open_files env u.trace ≡ open_files env w.trace + left_open env w.trace path)
            ((open_log env o >>= print_opened env level) w)
    line none same e = cc
    line (some []) same e =
        let plain : path ≡ [] = some-inj (sym same) in
        let t : List Call = Call.gettimeofday ∷ w.trace in
        elim (Bool-cases (env.succeeds w.trace Call.gettimeofday)) [
          | inl ok ↦
              rw (plain, ok)
                (Returns-weaken
                  (print_line-files env level (record w { trace = t }) [] (e ∙ ap some plain))
                  λ r u now. omega (arith, now))
          | inr failed ↦ rw (plain, failed) (returned (omega arith))
        ]
    line (some (c ∷ p)) same e =
        let named : path ≡ c ∷ p = some-inj (sym same) in
        let opening : List Call = Call.fopen (c ∷ p) ∷ w.trace in
        let t : List Call = Call.gettimeofday ∷ opening in
        elim (Bool-cases (env.succeeds w.trace (Call.fopen (c ∷ p)))) [
          | inl opened ↦ elim (Bool-cases (env.succeeds opening Call.gettimeofday)) [
            | inl ok ↦
                rw (named, opened, ok)
                  (Returns-weaken
                    (print_line-files env level (record w { trace = t }) (c ∷ p)
                      (e ∙ ap some named))
                    λ r u now. ground (arith, now, opened))
            | inr failed ↦ rw (named, opened, failed) (returned (ground (arith, opened)))
          ]
          | inr unopened ↦ rw (named, unopened) (returned (ground (arith, unopened)))
        ]
