-- ===== src/Log.antt =====
-- Logging: serverLogRaw, serverLog, serverLogErrno and serverLogLevel of src/server.c. The text of a
-- message is left out: what counts is whether a line is written, and what writing it takes.
pub mod Laws
pub mod Files
use serial_proxy_c.Prelude.{
  ℕ, ◌≡◌, Bool, true, false, not, Option, none, some, List, [], ◌∷◌, ltb, ◌==◌, if◌then◌else◌,
}
use serial_proxy_c.Prelude.Int.{is_nonzero}
use serial_proxy_c.Prelude.Text.{Text, codes}
use serial_proxy_c.Machine.Types.{Server, Call, Env, World, Fault}
use serial_proxy_c.Machine.Monad.{
  M, pure, undefined, ◌>>=◌, ◌>>◌, skip, gets, when, note, perform, done, and_then,
}

abbrev pub ll_debug : ℕ
ll_debug = 0

abbrev pub ll_info : ℕ
ll_info = 1

abbrev pub ll_warn : ℕ
ll_warn = 2

abbrev pub ll_error : ℕ
ll_error = 3

-- `fp = !server.logfile[0] ? stdout : fopen(server.logfile, "a")`: whether `fp` is not NULL.
open_log : Env → Option Text → M Bool
open_log env none = undefined Fault.null_pointer
open_log env (some []) = pure true
open_log env (some (c ∷ path)) = perform env (Call.fopen (c ∷ path))

-- `if (server.logfile[0]) fclose(fp)`.
close_log : Option Text → M (Unit {0})
close_log none = undefined Fault.null_pointer
close_log (some []) = skip
close_log (some (c ∷ path)) = note (Call.fclose (c ∷ path))

-- The line is formatted, printed and flushed by `note (Call.log_line level)`.
print_line : Env → ℕ → M (Unit {0})
unfolding close_log
print_line env level = do
  note (Call.log_line level)
  path ← gets (λ w. w.server.logfile)
  close_log path
  on ← gets (λ w. is_nonzero w.server.syslog)
  when on (note (Call.syslog_line level))

-- What follows the opening of the log; without the time the file stays open.
print_opened : Env → ℕ → Bool → M (Unit {0})
unfolding print_line
print_opened env level opened =
    when opened (do clock ← perform env Call.gettimeofday; when clock (print_line env level))

pub server_log_raw : Env → ℕ → M (Unit {0})
unfolding open_log print_opened
server_log_raw env level = do
  low ← gets (λ w. ltb level w.server.verbosity)
  when (not low) (do
    path ← gets (λ w. w.server.logfile)
    opened ← open_log env path
    print_opened env level opened)

pub server_log : Env → ℕ → M (Unit {0})
server_log env level = do
  low ← gets (λ w. ltb level w.server.verbosity)
  when (not low) (server_log_raw env level)

pub server_log_errno : Env → ℕ → M (Unit {0})
server_log_errno env level = do
  low ← gets (λ w. ltb level w.server.verbosity)
  when (not low) (server_log env level)

-- `none` is NULL.
unfoldable pub server_log_level : ℕ → Option Text
server_log_level level =
    if level == ll_debug
    then some (codes "debug")
    else if level == ll_info
    then some (codes "info")
    else if level == ll_warn
    then some (codes "warn")
    else if level == ll_error
    then some (codes "error")
    else none
