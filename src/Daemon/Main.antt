-- ===== src/Daemon/Main.antt =====
-- main in src/server.c: the options, the way into the background, and the life of the daemon.
pub mod Letters
pub mod Boot
pub mod Starts
pub mod Ends
use serial_proxy_c.Prelude.{
  ℕ, Bool, true, false, Option, none, some, List, [], ◌∷◌, ◌==◌, ltb, if◌then◌else◌, is_some,
}
use serial_proxy_c.Prelude.Int.{ℤ, pos, negsuc}
use serial_proxy_c.Prelude.Text.{Text, codes}
use serial_proxy_c.Machine.Types.{Call, Env}
use serial_proxy_c.Machine.Monad.{M, pure, exit, ◌>>=◌, ◌>>◌, skip, gets, when, note, perform}
use serial_proxy_c.Log.{ll_info, server_log}
use serial_proxy_c.Config.Settings.{change_server, server_load_config}
use serial_proxy_c.Daemon.Start.{server_init_config, server_init, server_term, create_pid_file}
use serial_proxy_c.Daemon.Events.{Event, occur}

-- What `getopt` returns, one after the other: `-c` with its argument, `-d`, `-v`, or another letter
-- (`-h`, and `?` for an option that it does not know).
pub data Letter : Type 0 where
  config_file : Text → Letter
  background version_wanted other : Letter

unfoldable pub version : M (Unit {0})
version = do note Call.print_version; exit 0

unfoldable pub usage : M (Unit {0})
usage = do note Call.print_usage; exit 1

-- A copy of the path, or NULL: the result of `strdup` is not tested.
unfoldable pub take_letter : Env → Letter → M (Unit {0})
unfolding version usage
take_letter env (Letter.config_file path) = do
  copied ← perform env Call.strdup
  change_server (λ s. record s { configfile = if copied then some path else none })
take_letter env Letter.background = change_server (λ s. record s { daemonize = true })
take_letter env Letter.version_wanted = version
take_letter env Letter.other = usage

unfoldable pub take_letters : Env → List Letter → M (Unit {0})
take_letters env [] = skip
take_letters env (o ∷ os) = do take_letter env o; take_letters env os

unfoldable pub is_child : ℤ → Bool
is_child (pos n) = n == 0
is_child (negsuc n) = false

-- Standard input, output and error become `/dev/null`.
detach : ℕ → M (Unit {0})
detach fd = do
  note (Call.dup2 fd 0)
  note (Call.dup2 fd 1)
  note (Call.dup2 fd 2)
  when (ltb 2 fd) (note (Call.close fd))

-- Any result of `fork` but 0, so also -1, ends the process.
unfoldable pub daemonize : Env → M (Unit {0})
unfolding is_child detach
daemonize env = do
  h ← gets (λ w. w.trace)
  note Call.fork
  if is_child (env.forked h) then skip else exit 0
  note Call.setsid
  h ← gets (λ w. w.trace)
  opened ← perform env (Call.open_path (codes "/dev/null"))
  when opened (detach (env.descriptor h (Call.open_path (codes "/dev/null"))))

-- `if (server.daemonize) { daemonize(); if (server.pidfile) { createPidFile(); } }`
unfoldable pub go_background : Env → M (Unit {0})
unfolding daemonize
go_background env = do
  wanted ← gets (λ w. w.server.daemonize)
  when wanted (do
    daemonize env
    given ← gets (λ w. w.server.pidfile)
    when (is_some given) (create_pid_file env))

-- From the first line of main to the event loop.
unfoldable pub start : Env → List Letter → M (Unit {0})
unfolding take_letters go_background
start env os = do
  server_init_config env
  take_letters env os
  path ← gets (λ w. w.server.configfile)
  server_load_config env path
  go_background env
  server_init env
  server_log env ll_info
  note Call.set_before_sleep

-- What the event loop calls until it is stopped.
unfoldable pub ae_main : Env → List Event → M (Unit {0})
ae_main env [] = skip
ae_main env (e ∷ es) = do occur env e; ae_main env es

-- The exit status. The events are those that the event loop dispatches until it is stopped.
unfoldable pub main : Env → List Letter → List Event → M ℕ
unfolding start ae_main
main env os es = do
  start env os
  ae_main env es
  server_term env
  note Call.delete_event_loop
  pure 0
