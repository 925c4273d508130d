-- ===== src/Daemon/Start.antt =====
-- The start and the end of the server in src/server.c: defaults, initialisation, PID file, shutdown.
pub mod PidFile
pub mod Init
use serial_proxy_c.Prelude.{Bool, true, false, ◌==◌, Option, none, some, if◌then◌else◌, is_some}
use serial_proxy_c.Prelude.Int.{ℤ, pos, negsuc}
use serial_proxy_c.Prelude.Text.{Text, codes}
use serial_proxy_c.Machine.Types.{Server, Call, Env}
use serial_proxy_c.Machine.Monad.{M, exit, ◌>>=◌, ◌>>◌, skip, gets, set_server, when, note, perform}
use serial_proxy_c.Log.{ll_warn, ll_error, server_log, server_log_errno}
use serial_proxy_c.Serial.Nodes.{set_master_head}
use serial_proxy_c.Serial.Upkeep.{reconnect, serial_term}
use serial_proxy_c.Config.Settings.{duplicate, change_server}
use serial_proxy_c.Config.Devices.{serial_load_config}

abbrev pub default_server : Server
default_server = record {
  pidfile = none;
  logfile = none;
  configfile = none;
  shutdown = false;
  daemonize = false;
  verbosity = ll_error;
  syslog = pos 0;
  maxclients = 1000;
  cronloops = 0;
  reconnect_interval = 5000;
  cron_event_id = negsuc 0;
  hz = 10;
  serial_configfile = none;
  master_head = none;
}

-- The event loop is created on the way; a failure of that is not handled.
unfoldable pub server_init_config : Env → M (Unit {0})
server_init_config env = do
  set_server default_server
  perform env (Call.create_event_loop 1000)
  path ← duplicate env (codes "serial.ini")
  change_server (λ s. record s { serial_configfile = some path })

unfoldable pub serial_init : Env → M (Unit {0})
serial_init env = do
  set_master_head none
  path ← gets (λ w. w.server.serial_configfile)
  serial_load_config env path
  reconnect env

-- Both signals are registered, or the process ends.
setup_signal_handlers : Env → M (Unit {0})
setup_signal_handlers env = do
  term ← perform env Call.sigaction
  if term
      then (do
        int ← perform env Call.sigaction
        if int then skip else (do server_log_errno env ll_error; exit 1))
      else (do server_log_errno env ll_error; exit 1)

unfoldable pub is_ae_err : ℤ → Bool
is_ae_err (pos n) = false
is_ae_err (negsuc n) = n == 0

unfoldable pub server_init : Env → M (Unit {0})
unfolding setup_signal_handlers is_ae_err
server_init env = do
  setup_signal_handlers env
  h ← gets (λ w. w.trace)
  note (Call.create_time_event 1)
  let id = env.time_event_id h
  change_server (λ s. record s { cron_event_id = id })
  if is_ae_err id then (do server_log env ll_error; exit 1) else serial_init env

unfoldable pub server_term : Env → M (Unit {0})
server_term env = do
  serial_term env
  change_server (λ s. record s {
    logfile = none;
    pidfile = none;
    configfile = none;
    serial_configfile = none;
  })
  id ← gets (λ w. w.server.cron_event_id)
  gone ← perform env (Call.delete_time_event id)
  when (if gone then false else true) (server_log env ll_warn)
  change_server (λ s. record s { cron_event_id = negsuc 0 })

write_pid_file : Env → Option Text → M (Unit {0})
write_pid_file env none = skip
write_pid_file env (some path) = do
  opened ← perform env (Call.fopen path)
  when opened (note (Call.write_pid path))

-- The name is replaced by a copy of the default one, or the process ends.
replace_pid_file : Env → M (Unit {0})
replace_pid_file env = do
  granted ← perform env Call.strdup
  change_server
      (λ s. record s { pidfile = if granted then some (codes "/var/run/sproxyd.pid") else none })
  if granted then skip else (do server_log env ll_error; exit 1)

-- `fopen(NULL)` fails.
unfoldable pub create_pid_file : Env → M (Unit {0})
unfolding write_pid_file replace_pid_file
create_pid_file env = do
  given ← gets (λ w. w.server.pidfile)
  when (is_some given) (replace_pid_file env)
  path ← gets (λ w. w.server.pidfile)
  write_pid_file env path
