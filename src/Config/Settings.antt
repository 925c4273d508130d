-- ===== src/Config/Settings.antt =====
-- The file of server settings: _serverConfigHandler and serverLoadConfig of src/config.c, with the
-- limits of src/server.h.
pub mod Load
pub mod Limits
pub mod Levels
use serial_proxy_c.Prelude.{
  ℕ, Bool, true, false, ◌&&◌, Option, none, some, List, [], ◌∷◌, if◌then◌else◌,
}
use serial_proxy_c.Prelude.Int.{ℤ, pos, negsuc, clamp}
use serial_proxy_c.Prelude.Text.{Text, codes, case_eq, atoi}
use serial_proxy_c.Machine.Types.{Server, Call, Entry, Env}
use serial_proxy_c.Machine.Monad.{
  M, pure, exit, ◌>>=◌, ◌>>◌, skip, gets, set_server, perform, to_int,
}
use serial_proxy_c.Log.{ll_debug, ll_info, ll_warn, ll_error}

abbrev pub config_min_hz : ℕ
config_min_hz = 1

abbrev pub config_max_hz : ℕ
config_max_hz = 500

abbrev pub config_min_reconnect_interval_ms : ℕ
config_min_reconnect_interval_ms = 1000

abbrev pub config_max_reconnect_interval_ms : ℕ
config_max_reconnect_interval_ms = 3_600_000

unfoldable pub yes_no_to_int : Text → ℤ
unfolding case_eq
yes_no_to_int s =
    if case_eq s (codes "yes") then pos 1 else if case_eq s (codes "no") then pos 0 else negsuc 0

-- `none` is NULL.
unfoldable pub get_log_level : Option Text → ℕ
unfolding case_eq
get_log_level none = ll_error
get_log_level (some name) =
    if case_eq name (codes "debug")
    then ll_debug
    else if case_eq name (codes "info")
    then ll_info
    else if case_eq name (codes "warn")
    then ll_warn
    else ll_error

-- `strdup`, with exit(1) where memory is short.
abbrev pub duplicate : Env → Text → M Text
duplicate env s = do granted ← perform env Call.strdup; if granted then pure s else exit 1

abbrev pub change_server : (Server → Server) → M (Unit {0})
change_server f = do s ← gets (λ w. w.server); set_server (f s)

abbrev set_logfile : Env → Text → M Bool
set_logfile env value = do
  path ← duplicate env value
  change_server (λ s. record s { logfile = some path })
  pure true

abbrev set_hz : Text → M Bool
set_hz value = do
  z ← to_int (atoi value)
  change_server (λ s. record s { hz = clamp config_min_hz config_max_hz z })
  pure true

abbrev set_reconnect_interval : Text → M Bool
set_reconnect_interval value = do
  z ← to_int (atoi value)
  change_server (λ s. record s {
    reconnect_interval = clamp config_min_reconnect_interval_ms config_max_reconnect_interval_ms z;
  })
  pure true

abbrev set_pidfile : Env → Text → M Bool
set_pidfile env value = do
  path ← duplicate env value
  change_server (λ s. record s { pidfile = some path })
  pure true

-- The old name is given back first.
abbrev set_serial_configfile : Env → Text → M Bool
set_serial_configfile env value = do
  change_server (λ s. record s { serial_configfile = none })
  path ← duplicate env value
  change_server (λ s. record s { serial_configfile = some path })
  pure true

-- The keys of the file.
pub data Setting : Type 0 where
  logfile syslog_enabled loglevel hz reconnect_interval pidfile serial_configfile unknown : Setting

abbrev is_key : Entry → Text → Text → Bool
is_key e section name = case_eq e.section section && case_eq e.name name

-- The chain of `MATCH` tests, which ignore case.
unfoldable pub setting_of : Entry → Setting
unfolding case_eq
setting_of e =
    if is_key e (codes "logging") (codes "logfile")
    then Setting.logfile
    else if is_key e (codes "logging") (codes "syslog-enabled")
    then Setting.syslog_enabled
    else if is_key e (codes "logging") (codes "loglevel")
    then Setting.loglevel
    else if is_key e (codes "system") (codes "hz")
    then Setting.hz
    else if is_key e (codes "system") (codes "reconnect-interval")
    then Setting.reconnect_interval
    else if is_key e (codes "system") (codes "pidfile")
    then Setting.pidfile
    else if is_key e (codes "system") (codes "serial-configfile")
    then Setting.serial_configfile
    else Setting.unknown

apply_setting : Env → Setting → Text → M Bool
apply_setting env Setting.logfile value = set_logfile env value
apply_setting env Setting.syslog_enabled value = do
  change_server (λ s. record s { syslog = yes_no_to_int value })
  pure true
apply_setting env Setting.loglevel value = do
  change_server (λ s. record s { verbosity = get_log_level (some value) })
  pure true
apply_setting env Setting.hz value = set_hz value
apply_setting env Setting.reconnect_interval value = set_reconnect_interval value
apply_setting env Setting.pidfile value = set_pidfile env value
apply_setting env Setting.serial_configfile value = set_serial_configfile env value
apply_setting env Setting.unknown value = pure false

-- True is the result 1.
unfoldable pub server_config_handler : Env → Entry → M Bool
unfolding apply_setting setting_of
server_config_handler env e = apply_setting env (setting_of e) e.value

-- The calls that `ini_parse` makes of its handler; what the handler answers does not stop them.
unfoldable pub hand_over : (Entry → M Bool) → List Entry → M (Unit {0})
hand_over handler [] = skip
hand_over handler (e ∷ es) = do handler e; hand_over handler es

-- `ini_parse(...) < 0` holds for a file that cannot be opened only.
abbrev pub parse_or_exit : (Entry → M Bool) → Option (List Entry) → M (Unit {0})
parse_or_exit handler none = exit 1
parse_or_exit handler (some es) = hand_over handler es

unfoldable pub server_load_config : Env → Option Text → M (Unit {0})
server_load_config env none = skip
server_load_config env (some filename) =
    parse_or_exit (server_config_handler env) (env.ini_entries filename)
