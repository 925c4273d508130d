-- ===== src/Config/Settings/Load.antt =====
-- What the file of server settings makes of the server.
use serial_proxy_c.Prelude.{
  ℕ, ◌<◌, ◌≡◌, refl, Bool, true, false, Option, none, some, List, [], ◌∷◌, arith, if◌then◌else◌,
  ◌∙◌, ap, All,
}
use serial_proxy_c.Prelude.Int.{ℤ, pos, negsuc, clamp}
use serial_proxy_c.Prelude.Text.{Text, atoi}
use serial_proxy_c.Machine.Types.{Server, Call, Entry, Env, World}
use serial_proxy_c.Machine.Monad.{done, to_int}
use serial_proxy_c.Machine.Returns.{Returns}
use serial_proxy_c.Config.Settings.{
  config_min_hz, config_max_hz, config_min_reconnect_interval_ms, config_max_reconnect_interval_ms,
  yes_no_to_int, get_log_level, Setting, setting_of, apply_setting, server_config_handler,
  hand_over,
}

-- A number that an `int` holds.
abbrev pub IsInt : ℤ → Type 0
IsInt (pos n) = n < 2_147_483_648
IsInt (negsuc n) = n < 2_147_483_648

pub to_int_lem : (z : ℤ) (w : World) → IsInt z → to_int z w ≡ done z w
to_int_lem (pos n) w h = ground arith
to_int_lem (negsuc n) w h = ground arith

-- `strdup` never fails.
abbrev pub HasMemory : Env → Type 0
HasMemory env = (h : List Call) → env.succeeds h Call.strdup ≡ true

-- A value that is read as a number is one that an `int` holds.
abbrev IsReadable : Setting → Text → Type 0
IsReadable Setting.hz value = IsInt (atoi value)
IsReadable Setting.reconnect_interval value = IsInt (atoi value)
IsReadable _ value = Unit

-- What one setting makes of the server.
unfoldable pub configured : Setting → Text → Server → Server
configured Setting.logfile value s = record s { logfile = some value }
configured Setting.syslog_enabled value s = record s { syslog = yes_no_to_int value }
configured Setting.loglevel value s = record s { verbosity = get_log_level (some value) }
configured Setting.hz value s = record s { hz = clamp config_min_hz config_max_hz (atoi value) }
configured Setting.reconnect_interval value s = record s {
  reconnect_interval =
      clamp config_min_reconnect_interval_ms config_max_reconnect_interval_ms (atoi value);
}
configured Setting.pidfile value s = record s { pidfile = some value }
configured Setting.serial_configfile value s = record s { serial_configfile = some value }
configured Setting.unknown value s = s

abbrev is_known : Setting → Bool
is_known Setting.unknown = false
is_known _ = true

module _ (env : Env) (memory : HasMemory env) where
  apply_setting-configured :
      (key : Setting) (value : Text) (w : World)
      → IsReadable key value
      → (t : List Call) × (apply_setting env key value w
          ≡ done (is_known key) (record w { server = configured key value w.server; trace = t }))
  unfolding apply_setting configured
  apply_setting-configured Setting.logfile value w h = (Call.strdup ∷ w.trace, rw (memory w.trace))
  apply_setting-configured Setting.syslog_enabled value w h = (w.trace, refl)
  apply_setting-configured Setting.loglevel value w h = (w.trace, refl)
  apply_setting-configured Setting.hz value w h = (w.trace, rw (to_int_lem (atoi value) w h))
  apply_setting-configured Setting.reconnect_interval value w h =
      (w.trace, rw (to_int_lem (atoi value) w h))
  apply_setting-configured Setting.pidfile value w h = (Call.strdup ∷ w.trace, rw (memory w.trace))
  apply_setting-configured Setting.serial_configfile value w h =
      (Call.strdup ∷ w.trace, rw (memory w.trace))
  apply_setting-configured Setting.unknown value w h = (w.trace, refl)

-- All settings of a file, in order.
unfoldable pub settled : List Entry → Server → Server
settled [] s = s
settled (e ∷ es) s = settled es (configured (setting_of e) e.value s)

-- Every number of the file is one that an `int` holds.
abbrev pub IsReadableFile : List Entry → Type 0
IsReadableFile es = All (λ e. IsReadable (setting_of e) e.value) es

-- What a later entry says, or else an earlier one that passed the test.
abbrev pub later : Option Text → Bool → Text → Option Text
later (some v) fits value = some v
later none true value = some value
later none false value = none

-- The value of the last entry whose key passes a test.
unfoldable pub last_value : (Setting → Bool) → List Entry → Option Text
last_value test [] = none
last_value test (e ∷ es) = later (last_value test es) (test (setting_of e)) e.value

abbrev pub value_or : {A : Type 0} → (Text → A) → Option Text → A → A
value_or f none old = old
value_or f (some v) old = f v

value_or-later :
    {A : Type 0} (f : Text → A) (rest : Option Text) (fits : Bool) (value : Text) (new old : A)
    → new ≡ (if fits then f value else old)
    → value_or f rest new ≡ value_or f (later rest fits value) old
value_or-later f (some v) fits value new old e = refl
value_or-later f none true value new old e = e
value_or-later f none false value new old e = e

-- A field that one key alone sets has the value of the last entry with that key.
settled_field :
    {A : Type 0} (field : Server → A) (test : Setting → Bool) (f : Text → A)
    → ((key : Setting) (v : Text) (s : Server)
        → field (configured key v s) ≡ (if test key then f v else field s))
    → (es : List Entry) (s : Server)
    → field (settled es s) ≡ value_or f (last_value test es) (field s)
unfolding settled last_value
settled_field field test f one [] s = refl
settled_field field test f one (e ∷ es) s =
    settled_field field test f one es (configured (setting_of e) e.value s)
    ∙ value_or-later f (last_value test es) (test (setting_of e)) e.value _ (field s)
        (one (setting_of e) e.value s)

module _ (env : Env) (memory : HasMemory env) where
  pub hand_over-settled :
      (es : List Entry) (w : World)
      → IsReadableFile es
      → (t : List Call) × (hand_over (server_config_handler env) es w
          ≡ done tt (record w { server = settled es w.server; trace = t }))
  unfolding hand_over settled server_config_handler
  hand_over-settled [] w h = (w.trace, refl)
  hand_over-settled (e ∷ es) w (h, hs) =
      let (t, eq) = apply_setting-configured env memory (setting_of e) e.value w h in
      let w1 : World = record w {
        server = configured (setting_of e) e.value w.server;
        trace = t;
      } in
      let (t', eq') = hand_over-settled es w1 hs in (t', rw eq eq')

abbrev pub is_hz : Setting → Bool
is_hz Setting.hz = true
is_hz _ = false

abbrev pub is_interval : Setting → Bool
is_interval Setting.reconnect_interval = true
is_interval _ = false

abbrev pub is_loglevel : Setting → Bool
is_loglevel Setting.loglevel = true
is_loglevel _ = false

abbrev pub hz_from : Text → ℕ
hz_from v = clamp config_min_hz config_max_hz (atoi v)

abbrev pub interval_from : Text → ℕ
interval_from v = clamp config_min_reconnect_interval_ms config_max_reconnect_interval_ms (atoi v)

pub hz_one :
    (key : Setting) (v : Text) (s : Server)
    → (configured key v s).hz ≡ (if is_hz key then hz_from v else s.hz)
unfolding configured
hz_one Setting.logfile v s = refl
hz_one _ v s = refl

pub interval_one :
    (key : Setting) (v : Text) (s : Server)
    → (configured key v s).reconnect_interval
      ≡ (if is_interval key then interval_from v else s.reconnect_interval)
unfolding configured
interval_one Setting.logfile v s = refl
interval_one _ v s = refl

-- What no key of the file sets.
abbrev pub state_of : Server → Option ℕ × Bool × ℕ × ℤ × Bool × ℕ × Option Text
state_of s = (
  s.master_head, s.shutdown, s.cronloops, s.cron_event_id, s.daemonize, s.maxclients, s.configfile,
)

abbrev pub is_pidfile : Setting → Bool
is_pidfile Setting.pidfile = true
is_pidfile _ = false

pidfile_one :
    (key : Setting) (v : Text) (s : Server)
    → (configured key v s).pidfile ≡ (if is_pidfile key then some v else s.pidfile)
unfolding configured
pidfile_one Setting.logfile v s = refl
pidfile_one _ v s = refl

-- The PID file that the last entry for it names.
pub settled-pidfile :
    (es : List Entry) (s : Server) (name : Text)
    → last_value is_pidfile es ≡ some name
    → (settled es s).pidfile ≡ some name
settled-pidfile es s name said =
    settled_field (λ s. s.pidfile) is_pidfile (λ v. some v) pidfile_one es s
    ∙ ap (λ o. value_or (λ v. some v) o s.pidfile) said
