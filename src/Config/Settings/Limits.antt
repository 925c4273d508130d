-- ===== src/Config/Settings/Limits.antt =====
-- The limits that the file of server settings cannot leave.
use serial_proxy_c.Prelude.{◌≤◌, List, [], ◌∷◌, arith}
use serial_proxy_c.Prelude.Int.{clamp_bounds}
use serial_proxy_c.Prelude.Text.{Text, atoi}
use serial_proxy_c.Machine.Types.{Server, Entry}
use serial_proxy_c.Machine.Returns.{Returns}
use serial_proxy_c.Config.Settings.{
  config_min_hz, config_max_hz, config_min_reconnect_interval_ms, config_max_reconnect_interval_ms,
  Setting, setting_of,
}
use serial_proxy_c.Config.Settings.Load.{configured, settled, hz_one, interval_one}

-- The limits of the settings that the timer divides by.
pub record IsWithinLimits (s : Server) : Type 0 where
  pub hz_low : 1 ≤ s.hz
  pub hz_high : s.hz ≤ 500
  pub interval_low : 1000 ≤ s.reconnect_interval
  pub interval_high : s.reconnect_interval ≤ 3_600_000

configured-IsWithinLimits :
    (key : Setting) (v : Text) (s : Server) → IsWithinLimits s → IsWithinLimits (configured key v s)
configured-IsWithinLimits key v s h = ground (
  arith,
  hz_one key v s,
  interval_one key v s,
  clamp_bounds config_min_hz config_max_hz (atoi v),
  clamp_bounds config_min_reconnect_interval_ms config_max_reconnect_interval_ms (atoi v),
)

pub settled-IsWithinLimits :
    (es : List Entry) (s : Server) → IsWithinLimits s → IsWithinLimits (settled es s)
unfolding settled
settled-IsWithinLimits [] s h = h
settled-IsWithinLimits (e ∷ es) s h =
    settled-IsWithinLimits es _ (configured-IsWithinLimits (setting_of e) e.value s h)
