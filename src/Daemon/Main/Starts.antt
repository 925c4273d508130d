-- ===== src/Daemon/Main/Starts.antt =====
-- main up to the event loop: from the options and the two files to a running daemon.
use serial_proxy_c.Prelude.{◌≡◌, refl, true, false, some, List, [], All}
use serial_proxy_c.Prelude.Int.{pos}
use serial_proxy_c.Prelude.Text.{Text}
use serial_proxy_c.Machine.Types.{Call, Entry, Env, World}
use serial_proxy_c.Machine.Returns.{Returns, Returns-weaken}
use serial_proxy_c.Serial.Device.Configure.{HasSpeed}
use serial_proxy_c.Config.Settings.Load.{HasMemory, IsReadableFile, settled}
use serial_proxy_c.Config.Devices.Load.{IsUsable}
use serial_proxy_c.Config.Devices.Refine.{IsSoundEntry}
use serial_proxy_c.Config.Devices.Abstract.{devices_of}
use serial_proxy_c.Config.Devices.Shows.{Shows}
use serial_proxy_c.Config.Devices.Stays.{Shows-same}
use serial_proxy_c.Daemon.Start.{is_ae_err}
use serial_proxy_c.Daemon.Start.Init.{IsBlank, server_init-IsRunning, server_init-Shows}
use serial_proxy_c.Daemon.Events.Run.{IsRunning}
use serial_proxy_c.Daemon.Main.{Letter, is_child, start}
use serial_proxy_c.Daemon.Main.Letters.{IsPlain, chosen, first_settings}
use serial_proxy_c.Daemon.Main.Boot.{start-loads}

module _ (env : Env) (path : Text) (memory : (h : List Call) → env.succeeds h Call.calloc ≡ true)
    (copies : HasMemory env) (default : HasSpeed env (pos 9600)) where
  -- main reaches the event loop with a running daemon, if no option ends it, an option names a file
  -- of settings that can be opened, whose numbers fit an `int`, and that sets a log file, the file
  -- of devices can be opened and its entries are usable, `fork` returns as in the child, signals and
  -- the timer can be registered, memory does not run out, the default speed can be set, and nothing
  -- is allocated yet.
  pub start-IsRunning :
      (os : List Letter) (conf filename : Text) (settings : List Entry) (devices : List Entry)
      → All IsPlain os
      → (chosen os first_settings).configfile ≡ some conf
      → env.ini_entries conf ≡ some settings
      → IsReadableFile settings
      → (settled settings (chosen os first_settings)).logfile ≡ some path
      → (settled settings (chosen os first_settings)).serial_configfile ≡ some filename
      → env.ini_entries filename ≡ some devices
      → All (IsUsable env) devices
      → ((h : List Call) → is_child (env.forked h) ≡ true)
      → ((h : List Call) → env.succeeds h Call.sigaction ≡ true)
      → ((h : List Call) → is_ae_err (env.time_event_id h) ≡ false)
      → (w : World) → IsBlank w
      → Returns (λ r. IsRunning env path) (start env os w)
  start-IsRunning os conf filename settings devices plain named opened readable logs lists found
        usable forks signals timer w blank =
      Returns-weaken
        (start-loads env path copies (λ u. Unit) (λ u t holds. tt) os conf filename settings plain
          named opened readable logs lists forks
          (λ v blank' set given limits.
            Returns-weaken
              (server_init-IsRunning env path memory copies default filename devices found usable
                signals timer v blank' set given limits)
              λ r u run. (run, tt))
          w blank)
        λ r u (run, nothing). run

  -- main reaches the event loop with a running daemon whose nodes stand for the devices that the file
  -- of devices says, in order, with their names, baud rates and virtuals, and the writers marked. No option ends it, an option
  -- names a file of settings that can be opened, whose numbers fit an `int`, and that sets a log
  -- file, the file of devices can be opened and its entries are usable, with names of sections that
  -- fit those of nodes, `fork` returns as in the child, signals and the timer can be registered,
  -- memory does not run out, the default speed can be set, and nothing is allocated yet.
  pub start-Shows :
      (os : List Letter) (conf filename : Text) (settings : List Entry) (devices : List Entry)
      → All IsPlain os
      → (chosen os first_settings).configfile ≡ some conf
      → env.ini_entries conf ≡ some settings
      → IsReadableFile settings
      → (settled settings (chosen os first_settings)).logfile ≡ some path
      → (settled settings (chosen os first_settings)).serial_configfile ≡ some filename
      → env.ini_entries filename ≡ some devices
      → All (IsSoundEntry env) devices
      → ((h : List Call) → is_child (env.forked h) ≡ true)
      → ((h : List Call) → env.succeeds h Call.sigaction ≡ true)
      → ((h : List Call) → is_ae_err (env.time_event_id h) ≡ false)
      → (w : World) → IsBlank w
      → Returns (λ r u. IsRunning env path u × Shows (devices_of devices []) u) (start env os w)
  start-Shows os conf filename settings devices plain named opened readable logs lists found sound
        forks signals timer w blank =
      start-loads env path copies (Shows (devices_of devices []))
        (λ u t shown.
          Shows-same u (record u { trace = t }) (λ p. refl) (devices_of devices []) refl shown)
        os conf filename settings plain named opened readable logs lists forks
        (λ v blank' set given limits.
          server_init-Shows env path memory copies default filename devices found sound signals
            timer v blank' set given limits)
        w blank
