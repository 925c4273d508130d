-- ===== src/Tests/Main.antt =====
-- The theorems on main, with a file of settings that sets a log file, and the file of one device.
use serial_proxy_c.Prelude.{◌≡◌, refl, some, List, [], ◌∷◌, ◌++◌, arith, inr, All}
use serial_proxy_c.Prelude.Int.{pos, ◌/ℤ◌}
use serial_proxy_c.Prelude.Text.{
  Text, text_eq, codes, case_eq, atoi, signed_value, digits_value, tokens, tokens_from,
}
use serial_proxy_c.Config.Devices.{key_of}
use serial_proxy_c.Config.Devices.Load.{IsUsable}
use serial_proxy_c.Config.Devices.Refine.{IsSoundEntry}
use serial_proxy_c.Config.Devices.Abstract.{devices_of}
use serial_proxy_c.Config.Devices.Shows.{Shows}
use serial_proxy_c.Machine.Types.{Call, Entry, Env}
use serial_proxy_c.Machine.Monad.{exited}
use serial_proxy_c.Machine.Returns.{Returns}
use serial_proxy_c.Config.Settings.{setting_of}
use serial_proxy_c.Config.Settings.Load.{IsReadableFile, settled, configured}
use serial_proxy_c.Serial.Device.Configure.{HasSpeed}
use serial_proxy_c.Daemon.Start.{is_ae_err}
use serial_proxy_c.Daemon.Events.Run.{IsRunning}
use serial_proxy_c.Daemon.Main.{Letter, start, main, is_child}
use serial_proxy_c.Daemon.Main.Letters.{chosen, chosen_one, first_settings, main-letter}
use serial_proxy_c.Daemon.Main.Starts.{start-IsRunning, start-Shows}
use serial_proxy_c.Tests.Running.{file, file_env, empty_world, said_devices}

abbrev log_file : List Entry
log_file =
    record { section = codes "logging"; name = codes "logfile"; value = codes "log" }
    ∷ record { section = codes "system"; name = codes "pidfile"; value = codes "pid" }
    ∷ []

-- The file of settings has the empty path.
abbrev entries_of : Text → List Entry
entries_of [] = log_file
entries_of (c ∷ cs) = file

abbrev pub main_env : Env
main_env = record file_env { ini_entries = λ path. some (entries_of path) }

abbrev pub letters : List Letter
letters = Letter.background ∷ Letter.config_file [] ∷ []

log_file-IsReadable : IsReadableFile log_file
unfolding setting_of case_eq
log_file-IsReadable = omega arith

main_speed : HasSpeed main_env (pos 9600)
unfolding ◌/ℤ◌
main_speed = inr (refl, λ h d. omega arith)

main-IsUsable : All (IsUsable main_env) file
unfolding ◌/ℤ◌ key_of case_eq atoi signed_value digits_value tokens tokens_from
main-IsUsable = (
  (omega arith, inr (refl, λ h d. omega arith)),
  ((omega arith, (omega arith, tt)), (omega arith, (tt, tt))),
)

start-IsRunning_example :
    Returns (λ r. IsRunning main_env (codes "log")) (start main_env letters empty_world)
unfolding chosen chosen_one settled configured setting_of case_eq is_child is_ae_err
start-IsRunning_example =
    start-IsRunning main_env (codes "log") (λ h. refl) (λ h. refl) main_speed letters []
      (codes "serial.ini") log_file file (refl, (refl, tt)) refl refl log_file-IsReadable refl refl
      refl main-IsUsable (λ h. refl) (λ h. refl) (λ h. refl) empty_world
      (record { no_nodes = λ p. refl; no_links = λ l. refl })

main-IsSound : All (IsSoundEntry main_env) file
main-IsSound =
    let (one, (two, (three, (four, none_left)))) = main-IsUsable in
    ((one, omega arith), ((two, omega arith), ((three, omega arith), ((four, omega arith), tt))))

start-Shows_example :
    Returns
      (λ r u. IsRunning main_env (codes "log") u × Shows said_devices u)
      (start main_env letters empty_world)
unfolding chosen chosen_one settled configured setting_of case_eq is_child is_ae_err devices_of
    key_of atoi signed_value digits_value tokens tokens_from text_eq
start-Shows_example =
    start-Shows main_env (codes "log") (λ h. refl) (λ h. refl) main_speed letters []
      (codes "serial.ini") log_file file (refl, (refl, tt)) refl refl log_file-IsReadable refl refl
      refl main-IsSound (λ h. refl) (λ h. refl) (λ h. refl) empty_world
      (record { no_nodes = λ p. refl; no_links = λ l. refl })

-- The same as the first, for the theorems that it leads to.
pub main-starts :
    Returns (λ r. IsRunning main_env (codes "log")) (start main_env letters empty_world)
unfolding chosen chosen_one settled configured setting_of case_eq is_child is_ae_err
main-starts =
    start-IsRunning main_env (codes "log") (λ h. refl) (λ h. refl) main_speed letters []
      (codes "serial.ini") log_file file (refl, (refl, tt)) refl refl log_file-IsReadable refl refl
      refl main-IsUsable (λ h. refl) (λ h. refl) (λ h. refl) empty_world
      (record { no_nodes = λ p. refl; no_links = λ l. refl })

main-letter_example :
    (t : List Call) × (main main_env
        (letters ++ (Letter.version_wanted ∷ Letter.other ∷ []))
        []
        empty_world
      ≡ exited 0 (record empty_world {
        server = chosen letters first_settings;
        trace = Call.print_version ∷ t;
      }))
main-letter_example =
    main-letter main_env (λ h. refl) letters (Letter.other ∷ []) Letter.version_wanted 0
      Call.print_version [] empty_world (refl, (refl, tt)) refl
