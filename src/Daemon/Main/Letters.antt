-- ===== src/Daemon/Main/Letters.antt =====
-- The options of main: what they make of the settings, and those that end it.
use mathlib.Core.List.{append-nil}
use serial_proxy_c.Prelude.{
  subst, ℕ, ◌≡◌, refl, true, Option, none, some, List, [], ◌∷◌, ◌++◌, All, arith,
}
use serial_proxy_c.Prelude.Text.{codes}
use serial_proxy_c.Machine.Types.{Server, Call, Env, World}
use serial_proxy_c.Machine.Monad.{exited, done}
use serial_proxy_c.Config.Settings.Load.{HasMemory}
use serial_proxy_c.Daemon.Start.{server_init_config, default_server}
use serial_proxy_c.Daemon.Events.{Event}
use serial_proxy_c.Daemon.Main.{Letter, take_letter, take_letters, start, main, version, usage}

-- The status with which an option ends the process, and what it prints first.
abbrev pub status : Letter → Option (ℕ × Call)
status (Letter.config_file path) = none
status Letter.background = none
status Letter.version_wanted = some (0, Call.print_version)
status Letter.other = some (1, Call.print_usage)

-- An option that only says how to run.
abbrev pub IsPlain : Letter → Type 0
IsPlain o = status o ≡ none

-- What one option says.
unfoldable pub chosen_one : Letter → Server → Server
chosen_one (Letter.config_file path) s = record s { configfile = some path }
chosen_one Letter.background s = record s { daemonize = true }
chosen_one _ s = s

-- The settings after all options, the last of a kind counts.
unfoldable pub chosen : List Letter → Server → Server
chosen [] s = s
chosen (o ∷ os) s = chosen os (chosen_one o s)

-- The settings that serverInitConfig starts from.
abbrev pub first_settings : Server
first_settings = record default_server { serial_configfile = some (codes "serial.ini") }

module _ (env : Env) (memory : HasMemory env) where
  take_letter-chosen :
      (o : Letter) (w : World)
      → IsPlain o
      → (t : List Call) × (take_letter env o w
          ≡ done tt (record w { server = chosen_one o w.server; trace = t }))
  unfolding take_letter chosen_one
  take_letter-chosen (Letter.config_file path) w plain =
      (Call.strdup ∷ w.trace, rw (memory w.trace))
  take_letter-chosen Letter.background w plain = (w.trace, refl)
  take_letter-chosen Letter.version_wanted w plain = cc
  take_letter-chosen Letter.other w plain = cc

  -- Options that only say how to run are taken in order, and what follows them with their settings.
  pub take_letters-chosen :
      (os rest : List Letter) (w : World)
      → All IsPlain os
      → (t : List Call) × (take_letters env (os ++ rest) w
          ≡ take_letters env rest (record w { server = chosen os w.server; trace = t }))
  unfolding take_letters chosen
  take_letters-chosen [] rest w plain = (w.trace, refl)
  take_letters-chosen (o ∷ os) rest w (plain, more) =
      let (t, eq) = take_letter-chosen o w plain in
      let w1 : World = record w { server = chosen_one o w.server; trace = t } in
      let (t', eq') = take_letters-chosen os rest w1 more in (t', rw eq eq')

  pub take_all-chosen :
      (os : List Letter) (w : World)
      → All IsPlain os
      → (t : List Call) × (take_letters env os w
          ≡ done tt (record w { server = chosen os w.server; trace = t }))
  unfolding take_letters
  take_all-chosen os w plain =
      let (t, eq) = take_letters-chosen os [] w plain in
      (
        t,
        subst
            (λ xs.
              take_letters env xs w ≡ done tt (record w { server = chosen os w.server; trace = t }))
            (append-nil os) eq,
      )

  pub server_init_config_lem :
      (w : World)
      → (t : List Call) × (server_init_config env w
          ≡ done tt (record w { server = first_settings; trace = t }))
  unfolding server_init_config
  server_init_config_lem w = (
    Call.strdup ∷ Call.create_event_loop 1000 ∷ w.trace,
    rw (memory (Call.create_event_loop 1000 ∷ w.trace)),
  )

  last_letter :
      (o : Letter) (n : ℕ) (c : Call) (rest : List Letter) (w : World)
      → status o ≡ some (n, c)
      → take_letters env (o ∷ rest) w ≡ exited n (record w { trace = c ∷ w.trace })
  unfolding take_letters take_letter version usage
  last_letter (Letter.config_file path) n c rest w e = cc
  last_letter Letter.background n c rest w e = cc
  last_letter Letter.version_wanted n c rest w e = ground arith
  last_letter Letter.other n c rest w e = ground arith

  -- With memory, the first option that is neither `-c` nor `-d` ends main, whatever options precede
  -- and follow it: `-v` prints the version and exits with status 0, `-h` and unknown options print
  -- the usage and exit with status 1. That call is the last one, the settings are the first ones with
  -- the options before it, and no node or link has changed.
  pub main-letter :
      (os rest : List Letter) (o : Letter) (n : ℕ) (c : Call) (es : List Event) (w : World)
      → All IsPlain os
      → status o ≡ some (n, c)
      → (t : List Call) × (main env (os ++ (o ∷ rest)) es w
          ≡ exited n (record w { server = chosen os first_settings; trace = c ∷ t }))
  unfolding main start
  main-letter os rest o n c es w plain ends =
      let (t, eq) = server_init_config_lem w in
      let (t', eq') =
        take_letters-chosen os (o ∷ rest) (record w { server = first_settings; trace = t }) plain in
      (
        t',
        rw (
          eq,
          eq',
          last_letter o n c rest (record w { server = chosen os first_settings; trace = t' }) ends,
        ),
      )
