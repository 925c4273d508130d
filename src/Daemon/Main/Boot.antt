-- ===== src/Daemon/Main/Boot.antt =====
-- main up to serverInit: from the options and the file of settings to the daemon's settings.
use serial_proxy_c.Prelude.{
  ℕ, Bool, ◌≡◌, refl, ap, inl, inr, true, false, Option, none, some, List, [], ◌∷◌, All, arith,
  Bool-cases, Option-cases, ltb, is_some,
}
use serial_proxy_c.Prelude.Text.{Text, codes}
use serial_proxy_c.Machine.Types.{Server, Call, Entry, Env, World}
use serial_proxy_c.Machine.Monad.{done, ◌>>◌, note}
use serial_proxy_c.Machine.Memory.{when-true, when-false}
use serial_proxy_c.Machine.Returns.{Returns, returned, Returns-and_then}
use serial_proxy_c.Log.{ll_info, server_log}
use serial_proxy_c.Log.Laws.{server_log-Logs}
use serial_proxy_c.Config.Settings.{server_load_config, server_config_handler, hand_over}
use serial_proxy_c.Config.Settings.Load.{HasMemory, IsReadableFile, settled, hand_over-settled}
use serial_proxy_c.Config.Settings.Limits.{IsWithinLimits, settled-IsWithinLimits}
use serial_proxy_c.Daemon.Start.{server_init}
use serial_proxy_c.Serial.Link.Descriptors.{open_fds-OnlyLog}
use serial_proxy_c.Serial.Sound.{Goes-trace}
use serial_proxy_c.Daemon.Start.Init.{IsBlank}
use serial_proxy_c.Daemon.Start.PidFile.{create_pid_file_lem, default_pid_file}
use serial_proxy_c.Daemon.Events.Run.{IsRunning, IsRunning-Goes}
use serial_proxy_c.Daemon.Main.{
  Letter, is_child, detach, daemonize, go_background, take_letters, start,
}
use serial_proxy_c.Daemon.Main.Letters.{
  IsPlain, chosen, chosen_one, first_settings, take_all-chosen, server_init_config_lem,
}

-- All options keep the limits of the timer.
chosen-IsWithinLimits :
    (os : List Letter) (s : Server) → IsWithinLimits s → IsWithinLimits (chosen os s)
unfolding chosen chosen_one
chosen-IsWithinLimits [] s limits = limits
chosen-IsWithinLimits (Letter.config_file path ∷ os) s limits =
    chosen-IsWithinLimits os (chosen_one (Letter.config_file path) s) (ground (arith, limits))
chosen-IsWithinLimits (Letter.background ∷ os) s limits =
    chosen-IsWithinLimits os (chosen_one Letter.background s) (ground (arith, limits))
chosen-IsWithinLimits (Letter.version_wanted ∷ os) s limits =
    chosen-IsWithinLimits os (chosen_one Letter.version_wanted s) (ground (arith, limits))
chosen-IsWithinLimits (Letter.other ∷ os) s limits =
    chosen-IsWithinLimits os (chosen_one Letter.other s) (ground (arith, limits))

-- Only the name of the PID file and the calls made differ.
module _ (env : Env) (memory : HasMemory env)
    (forks : (h : List Call) → is_child (env.forked h) ≡ true) where
  detach_lem :
      (fd : ℕ) (w : World) → (t : List Call) × (detach fd w ≡ done tt (record w { trace = t }))
  unfolding detach
  detach_lem fd w = elim (Bool-cases (ltb 2 fd)) [
    | inl above ↦
        (Call.close fd ∷ Call.dup2 fd 2 ∷ Call.dup2 fd 1 ∷ Call.dup2 fd 0 ∷ w.trace, rw above)
    | inr low ↦ (Call.dup2 fd 2 ∷ Call.dup2 fd 1 ∷ Call.dup2 fd 0 ∷ w.trace, rw low)
  ]

  daemonize_lem :
      (w : World) → (t : List Call) × (daemonize env w ≡ done tt (record w { trace = t }))
  unfolding daemonize
  daemonize_lem w =
      let h : List Call = Call.setsid ∷ Call.fork ∷ w.trace in
      let path = Call.open_path (codes "/dev/null") in
      elim (Bool-cases (env.succeeds h path)) [
        | inl opened ↦
            let (t, eq) = detach_lem (env.descriptor h path) (record w { trace = path ∷ h }) in
            (t, rw (forks w.trace, opened, eq))
        | inr failed ↦ (path ∷ h, rw (forks w.trace, failed))
      ]

  background_lem :
      (w : World) (wanted : Bool)
      → w.server.daemonize ≡ wanted
      → (pid : Option Text) × (t : List Call) × (go_background env w
          ≡ done tt (record w { server = record w.server { pidfile = pid }; trace = t }))
  unfolding go_background
  background_lem w false unwanted =
      (w.server.pidfile, w.trace, rw (when-false w.server.daemonize _ w unwanted))
  background_lem w true wanted =
      let (t, eq) = daemonize_lem w in
      elim (Option-cases w.server.pidfile) [
        | inl unset ↦ (
          w.server.pidfile,
          t,
          rw (
            when-true w.server.daemonize _ w wanted,
            eq,
            when-false (is_some w.server.pidfile) _ (record w { trace = t }) (ap is_some unset),
          ),
        )
        | inr (path, given) ↦
            let (t', eq') = create_pid_file_lem env (record w { trace = t }) path memory given in
            (
              some default_pid_file,
              t',
              rw (
                when-true w.server.daemonize _ w wanted,
                eq,
                when-true (is_some w.server.pidfile) _ (record w { trace = t }) (ap is_some given),
                eq',
              ),
            )
      ]

load_lem :
    (env : Env) (conf : Text) (es : List Entry) (w : World) (o : Option Text) {v : World}
    → o ≡ some conf
    → env.ini_entries conf ≡ some es
    → hand_over (server_config_handler env) es w ≡ done tt v
    → server_load_config env o w ≡ done tt v
unfolding server_load_config
load_lem env conf es w none named opened eq = cc
load_lem env conf es w (some c) named opened eq =
    let same : env.ini_entries c ≡ some es = cc in rw (same, eq)

module _ (env : Env) (path : Text) (copies : HasMemory env) (Q : World → Type 0)
    (keeps : (u : World) (t : List Call) → Q u → Q (record u { trace = t })) where
  -- The last two lines before the event loop.
  announced-IsRunning :
      (w : World)
      → IsRunning env path w
      → Q w
      → Returns
          (λ r u. IsRunning env path u × Q u)
          ((server_log env ll_info >> note Call.set_before_sleep) w)
  announced-IsRunning w run holds =
      let (t, log, eq) = server_log-Logs env ll_info w path run.sound.logfile in
      let t' : List Call = Call.set_before_sleep ∷ t in
      rw eq (
        returned (
          IsRunning-Goes run (Goes-trace env path w run.sound t' (open_fds-OnlyLog env log)),
          keeps w t' holds,
        ))

  -- From the options and the file of settings to serverInit, of which `Q` is known.
  pub start-loads :
      (os : List Letter) (conf filename : Text) (settings : List Entry)
      → All IsPlain os
      → (chosen os first_settings).configfile ≡ some conf
      → env.ini_entries conf ≡ some settings
      → IsReadableFile settings
      → (settled settings (chosen os first_settings)).logfile ≡ some path
      → (settled settings (chosen os first_settings)).serial_configfile ≡ some filename
      → ((h : List Call) → is_child (env.forked h) ≡ true)
      → ((v : World)
          → IsBlank v
          → v.server.logfile ≡ some path
          → v.server.serial_configfile ≡ some filename
          → IsWithinLimits v.server
          → Returns (λ r u. IsRunning env path u × Q u) (server_init env v))
      → (w : World) → IsBlank w
      → Returns (λ r u. IsRunning env path u × Q u) (start env os w)
  unfolding start server_load_config take_letters
  start-loads os conf filename settings plain named opened readable logs lists forks boots w blank =
      let (t, init) = server_init_config_lem env copies w in
      let (t1, taken) =
        take_all-chosen env copies os (record w { server = first_settings; trace = t }) plain in
      let s1 : Server = chosen os first_settings in
      let (t2, loaded) =
        hand_over-settled env copies settings (record w { server = s1; trace = t1 }) readable in
      let s2 : Server = settled settings s1 in
      let (pid, t3, gone) =
        background_lem env copies forks (record w { server = s2; trace = t2 }) s2.daemonize refl in
      let w3 : World = record w { server = record s2 { pidfile = pid }; trace = t3 } in
      let limits : IsWithinLimits s2 =
        settled-IsWithinLimits settings s1
          (chosen-IsWithinLimits os first_settings (omega arith)) in
      rw
        (
          init,
          taken,
          load_lem env conf settings (record w { server = s1; trace = t1 }) s1.configfile named
              opened loaded,
          gone,
        )
        (Returns-and_then _
          (boots w3 (record { no_nodes = blank.no_nodes; no_links = blank.no_links }) logs lists
            (record {
              hz_low = limits.hz_low;
              hz_high = limits.hz_high;
              interval_low = limits.interval_low;
              interval_high = limits.interval_high;
            }))
          λ r v (run, holds). announced-IsRunning v run holds)
