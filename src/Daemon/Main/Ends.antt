-- ===== src/Daemon/Main/Ends.antt =====
-- main from the event loop to its return.
use serial_proxy_c.Prelude.{ℕ, ◌≡◌, refl, true, List, [], ◌∷◌, All}
use serial_proxy_c.Prelude.Int.{ℤ}
use serial_proxy_c.Prelude.Text.{Text}
use serial_proxy_c.Machine.Types.{Call, Env, World}
use serial_proxy_c.Machine.Monad.{done, ◌>>◌}
use serial_proxy_c.Machine.Returns.{Returns, returned, Returns-and_then, outcome_of_Returns}
use serial_proxy_c.Serial.Nodes.Lists.{IsMasters}
use serial_proxy_c.Serial.Link.Accounts.{Balanced, Balanced-trans, Balanced-fds}
use serial_proxy_c.Serial.Upkeep.Term.Tree.{IsGone, serial_term-IsGone}
use serial_proxy_c.Daemon.Start.{server_term}
use serial_proxy_c.Serial.Sound.Handlers.{ReadsWithin}
use serial_proxy_c.Daemon.Events.{Event, occur, CanOccur}
use serial_proxy_c.Daemon.Events.Run.{IsRunning, occur-IsRunning}
use serial_proxy_c.Daemon.Main.{Letter, start, ae_main, main}

-- Each event may occur in the state that those before it lead to.
unfoldable pub AllOccur : Env → List Event → World → Type 0
AllOccur env [] w = Unit
AllOccur env (e ∷ es) w =
    CanOccur env w e × ((v : World) → occur env e w ≡ done tt v → AllOccur env es v)

-- The masters of `v`, and their virtuals, are gone in `u`.
abbrev pub AllDevicesGone : World → World → Type 0
AllDevicesGone v u = (ms : List ℕ) × IsMasters v ms × All (IsGone v u) ms

module _ (env : Env) (path : Text) (within : ReadsWithin env)
    (memory : (h : List Call) → env.succeeds h Call.calloc ≡ true) where
  ae_main-IsRunning :
      (es : List Event) (w : World)
      → IsRunning env path w
      → AllOccur env es w
      → Returns (λ r. IsRunning env path) (ae_main env es w)
  unfolding ae_main AllOccur
  ae_main-IsRunning [] w run all = returned run
  ae_main-IsRunning (e ∷ es) w run (can, all) =
      let (r, v, eq, run') =
        outcome_of_Returns (occur-IsRunning env path within memory e w run can) in
      rw eq (ae_main-IsRunning es v run' (all v eq))

  -- serverTerm on a running daemon, if the timer can be deleted.
  server_term-gone :
      (w : World)
      → IsRunning env path w
      → ((h : List Call) (id : ℤ) → env.succeeds h (Call.delete_time_event id) ≡ true)
      → Returns (λ r u. AllDevicesGone w u × Balanced env w u) (server_term env w)
  unfolding server_term
  server_term-gone w run deletes =
      Returns-and_then _ (serial_term-IsGone env path w run.sound) λ r u (shrinks, gone, links).
        rw (deletes u.trace u.server.cron_event_id) (
          returned (
            gone,
            Balanced-trans env w u _ shrinks.balance (Balanced-fds env u _ refl (λ d. refl)),
          ))

  -- With memory, and a `read` that brings no more than it was asked for, if main reaches the event
  -- loop with a running daemon, each event may occur in the state that those before it lead to, and
  -- the timer can be deleted, main returns 0; every master that is listed when the event loop stops,
  -- and each of its virtuals, is then gone, and of each descriptor as many were closed since the
  -- event loop stopped as the links that are gone held.
  pub main-IsGone :
      (os : List Letter) (es : List Event) (w : World)
      → Returns (λ r. IsRunning env path) (start env os w)
      → ((v : World) → start env os w ≡ done tt v → AllOccur env es v)
      → ((h : List Call) (id : ℤ) → env.succeeds h (Call.delete_time_event id) ≡ true)
      → Returns
          (λ status u.
            (status ≡ 0)
            × ((v : World) × ((start env os >> ae_main env es) w ≡ done tt v)
                × AllDevicesGone v u
                × Balanced env v u))
          (main env os es w)
  unfolding main
  main-IsGone os es w started events deletes =
      let (r, v, eq, run) = outcome_of_Returns started in
      let (r', u, eq', run') = outcome_of_Returns (ae_main-IsRunning es v run (events v eq)) in
      rw (eq, eq')
        (Returns-and_then _ (server_term-gone u run' deletes) λ r'' x (gone, closed).
          let all_closed =
            Balanced-trans env u x _ closed (Balanced-fds env x _ refl (λ d. refl)) in
          returned (refl, (u, refl, gone, all_closed)))
