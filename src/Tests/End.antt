-- ===== src/Tests/End.antt =====
-- The theorems on the end of the daemon, on the small configurations.
use serial_proxy_c.Prelude.{ℕ, ◌≡◌, refl, some, none, [], ◌∷◌, arith}
use serial_proxy_c.Prelude.Text.{codes}
use serial_proxy_c.Machine.Monad.{done, ◌>>◌}
use serial_proxy_c.Machine.Types.{Node, World}
use serial_proxy_c.Machine.Returns.{Returns}
use serial_proxy_c.Serial.Upkeep.{serial_term}
use serial_proxy_c.Serial.Upkeep.Release.{Shrinks}
use serial_proxy_c.Serial.Link.Accounts.{Balanced}
use serial_proxy_c.Serial.Upkeep.Term.Tree.{serial_term-IsGone}
use serial_proxy_c.Daemon.Events.{Event, CanOccur}
use serial_proxy_c.Daemon.Main.{start, ae_main, main}
use serial_proxy_c.Daemon.Main.Ends.{AllOccur, AllDevicesGone, main-IsGone}
use serial_proxy_c.Tests.Setup.{env}
use serial_proxy_c.Tests.Connect.{asleep, asleep-IsTree, asleep-IsLinked}
use serial_proxy_c.Tests.Main.{main_env, letters, main-starts}
use serial_proxy_c.Tests.Running.{empty_world}

serial_term-IsGone_example :
    Returns
      (λ r u.
        Shrinks env asleep u
        × AllDevicesGone asleep u
        × ((p : ℕ) (n : Node) (l : ℕ)
            → asleep.nodes p ≡ some n
            → n.link ≡ some l
            → u.nodes p ≡ none
            → u.links l ≡ none))
      (serial_term env asleep)
serial_term-IsGone_example =
    serial_term-IsGone env [] asleep
      (record { logfile = refl; tree = asleep-IsTree; linked = asleep-IsLinked })

-- The event loop goes to sleep once before it is stopped.
once_asleep : (v : World) → AllOccur main_env (Event.sleep ∷ []) v
unfolding AllOccur CanOccur
once_asleep v = (tt, λ u e. tt)

main-IsGone_example :
    Returns
      (λ status u.
        (status ≡ 0)
        × ((v : World) × ((start main_env letters >> ae_main main_env (Event.sleep ∷ []))
                empty_world
              ≡ done tt v)
            × AllDevicesGone v u
            × Balanced main_env v u))
      (main main_env letters (Event.sleep ∷ []) empty_world)
main-IsGone_example =
    main-IsGone main_env (codes "log") (λ h fd. omega arith) (λ h. refl) letters (Event.sleep ∷ [])
      empty_world main-starts (λ v e. once_asleep v) (λ h id. refl)
