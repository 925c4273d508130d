-- ===== src/Daemon/Start/PidFile.antt =====
-- createPidFile: which file the process identifier goes to.
use serial_proxy_c.Prelude.{◌≡◌, ap, inl, inr, some, is_some, Bool-cases, List, ◌∷◌}
use serial_proxy_c.Prelude.Text.{Text, codes}
use serial_proxy_c.Machine.Types.{Call, Env, World}
use serial_proxy_c.Machine.Memory.{when-true}
use serial_proxy_c.Machine.Monad.{done}
use serial_proxy_c.Machine.Returns.{Returns}
use serial_proxy_c.Config.Settings.Load.{HasMemory}
use serial_proxy_c.Daemon.Start.{create_pid_file, replace_pid_file, write_pid_file}

abbrev pub default_pid_file : Text
default_pid_file = codes "/var/run/sproxyd.pid"

-- Apart from the calls made, only the name changes.
pub create_pid_file_lem :
    (env : Env) (w : World) (path : Text)
    → HasMemory env
    → w.server.pidfile ≡ some path
    → (t : List Call) × (create_pid_file env w
        ≡ done tt
            (record w { server = record w.server { pidfile = some default_pid_file }; trace = t }))
unfolding create_pid_file replace_pid_file write_pid_file
create_pid_file_lem env w path memory given =
    let opening = Call.fopen default_pid_file ∷ Call.strdup ∷ w.trace in
    elim (Bool-cases (env.succeeds (Call.strdup ∷ w.trace) (Call.fopen default_pid_file))) [
      | inl ok ↦ (
        Call.write_pid default_pid_file ∷ opening,
        rw (when-true (is_some w.server.pidfile) _ w (ap is_some given), memory w.trace, ok),
      )
      | inr failed ↦ (
        opening,
        rw (when-true (is_some w.server.pidfile) _ w (ap is_some given), memory w.trace, failed),
      )
    ]
