-- ===== src/Tests/Running.antt =====
-- The theorems on the file of devices, the start and the events, on the small configuration.
use serial_proxy_c.Prelude.{◌≡◌, refl, inr, true, false, none, some, List, [], ◌∷◌, arith, All}
use serial_proxy_c.Prelude.Int.{pos, ◌/ℤ◌}
use serial_proxy_c.Prelude.Text.{
  Text, text_eq, codes, case_eq, atoi, signed_value, digits_value, tokens, tokens_from,
}
use serial_proxy_c.Machine.Types.{Entry, Env, World}
use serial_proxy_c.Machine.Returns.{Returns, outcome_of_Returns}
use serial_proxy_c.Machine.Monad.{done}
use serial_proxy_c.Serial.Nodes.Tree.{IsTree-same}
use serial_proxy_c.Serial.Link.Accounts.{AllOpen, Balanced}
use serial_proxy_c.Serial.Link.Linked.{IsLinked-aside}
use serial_proxy_c.Serial.Device.Configure.{HasSpeed}
use serial_proxy_c.Config.Devices.{serial_load_config, key_of}
use serial_proxy_c.Config.Devices.Heap.{IsWell}
use serial_proxy_c.Config.Devices.Abstract.{Device, devices_of}
use serial_proxy_c.Config.Devices.Lookup.{rate_said}
use serial_proxy_c.Config.Devices.Found.{Finds, serial_load_config-get_node}
use serial_proxy_c.Config.Devices.Shows.{Shows}
use serial_proxy_c.Config.Devices.Refine.{IsSoundEntry, serial_load_config-Shows}
use serial_proxy_c.Config.Devices.Load.{IsUsable, serial_load_config-IsWell}
use serial_proxy_c.Daemon.Cron.{Signal, sig_handler}
use serial_proxy_c.Daemon.Cron.Period.{asked}
use serial_proxy_c.Daemon.Start.{server_init, is_ae_err}
use serial_proxy_c.Daemon.Start.Init.{server_init-IsRunning}
use serial_proxy_c.Daemon.Events.{Event, occur, CanOccur, Reaches, here, next}
use serial_proxy_c.Daemon.Events.Run.{
  Reaches-Balanced, IsRunning, occur-IsRunning, Reaches-IsRunning, Reaches-Shows,
}
use serial_proxy_c.Tests.Setup.{env, server, world, master, reader, writer}
use serial_proxy_c.Tests.Connect.{idle, asleep, asleep-IsTree, asleep-IsLinked}

abbrev entry : Text → Text → Entry
entry name value = record { section = codes "/dev/a"; name = name; value = value }

-- A file of one device with two virtuals, of which the first is the writer.
abbrev pub file : List Entry
file =
    entry (codes "baudrate") (codes "115200")
    ∷ entry (codes "virtuals") (codes "x y")
    ∷ entry (codes "Writer") (codes "x")
    ∷ entry (codes "color") (codes "red")
    ∷ []

abbrev pub empty_world : World
empty_world = record world {
  server = record server { master_head = none };
  nodes = λ p. none;
  links = λ l. none;
}

abbrev pub file_env : Env
file_env = record env { ini_entries = λ path. some file }

empty_world-IsWell : IsWell file_env server empty_world
empty_world-IsWell = record {
  bounded = λ q above. refl;
  tree = record {
    masters = ([], (refl, omega arith), tt);
    virtuals = λ p n at. cc;
    parent = λ p n at. cc;
    speed = λ p n at. cc;
  };
  unlinked = λ p n at. cc;
  no_links = λ l. refl;
  settings = refl;
}

file_speed : HasSpeed file_env (pos 9600)
unfolding ◌/ℤ◌
file_speed = inr (refl, λ h d. omega arith)

file-IsUsable : All (IsUsable file_env) file
unfolding ◌/ℤ◌ key_of case_eq atoi signed_value digits_value tokens tokens_from
file-IsUsable = (
  (omega arith, inr (refl, λ h d. omega arith)),
  ((omega arith, (omega arith, tt)), (omega arith, (tt, tt))),
)

serial_load_config-IsWell_example :
    Returns (λ r. IsWell file_env server) (serial_load_config file_env (some []) empty_world)
serial_load_config-IsWell_example =
    serial_load_config-IsWell file_env server (λ h. refl) (λ h. refl) file_speed [] file empty_world
      refl file-IsUsable empty_world-IsWell

-- The same world, told which file it is.
abbrev ready_world : World
ready_world = record empty_world {
  server = record server { master_head = none; serial_configfile = some [] };
}

server_init-IsRunning_example :
    Returns (λ r. IsRunning file_env []) (server_init file_env ready_world)
unfolding is_ae_err
server_init-IsRunning_example =
    server_init-IsRunning file_env [] (λ h. refl) (λ h. refl) file_speed [] file refl file-IsUsable
      (λ h. refl) (λ h. refl) ready_world (record { no_nodes = λ p. refl; no_links = λ l. refl })
      refl refl (omega arith)

asleep-IsRunning : IsRunning env [] asleep
asleep-IsRunning = record {
  sound = record { logfile = refl; tree = asleep-IsTree; linked = asleep-IsLinked };
  limits = omega arith;
}

occur-IsRunning_example : Returns (λ r. IsRunning env []) (occur env Event.timer asleep)
unfolding CanOccur
occur-IsRunning_example =
    occur-IsRunning env [] (λ h fd. omega arith) (λ h. refl) Event.timer asleep asleep-IsRunning
      (omega arith)

Reaches-asked : Reaches env asleep (asked asleep)
unfolding occur CanOccur sig_handler
Reaches-asked = next (Event.signal Signal.sigterm) here refl refl

Reaches-IsRunning_example : IsRunning env [] (asked asleep)
Reaches-IsRunning_example =
    Reaches-IsRunning env [] (λ h fd. omega arith) (λ h. refl) asleep-IsRunning Reaches-asked

-- A call of serverCron that is due opens the devices.
abbrev due_world : World
due_world = record asleep { server = record server { cronloops = 0 } }

due_world-IsRunning : IsRunning env [] due_world
due_world-IsRunning = record {
  sound = record {
    logfile = refl;
    tree = IsTree-same env asleep due_world refl (omega arith) (λ p. refl) asleep-IsTree;
    linked = IsLinked-aside env asleep asleep-IsLinked _ _ refl;
  };
  limits = omega arith;
}

awake :
    (r : Unit {0}) × (u : World) × (occur env Event.timer due_world ≡ done r u) × IsRunning env [] u
unfolding CanOccur
awake = outcome_of_Returns (
    occur-IsRunning env [] (λ h fd. omega arith) (λ h. refl) Event.timer due_world
      due_world-IsRunning (omega arith))

Reaches-Balanced_example : AllOpen env awake.1 × Balanced env due_world awake.1
unfolding CanOccur
Reaches-Balanced_example =
    Reaches-Balanced env [] (λ h fd. omega arith) (λ h. refl) due_world-IsRunning
      (next Event.timer here (omega arith) awake.2)

-- What the file says.
abbrev pub said_devices : List Device
said_devices =
    record {
      name = codes "/dev/a";
      baudrate = pos 115200;
      virtuals =
          record { name = codes "/dev/a.y"; is_writer = false }
          ∷ record { name = codes "/dev/a.x"; is_writer = true }
          ∷ [];
    }
    ∷ []

file-IsSound : All (IsSoundEntry file_env) file
file-IsSound =
    let (one, (two, (three, (four, none_left)))) = file-IsUsable in
    ((one, omega arith), ((two, omega arith), ((three, omega arith), ((four, omega arith), tt))))

serial_load_config-Shows_example :
    Returns
      (λ r v. Shows said_devices v × IsWell file_env server v)
      (serial_load_config file_env (some []) empty_world)
unfolding devices_of key_of case_eq atoi signed_value digits_value tokens tokens_from text_eq
serial_load_config-Shows_example =
    serial_load_config-Shows file_env server (λ h. refl) (λ h. refl) file_speed [] file []
      empty_world refl file-IsSound empty_world-IsWell ([], refl, tt)

-- The devices of the small configuration.
abbrev small_devices : List Device
small_devices =
    record {
      name = codes "/dev/a";
      baudrate = pos 9600;
      virtuals =
          record { name = codes "/dev/a.y"; is_writer = false }
          ∷ record { name = codes "/dev/a.x"; is_writer = true }
          ∷ [];
    }
    ∷ []

asleep-Shows : Shows small_devices asleep
asleep-Shows = (
  1 ∷ [],
  (refl, idle master, refl, refl),
  (
    (
      idle master,
      refl,
      refl,
      refl,
      3 ∷ 2 ∷ [],
      (refl, idle reader, refl, (refl, idle writer, refl, refl)),
      ((idle reader, refl, refl, refl), ((idle writer, refl, refl, refl), tt)),
    ),
    tt,
  ),
)

Reaches-Shows_example : Shows small_devices (asked asleep)
Reaches-Shows_example =
    Reaches-Shows env [] (λ h fd. omega arith) (λ h. refl) small_devices asleep-IsRunning
      asleep-Shows Reaches-asked

-- The file says 115200 baud for the device.
serial_load_config-get_node_example :
    Returns
      (λ r v. Finds (codes "/dev/a") v (some (pos 115200)))
      (serial_load_config file_env (some []) empty_world)
unfolding rate_said key_of case_eq atoi signed_value digits_value text_eq
serial_load_config-get_node_example =
    serial_load_config-get_node file_env server (λ h. refl) (λ h. refl) file_speed [] file
      empty_world (codes "/dev/a") refl file-IsSound empty_world-IsWell refl
