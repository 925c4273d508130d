-- ===== src/Tests/Setup.antt =====
-- A master at address 1 with the virtuals 3 and 2 in this order, of which 2 is the writer; their links
-- are at 4, 6 and 5, on the descriptors 10, 12 and 11.
use serial_proxy_c.Prelude.{
  ℕ, refl, true, false, Option, none, some, List, [], ◌∷◌, arith, ◌==◌, if◌then◌else◌, length,
}
use serial_proxy_c.Prelude.Int.{pos}
use serial_proxy_c.Prelude.Text.{codes}
use serial_proxy_c.Machine.Types.{Node, Link, Server, Env, World}
use serial_proxy_c.Serial.Transfer.Owner.{IsOpen}
use serial_proxy_c.Serial.Transfer.Proxy.{Port, IsPort}
use serial_proxy_c.Serial.Nodes.Lists.{IsForest}

-- Every call succeeds; `read` brings "hi", and `write` takes what it is given.
abbrev pub env : Env
env = record {
  buf_size = 4;
  has_speed = λ b. true;
  succeeds = λ h c. true;
  descriptor = λ h c. 10;
  slave_descriptor = λ h. 20;
  baud_base = λ h fd. pos 115200;
  received = λ h fd. record { bytes = 104 ∷ 105 ∷ []; again = false };
  written = λ h fd bytes. length bytes;
  time_event_id = λ h. pos 0;
  forked = λ h. pos 0;
  ini_entries = λ path. some [];
}

-- Every `read` fails, as on a device that was unplugged.
abbrev pub broken : Env
broken = record env { received = λ h fd. record { bytes = []; again = false } }

-- No `write` takes anything.
abbrev pub stuck : Env
stuck = record env { written = λ h fd bytes. 0 }

abbrev pub master : Node
master = record {
  name = codes "/dev/a";
  flags = 1;
  virtual_head = some 3;
  virtualof = none;
  baudrate = pos 9600;
  link = some 4;
  next = none;
}

abbrev pub writer : Node
writer = record {
  name = codes "/dev/a.x";
  flags = 6;
  virtual_head = none;
  virtualof = some 1;
  baudrate = pos 9600;
  link = some 5;
  next = none;
}

abbrev pub reader : Node
reader = record {
  name = codes "/dev/a.y";
  flags = 2;
  virtual_head = none;
  virtualof = some 1;
  baudrate = pos 9600;
  link = some 6;
  next = some 2;
}

abbrev pub link_of : ℕ → ℕ → Link
link_of fd node = record {
  fd = some fd;
  sfd = none;
  recvbuf = 1 ∷ 2 ∷ 3 ∷ 4 ∷ [];
  recvbuflen = 3;
  node = some node;
}

abbrev pub server : Server
server = record {
  pidfile = some (codes "/tmp/p");
  logfile = some [];
  configfile = none;
  shutdown = false;
  daemonize = false;
  verbosity = 1;
  syslog = pos 0;
  maxclients = 1000;
  cronloops = 7;
  reconnect_interval = 5000;
  cron_event_id = pos 0;
  hz = 10;
  serial_configfile = none;
  master_head = some 1;
}

abbrev pub nodes : ℕ → Option Node
nodes p =
    if p == 1
    then some master
    else if p == 2
    then some writer
    else if p == 3
    then some reader
    else none

abbrev pub links : ℕ → Option Link
links l =
    if l == 4
    then some (link_of 10 1)
    else if l == 5
    then some (link_of 11 2)
    else if l == 6
    then some (link_of 12 3)
    else none

abbrev pub world : World
world = record { server = server; nodes = nodes; links = links; fresh = 7; trace = [] }

abbrev pub virtuals : List ℕ
virtuals = 3 ∷ 2 ∷ []

pub master-IsOpen : IsOpen world 4 (link_of 10 1) 1 master 10
master-IsOpen = record {
  link_at = refl;
  node_at = refl;
  owner = refl;
  descriptor = refl;
  back = refl;
}

pub writer-IsOpen : IsOpen world 5 (link_of 11 2) 2 writer 11
writer-IsOpen = record {
  link_at = refl;
  node_at = refl;
  owner = refl;
  descriptor = refl;
  back = refl;
}

abbrev pub writer_port : Port
writer_port = record { link = 5; fd = 11; at = 2; node = writer }

abbrev pub reader_port : Port
reader_port = record { link = 6; fd = 12; at = 3; node = reader }

pub writer-IsPort : IsPort world 1 writer_port
writer-IsPort = record {
  content = link_of 11 2;
  is_open = writer-IsOpen;
  virtual = refl;
  of_master = refl;
}

pub reader-IsPort : IsPort world 1 reader_port
reader-IsPort = record {
  content = link_of 12 3;
  is_open = record { link_at = refl; node_at = refl; owner = refl; descriptor = refl; back = refl };
  virtual = refl;
  of_master = refl;
}

abbrev pub virtuals_of : ℕ → List ℕ
virtuals_of m = virtuals

pub forest : IsForest world (1 ∷ []) virtuals_of
forest = (
  ((refl, master, refl, refl), omega arith),
  ((master, refl, ((refl, reader, refl, (refl, writer, refl, refl)), omega arith)), tt),
)
