-- ===== src/Machine/Types.antt =====
-- The structures of src/serial.h and src/server.h, and the interface to the operating system, the
-- C library and the event loop, which are parameters.
use serial_proxy_c.Prelude.{ℕ, Bool, Option, List}
use serial_proxy_c.Prelude.Int.{ℤ}
use serial_proxy_c.Prelude.Text.{Text}

-- `struct serialNode`. Pointers are addresses, NULL is `none`.
pub record Node : Type 0 where
  pub name : Text
  pub flags : ℕ
  pub virtual_head : Option ℕ
  pub virtualof : Option ℕ
  pub baudrate : ℤ
  pub link : Option ℕ
  pub next : Option ℕ

-- `struct serialLink`. A descriptor of -1 is `none`; `recvbuf` is the whole array.
pub record Link : Type 0 where
  pub fd : Option ℕ
  pub sfd : Option ℕ
  pub recvbuf : List ℕ
  pub recvbuflen : ℕ
  pub node : Option ℕ

-- `struct sproxyServer`; `master_head` is `server.serial.master_head`.
pub record Server : Type 0 where
  pub pidfile : Option Text
  pub logfile : Option Text
  pub configfile : Option Text
  pub shutdown : Bool
  pub daemonize : Bool
  pub verbosity : ℕ
  pub syslog : ℤ
  pub maxclients : ℕ
  pub cronloops : ℕ
  pub reconnect_interval : ℕ
  pub cron_event_id : ℤ
  pub hz : ℕ
  pub serial_configfile : Option Text
  pub master_head : Option ℕ

-- What the program asks of code outside it.
pub data Call : Type 0 where
  calloc strdup : Call
  open_path : Text → Call
  isatty : ℕ → Call
  openpty : Call
  remove : Text → Call
  -- a link from the terminal of the slave descriptor to a path
  symlink : ℕ → Text → Call
  tcgetattr : ℕ → Call
  get_serial : ℕ → Call
  set_serial : ℕ → ℤ → Call
  -- raw mode, with a standard speed if one was chosen
  tcsetattr : ℕ → Option ℕ → Call
  create_file_event : ℕ → ℕ → ℕ → Call
  delete_file_event : ℕ → ℕ → Call
  create_time_event : ℕ → Call
  delete_time_event : ℤ → Call
  create_event_loop : ℕ → Call
  set_before_sleep delete_event_loop : Call
  ae_stop : Call
  sigaction : Call
  close : ℕ → Call
  read : ℕ → ℕ → Call
  write : ℕ → List ℕ → Call
  usleep : ℕ → Call
  fopen fclose : Text → Call
  gettimeofday : Call
  log_line : ℕ → Call
  syslog_line : ℕ → Call
  unlink : Option Text → Call
  -- the process identifier is printed to the file, which is closed then
  write_pid : Text → Call
  print_version print_usage : Call
  fork setsid : Call
  dup2 : ℕ → ℕ → Call

-- What `read` brought: no bytes stand for a result of zero or less, and `again` says that `errno`
-- is then `EAGAIN`.
pub record Received : Type 0 where
  pub bytes : List ℕ
  pub again : Bool

-- A pair that the INI parser hands to its handler.
pub record Entry : Type 0 where
  pub section : Text
  pub name : Text
  pub value : Text

-- The answers of the outside world, each after the calls made so far (the latest first).
-- `buf_size` is `BUFSIZ`; `has_speed b` says that the headers define the macro of speed `b`.
pub record Env : Type 0 where
  pub buf_size : ℕ
  pub has_speed : ℕ → Bool
  pub succeeds : List Call → Call → Bool
  pub descriptor : List Call → Call → ℕ
  pub slave_descriptor : List Call → ℕ
  pub baud_base : List Call → ℕ → ℤ
  pub received : List Call → ℕ → Received
  -- the bytes that `write` took, 0 if it failed
  pub written : List Call → ℕ → List ℕ → ℕ
  pub time_event_id : List Call → ℤ
  -- what `fork` returned: 0 in the child, -1 where it failed
  pub forked : List Call → ℤ
  -- the pairs of an INI file in the order in which `ini_parse` hands them over; `none` is a file
  -- that cannot be opened, for which `ini_parse` returns -1
  pub ini_entries : Text → Option (List Entry)

-- The state: the global `server`, the live nodes and links by address, the first address that has
-- never been given out, and the calls made so far.
pub record World : Type 0 where
  pub server : Server
  pub nodes : ℕ → Option Node
  pub links : ℕ → Option Link
  pub fresh : ℕ
  pub trace : List Call

-- Behaviour that C leaves undefined, and a loop that runs out of its fuel.
pub data Fault : Type 0 where
  null_pointer dangling_pointer int_overflow division_by_zero no_fuel : Fault
