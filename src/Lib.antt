-- ===== src/Lib.antt =====
-- serial-proxy: a daemon that opens serial devices ("masters"), offers pseudo-terminals ("virtuals")
-- for each of them, and copies what a master sends to its virtuals, and what one virtual, the
-- writer, sends to the master.
--
-- The program's parts and the files here:
--   src/serial.h, src/server.h   the structures: Machine/Types
--   src/server.c, logging        serverLog and its kin: Log (Log/Files: which files stay open)
--   src/serial.c                 lists of nodes: Serial/Nodes; opening and configuring a device:
--                                Serial/Device; links and their events: Serial/Link; reads and
--                                writes: Serial/Transfer; reconnecting, emptying the buffers and
--                                the end: Serial/Upkeep; rounds of the event loop: Serial/Relay
--   src/config.c                 the server's settings: Config/Settings; the devices: Config/Devices
--   src/server.c                 timer and signals: Daemon/Cron; start, PID file, end: Daemon/Start;
--                                main: Daemon/Main. Daemon/Events: what the event loop calls
-- A module's children hold the proofs about it. Tests evaluates the theorems on a small setup.
-- serverCron calls serialCron, serverBeforeSleep calls serialBeforeSleep, and the event loop calls
-- _serialEventHandler with a link; all of them share the global `server` and the heap.
--
-- A function of the source has its name in snake_case, without the prefixes `serial` and `_`
-- (serialAddNode is Serial.Nodes.add_node, _serialReadHandler is Serial.Transfer.read_handler). It is
-- a command over a World: the global server, the live nodes and links by address, and the calls
-- made so far. A command returns, or ends the process by exit, or has undefined behaviour (a fault:
-- a NULL or dangling pointer, overflow of an int, division by zero). Addresses are handed out once,
-- so that a use after free is a fault. Helpers stand for the parts of a function between its tests.
--
-- Parameters: the answers of the operating system, the C library's allocator and devices, the event
-- loop (src/ae.c, src/ae_epoll.c) and the INI parser (src/ini.c), which are copies of other
-- projects, are the record Env. Each answer may depend on all calls made before. What is assumed of
-- it is a hypothesis of the theorem. The C locale's string functions, atoi, strtok and the macro
-- strlcpy are written out in Prelude/Text and Serial/Nodes.
--
-- Loops over a list take as fuel the number of addresses ever given out. No list is longer, since
-- each node on it has an address of its own; the theorems have the bound as a hypothesis on the
-- list and show that the fuel is enough.
--
-- Config/Devices/Abstract is what a file of devices says, as a list of devices with their virtuals,
-- baud rates and writers. Serial/Relay is what `write` took for a descriptor, as one stream.
--
-- Serial/Link/Descriptors reads the descriptors of devices that are open, as open, openpty and close
-- leave them, off the calls; the files of fopen are counted apart, in Log/Files. Serial/Link/Accounts
-- compares them with those that the live links hold, each as often as it is held.
--
-- main takes the letters that getopt returns, and the events that the event loop dispatches until it
-- is stopped, as lists.
--
-- Not modelled: the text of log messages (one call stands for strftime, fprintf and fflush), of the
-- version, of the usage and of the messages on stderr, the fields pid and reload of the server, and a
-- NULL event loop, with which the program goes on where aeCreateEventLoop fails: the event loop is
-- taken to be there.
pub mod Prelude
pub mod Machine
pub mod Log
pub mod Serial
pub mod Config
pub mod Daemon
pub mod Tests
