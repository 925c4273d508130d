-- ===== src/Daemon/Start/Init.antt =====
-- serverInit and serialInit: from the configuration to a daemon that answers events.
use serial_proxy_c.Prelude.{
  ℕ, ◌≡◌, refl, ◌∙◌, ap, sym, subst, arith, true, false, Option, none, some, List, [], ◌∷◌, All,
}
use serial_proxy_c.Prelude.Int.{ℤ, pos}
use serial_proxy_c.Prelude.Text.{Text}
use serial_proxy_c.Machine.Types.{Server, Call, Entry, Env, World}
use serial_proxy_c.Machine.Returns.{Returns, Returns-and_then, Returns-weaken}
use serial_proxy_c.Serial.Nodes.Tree.{IsTree-same}
use serial_proxy_c.Serial.Device.Configure.{HasSpeed}
use serial_proxy_c.Serial.Link.Accounts.{AllOpen-none}
use serial_proxy_c.Serial.Link.Linked.{IsLinked}
use serial_proxy_c.Serial.Upkeep.Reconnect.{reconnect-Gains}
use serial_proxy_c.Config.Settings.Load.{HasMemory}
use serial_proxy_c.Config.Settings.Limits.{IsWithinLimits}
use serial_proxy_c.Config.Devices.{serial_load_config}
use serial_proxy_c.Config.Devices.Heap.{IsWell}
use serial_proxy_c.Config.Devices.Load.{IsUsable, serial_load_config-IsWell}
use serial_proxy_c.Serial.Upkeep.{reconnect}
use serial_proxy_c.Daemon.Start.{serial_init, server_init, setup_signal_handlers, is_ae_err}
use serial_proxy_c.Serial.Upkeep.Gains.{Gains}
use serial_proxy_c.Config.Devices.Abstract.{devices_of}
use serial_proxy_c.Config.Devices.Shows.{Shows}
use serial_proxy_c.Config.Devices.Stays.{Shows-same}
use serial_proxy_c.Config.Devices.Refine.{IsSoundEntry, serial_load_config-Shows}
use serial_proxy_c.Daemon.Events.Run.{IsRunning}

-- Before the devices are loaded nothing is allocated.
pub record IsBlank (w : World) : Type 0 where
  pub no_nodes : (p : ℕ) → w.nodes p ≡ none
  pub no_links : (l : ℕ) → w.links l ≡ none

module _ (env : Env) (path : Text) (w : World) (blank : IsBlank w) where
  abbrev headless : World
  headless = record w { server = record w.server { master_head = none } }

  blank-IsWell : IsWell env w.server headless
  blank-IsWell = record {
    bounded = λ q above. blank.no_nodes q;
    tree = record {
      masters = ([], (refl, omega arith), tt);
      virtuals = λ p n at. absurd (ground (arith, blank.no_nodes p));
      parent = λ p n at. absurd (ground (arith, blank.no_nodes p));
      speed = λ p n at. absurd (ground (arith, blank.no_nodes p));
    };
    unlinked = λ p n at. absurd (ground (arith, blank.no_nodes p));
    no_links = blank.no_links;
    settings = refl;
  }

-- Without links, nodes and links lead to each other.
IsWell-IsLinked : (env : Env) (s : Server) (w : World) → IsWell env s w → IsLinked env w
IsWell-IsLinked env s w well = record {
  back = λ p n l at e. let free = well.unlinked p n at in cc;
  owned = λ l k at. let free = well.no_links l in absurd (ground arith);
  open_all = AllOpen-none env w well.no_links;
}

IsWithinLimits-elsewhere :
    (s : Server) (head : Option ℕ) (id : ℤ)
    → IsWithinLimits s
    → IsWithinLimits (record s { master_head = head; cron_event_id = id })
IsWithinLimits-elsewhere s head id limits = record {
  hz_low = limits.hz_low;
  hz_high = limits.hz_high;
  interval_low = limits.interval_low;
  interval_high = limits.interval_high;
}

module _ (env : Env) (path : Text)
    (memory : (h : List Call) → env.succeeds h Call.calloc ≡ true) where
  -- The first pass over the nodes that were loaded.
  connected-IsRunning :
      (s : Server) (v : World)
      → s.logfile ≡ some path
      → IsWithinLimits s
      → IsWell env s v
      → Returns (λ r u. IsRunning env path u × Gains env v u) (reconnect env v)
  connected-IsRunning s v set limits well =
      let set' : v.server.logfile ≡ some path =
        ap (λ (x : Server). x.logfile) well.settings ∙ set in
      Returns-weaken
        (reconnect-Gains env v path set' memory well.tree (IsWell-IsLinked env s v well))
        λ r u g. (
          record {
            sound = record {
              logfile = ap (λ (x : Server). x.logfile) g.server_same ∙ set';
              tree =
                  IsTree-same env v u (ap (λ (x : Server). x.master_head) g.server_same) g.grows
                    g.same_tree well.tree;
              linked = g.linked;
            };
            limits =
                subst IsWithinLimits (sym (g.server_same ∙ well.settings))
                  (IsWithinLimits-elsewhere s v.server.master_head s.cron_event_id limits);
          },
          g,
        )

  -- What loading establishes, and opening links keeps, holds of the running daemon.
  module _ (filename : Text) (P : World → Type 0)
      (loads : (w : World)
        → IsBlank w
        → (blank : IsWell env w.server
            (record w { server = record w.server { master_head = none } }))
        → Returns
            (λ r v. IsWell env w.server v × P v)
            (serial_load_config env
              (some filename)
              (record w { server = record w.server { master_head = none } })))
      (stays : (v u : World) → Gains env v u → P v → P u) where
    serial_init-loads :
        (w : World)
        → IsBlank w
        → w.server.logfile ≡ some path
        → w.server.serial_configfile ≡ some filename
        → IsWithinLimits w.server
        → Returns (λ r u. IsRunning env path u × P u) (serial_init env w)
    unfolding serial_init
    serial_init-loads w blank set given limits =
        let start : World = headless env path w blank in
        let loaded : Returns (λ r v. IsWell env w.server v × P v)
            (serial_load_config env w.server.serial_configfile start) =
          subst
            (λ (o : Option Text).
              Returns (λ r v. IsWell env w.server v × P v) (serial_load_config env o start))
            (sym given) (loads w blank (blank-IsWell env path w blank)) in
        Returns-and_then _ loaded λ r v (well, holds).
          Returns-weaken (connected-IsRunning w.server v set limits well)
            λ r' u (run, g). (run, stays v u g holds)

    server_init-loads :
        ((h : List Call) → env.succeeds h Call.sigaction ≡ true)
        → ((h : List Call) → is_ae_err (env.time_event_id h) ≡ false)
        → (w : World) → IsBlank w
        → w.server.logfile ≡ some path
        → w.server.serial_configfile ≡ some filename
        → IsWithinLimits w.server
        → Returns (λ r u. IsRunning env path u × P u) (server_init env w)
    unfolding server_init setup_signal_handlers
    server_init-loads signals timer w blank set given limits =
        let t : List Call = Call.sigaction ∷ Call.sigaction ∷ w.trace in
        let w' : World = record w {
          server = record w.server { cron_event_id = env.time_event_id t };
          trace = Call.create_time_event 1 ∷ t;
        } in
        rw (signals w.trace, signals (Call.sigaction ∷ w.trace), timer t)
          (serial_init-loads w' (record { no_nodes = blank.no_nodes; no_links = blank.no_links })
            set given
            (IsWithinLimits-elsewhere w.server w.server.master_head (env.time_event_id t) limits))

module _ (env : Env) (path : Text) (memory : (h : List Call) → env.succeeds h Call.calloc ≡ true)
    (copies : HasMemory env) (default : HasSpeed env (pos 9600)) (filename : Text) (es : List Entry)
    (opened : env.ini_entries filename ≡ some es) where
  -- serverInit on a configured server without devices: if signals and the timer can be registered,
  -- memory does not run out, a log file and a file of devices are set, the latter can be opened and
  -- its entries are usable, and the settings are within their limits, it returns a running daemon.
  pub server_init-IsRunning :
      All (IsUsable env) es
      → ((h : List Call) → env.succeeds h Call.sigaction ≡ true)
      → ((h : List Call) → is_ae_err (env.time_event_id h) ≡ false)
      → (w : World) → IsBlank w
      → w.server.logfile ≡ some path
      → w.server.serial_configfile ≡ some filename
      → IsWithinLimits w.server
      → Returns (λ r. IsRunning env path) (server_init env w)
  server_init-IsRunning usable signals timer w blank set given limits =
      Returns-weaken
        (server_init-loads env path memory filename (λ v. Unit {0})
          (λ v blank well.
            Returns-weaken
              (serial_load_config-IsWell env v.server memory copies default filename es _ opened
                usable well)
              λ r u well'. (well', tt))
          (λ v u g holds. tt) signals timer w blank set given limits)
        λ r u (run, holds). run

  -- serverInit on a configured server without devices: if signals and the timer can be registered,
  -- memory does not run out, a log file and a file of devices are set, the latter can be opened and
  -- its entries are usable, with names of sections that fit those of nodes, and the settings are
  -- within their limits, it returns a running daemon whose nodes stand for the devices that the file
  -- says: the masters are these devices in order, with their names and baud rates, and the virtuals of
  -- each are in order, with their names and the writers marked.
  pub server_init-Shows :
      All (IsSoundEntry env) es
      → ((h : List Call) → env.succeeds h Call.sigaction ≡ true)
      → ((h : List Call) → is_ae_err (env.time_event_id h) ≡ false)
      → (w : World) → IsBlank w
      → w.server.logfile ≡ some path
      → w.server.serial_configfile ≡ some filename
      → IsWithinLimits w.server
      → Returns (λ r u. IsRunning env path u × Shows (devices_of es []) u) (server_init env w)
  server_init-Shows sound signals timer w blank set given limits =
      server_init-loads env path memory filename (Shows (devices_of es []))
        (λ v blank well.
          Returns-weaken
            (serial_load_config-Shows env v.server memory copies default filename es [] _ opened
              sound well ([], refl, tt))
            λ r u (shown, well'). (well', shown))
        (λ v u g shown.
          Shows-same v u g.same_tree (devices_of es [])
            (ap (λ (s : Server). s.master_head) g.server_same) shown)
        signals timer w blank set given limits
