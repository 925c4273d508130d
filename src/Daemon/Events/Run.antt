-- ===== src/Daemon/Events/Run.antt =====
-- The daemon between two events, in every state that events lead to.
use serial_proxy_c.Prelude.{ℕ, ◌≡◌, refl, ◌∙◌, ap, sym, subst, ◌&&◌, true, false, List, arith}
use serial_proxy_c.Prelude.Text.{Text}
use serial_proxy_c.Machine.Types.{Server, Call, Env, World}
use serial_proxy_c.Machine.Returns.{
  Returns, returned, Returns-and_then, Returns-weaken, Returns-result,
}
use serial_proxy_c.Serial.Nodes.Tree.{IsTree-same, SameNodes}
use serial_proxy_c.Serial.Link.Accounts.{AllOpen, Balanced, Balanced-trans, Balanced-fds}
use serial_proxy_c.Serial.Link.Linked.{IsLinked-aside}
use serial_proxy_c.Serial.Transfer.{event_handler}
use serial_proxy_c.Serial.Upkeep.Gains.{Gains}
use serial_proxy_c.Serial.Upkeep.Empty.{serial_before_sleep-Gains}
use serial_proxy_c.Serial.Sound.{IsSound, Goes}
use serial_proxy_c.Serial.Sound.Handlers.{
  ReadsWithin, read_handler-Goes, read_handler-stays, write_handler-Goes,
}
use serial_proxy_c.Config.Settings.Limits.{IsWithinLimits}
use serial_proxy_c.Config.Devices.Abstract.{Device}
use serial_proxy_c.Config.Devices.Shows.{Shows}
use serial_proxy_c.Config.Devices.Stays.{Shows-same}
use serial_proxy_c.Daemon.Cron.{Signal, is_sigint, sig_handler, server_before_sleep}
use serial_proxy_c.Daemon.Cron.Period.{asked}
use serial_proxy_c.Daemon.Cron.Round.{Counted, server_cron-Counted}
use serial_proxy_c.Daemon.Events.{Event, occur, CanOccur, Reaches, here, next}

-- The state is sound, and the settings are within their limits.
pub record IsRunning (env : Env) (path : Text) (w : World) : Type 0 where
  pub sound : IsSound env path w
  pub limits : IsWithinLimits w.server

-- `v` is running, its nodes are those of `w`, but for their links, and as many descriptors were
-- opened as its links hold more.
pub record Onward (env : Env) (path : Text) (w v : World) : Type 0 where
  pub running : IsRunning env path v
  pub same_head : v.server.master_head ≡ w.server.master_head
  pub same_nodes : SameNodes w.nodes v.nodes
  pub balance : Balanced env w v

module _ {env : Env} {path : Text} {w v : World} (run : IsRunning env path w) where
  pub IsRunning-Goes : Goes env path w v → IsRunning env path v
  IsRunning-Goes g = record {
    sound = g.sound;
    limits = subst IsWithinLimits (sym g.settings) run.limits;
  }

  IsRunning-Gains : Gains env w v → IsRunning env path v
  IsRunning-Gains g = record {
    sound = record {
      logfile = ap (λ (s : Server). s.logfile) g.server_same ∙ run.sound.logfile;
      tree =
          IsTree-same env w v (ap (λ (s : Server). s.master_head) g.server_same) g.grows g.same_tree
            run.sound.tree;
      linked = g.linked;
    };
    limits = subst IsWithinLimits (sym g.server_same) run.limits;
  }

  IsRunning-Counted : (ms : ℕ) → Counted env w ms v → IsRunning env path v
  IsRunning-Counted ms (tick, settings, grows, kept, same, linked, balance) = record {
    sound = record {
      logfile = ap (λ (s : Server). s.logfile) settings ∙ run.sound.logfile;
      tree =
          IsTree-same env w v (ap (λ (s : Server). s.master_head) settings) grows same
            run.sound.tree;
      linked = linked;
    };
    limits = subst IsWithinLimits (sym settings) (record {
      hz_low = run.limits.hz_low;
      hz_high = run.limits.hz_high;
      interval_low = run.limits.interval_low;
      interval_high = run.limits.interval_high;
    });
  }

  Onward-Goes : Goes env path w v → Onward env path w v
  Onward-Goes g = record {
    running = IsRunning-Goes g;
    same_head = ap (λ (s : Server). s.master_head) g.settings;
    same_nodes = g.same_tree;
    balance = g.balance;
  }

  Onward-Gains : Gains env w v → Onward env path w v
  Onward-Gains g = record {
    running = IsRunning-Gains g;
    same_head = ap (λ (s : Server). s.master_head) g.server_same;
    same_nodes = g.same_tree;
    balance = g.balance;
  }

  Onward-Counted : (ms : ℕ) → Counted env w ms v → Onward env path w v
  Onward-Counted ms (tick, settings, grows, kept, same, linked, balance) = record {
    running = IsRunning-Counted ms (tick, settings, grows, kept, same, linked, balance);
    same_head = ap (λ (s : Server). s.master_head) settings;
    same_nodes = same;
    balance = balance;
  }

Onward-trans :
    {env : Env} {path : Text} {w v u : World}
    → Onward env path w v
    → Onward env path v u
    → Onward env path w u
Onward-trans {env = env} {w = w} {v = v} {u = u} a b = record {
  running = b.running;
  same_head = b.same_head ∙ a.same_head;
  same_nodes = λ p. b.same_nodes p ∙ a.same_nodes p;
  balance = Balanced-trans env w v u a.balance b.balance;
}

IsRunning-asked :
    {env : Env} {path : Text} {w : World} → IsRunning env path w → IsRunning env path (asked w)
IsRunning-asked {env = env} {w = w} run = record {
  sound = record {
    logfile = run.sound.logfile;
    tree = IsTree-same env w (asked w) refl (omega arith) (λ p. refl) run.sound.tree;
    linked = IsLinked-aside env w run.sound.linked _ _ refl;
  };
  limits = record {
    hz_low = run.limits.hz_low;
    hz_high = run.limits.hz_high;
    interval_low = run.limits.interval_low;
    interval_high = run.limits.interval_high;
  };
}

Onward-asked :
    {env : Env} {path : Text} {w : World} → IsRunning env path w → Onward env path w (asked w)
Onward-asked {env = env} {w = w} run = record {
  running = IsRunning-asked run;
  same_head = refl;
  same_nodes = λ p. refl;
  balance = Balanced-fds env w (asked w) refl (λ d. refl);
}

module _ (env : Env) (path : Text) (within : ReadsWithin env)
    (memory : (h : List Call) → env.succeeds h Call.calloc ≡ true) where
  signal-Onward :
      (s : Signal) (w : World)
      → IsRunning env path w
      → (w.server.shutdown && is_sigint s) ≡ false
      → Returns (λ r. Onward env path w) (sig_handler s w)
  unfolding sig_handler
  signal-Onward Signal.other w run first = returned (record {
    running = run;
    same_head = refl;
    same_nodes = λ p. refl;
    balance = Balanced-fds env w w refl (λ d. refl);
  })
  signal-Onward Signal.sigint w run first = rw first (returned (Onward-asked run))
  signal-Onward Signal.sigterm w run first = rw first (returned (Onward-asked run))

  both-Onward :
      (l : ℕ) (w : World)
      → IsRunning env path w
      → CanOccur env w (Event.both l)
      → Returns (λ r. Onward env path w) (occur env (Event.both l) w)
  unfolding occur event_handler CanOccur
  both-Onward l w run (k, live, delivers) =
      Returns-and_then _ (read_handler-stays env path w run.sound within l k live delivers)
        λ r v (g, (j, live')).
          let run' = IsRunning-Goes run g in
          Returns-weaken (write_handler-Goes env path v run'.sound l j live')
            λ r' u g'. Onward-trans (Onward-Goes run g) (Onward-Goes run' g')

  pub occur-Onward :
      (e : Event) (w : World)
      → IsRunning env path w
      → CanOccur env w e
      → Returns (λ r. Onward env path w) (occur env e w)
  unfolding occur event_handler CanOccur server_before_sleep
  occur-Onward (Event.readable l) w run (k, live) =
      Returns-and_then _ (read_handler-Goes env path w run.sound within l k live)
        λ r v g. returned (Onward-Goes run g)
  occur-Onward (Event.writable l) w run (k, live) =
      Returns-weaken (write_handler-Goes env path w run.sound l k live) λ r v g. Onward-Goes run g
  occur-Onward (Event.both l) w run can = both-Onward l w run can
  occur-Onward Event.timer w run few =
      Returns-and_then _
        (server_cron-Counted env w path run.sound.logfile memory run.sound.linked run.sound.tree
          run.limits few)
        λ ms v c. returned (Onward-Counted run ms c)
  occur-Onward Event.sleep w run can =
      Returns-weaken (serial_before_sleep-Gains env w run.sound.linked run.sound.tree)
        λ r v g. Onward-Gains run g
  occur-Onward (Event.signal s) w run first = signal-Onward s w run first

  -- With memory, and a `read` that brings no more than it was asked for, a running daemon handles
  -- every event that may occur: the handler returns (it meets no dangling or NULL pointer, no
  -- overflow, no division by zero, and its loops end), and leaves a running daemon. An event may
  -- occur on a live link, readable and writable at once only if the read does not fail; the timer
  -- as long as the counter of its calls is below the limit of an `int`; SIGINT as long as no
  -- shutdown was asked for.
  pub occur-IsRunning :
      (e : Event) (w : World)
      → IsRunning env path w
      → CanOccur env w e
      → Returns (λ r. IsRunning env path) (occur env e w)
  occur-IsRunning e w run can = Returns-weaken (occur-Onward e w run can) λ r v o. o.running

  -- So every state that events lead to is that of a running daemon: the lists are well formed, nodes
  -- and links lead to each other, every descriptor of a link is open, every live link has a
  -- descriptor and an array of its full size that holds all that is said to wait in it, and the
  -- settings are within their limits.
  pub Reaches-IsRunning :
      {w v : World} → IsRunning env path w → Reaches env w v → IsRunning env path v
  Reaches-IsRunning run here = run
  Reaches-IsRunning run (next {v = v} e reached can result) =
      Returns-result (occur-IsRunning e v (Reaches-IsRunning run reached) can) result

  -- With memory, and a `read` that brings no more than it was asked for, the devices that the nodes of
  -- a running daemon stand for are the same in every state that events lead to.
  pub Reaches-Shows :
      {w v : World} (ds : List Device)
      → IsRunning env path w
      → Shows ds w
      → Reaches env w v
      → Shows ds v
  Reaches-Shows ds run shown here = shown
  Reaches-Shows {w = w} {v = u} ds run shown (next {v = v} e reached can result) =
      let o : Onward env path v u =
        Returns-result (occur-Onward e v (Reaches-IsRunning run reached) can) result in
      Shows-same v u o.same_nodes ds o.same_head (Reaches-Shows ds run shown reached)

  -- With memory, and a `read` that brings no more than it was asked for: in every state that events
  -- lead to from a running daemon, every descriptor that live links hold is open, at least as often
  -- as they hold it, and of each as many were opened since, and not closed again, as the links
  -- hold more than they did. The descriptors counted are those that `open`
  -- and `openpty` give for devices; the file of the log is not among them.
  pub Reaches-Balanced :
      {w v : World} → IsRunning env path w → Reaches env w v → AllOpen env v × Balanced env w v
  Reaches-Balanced {w = w} run here =
      (run.sound.linked.open_all, Balanced-fds env w w refl (λ d. refl))
  Reaches-Balanced {w = w} {v = u} run (next {v = v} e reached can result) =
      let o : Onward env path v u =
        Returns-result (occur-Onward e v (Reaches-IsRunning run reached) can) result in
      (
        o.running.sound.linked.open_all,
        Balanced-trans env w v u ((Reaches-Balanced run reached).1) o.balance,
      )
