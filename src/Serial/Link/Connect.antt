-- ===== src/Serial/Link/Connect.antt =====
-- serialConnectNode of src/serial.c on a node without a link.
use serial_proxy_c.Prelude.{
  ℕ, suc, ◌≡◌, refl, Bool, true, false, Option, none, some, List, ◌∷◌, ◌++◌, arith, if◌then◌else◌,
  is_some, to_list,
}
use serial_proxy_c.Prelude.Text.{Text}
use serial_proxy_c.Machine.Types.{Node, Call, Env, World}
use serial_proxy_c.Machine.Monad.{pure, ◌>>=◌, update, load_link}
use serial_proxy_c.Machine.Memory.{
  load_node-some, load_link-some, change_node-some, update_same, update-update,
}
use serial_proxy_c.Machine.Returns.{Returns, returned, Returns-and_then}
use serial_proxy_c.Serial.Nodes.{node_is_master}
use serial_proxy_c.Serial.Nodes.Lists.{IsVirtuals}
use serial_proxy_c.Serial.Device.{configure}
use serial_proxy_c.Serial.Device.Configure.{HasSpeed, configure-Keeps, configure-none}
use serial_proxy_c.Serial.Device.Open.{Started, started, open_device-Started}
use serial_proxy_c.Serial.Link.{new_link, watch, attach, finish_link, create_link, connect_node}
use serial_proxy_c.Serial.Link.Flags.{flags_of, event_flags-flags_of}
use serial_proxy_c.Serial.Link.Close.{link_io_error-unowned}
use serial_proxy_c.Serial.Link.Descriptors.{open_fds, open_fds-closing}
use serial_proxy_c.Serial.Link.Building.{
  Building, building, unowned, setting_up, change_link-unowned,
}

-- What serialConnectNode may leave, by its result. On success the node has a new link with an empty
-- buffer, whose descriptors are the only ones that were opened, and the event loop watches it for
-- the flags of the node. On failure no node, no link and no open descriptor differs from before.
pub data Connected (env : Env) (w : World) (p : ℕ) (n : Node) (vs : List ℕ)
    : Bool → World → Type 0 where
  connected :
      (fd : ℕ) (sfd : Option ℕ) {t : List Call}
      → open_fds env t ≡ to_list sfd ++ (fd ∷ open_fds env w.trace)
      → Connected env w p n vs true (record w {
        nodes = update w.nodes p (some (record n { link = some w.fresh }));
        links =
            update w.links w.fresh
              (some (record (new_link env) { fd = some fd; sfd = sfd; node = some p }));
        fresh = suc w.fresh;
        trace = Call.create_file_event fd (flags_of w.nodes vs n) w.fresh ∷ t;
      })
  unconnected :
      {t : List Call}
      → open_fds env t ≡ open_fds env w.trace
      → Connected env w p n vs false
          (record w { links = update w.links w.fresh none; fresh = suc w.fresh; trace = t })

module _ (env : Env) (w : World) (p : ℕ) (n : Node) (vs : List ℕ) where
  -- The label `err`.
  give_up-Connected :
      (fd sfd : Option ℕ) (v : World)
      → Building env w fd sfd v
      → Returns (λ r. Connected env w p n vs (is_some r)) (finish_link env p w.fresh false v)
  unfolding finish_link
  give_up-Connected fd sfd _ (building {t = t} h) =
      rw
        (
          link_io_error-unowned (setting_up env w fd sfd t) w.fresh (unowned env fd sfd)
              (update_same w.links w.fresh (some (unowned env fd sfd))) refl,
          update-update w.links w.fresh (some (unowned env fd sfd)) none,
        )
        (returned (unconnected (open_fds-closing env fd sfd w.trace t h)))

  module _ (at : w.nodes p ≡ some n) (is : IsVirtuals w n vs) where
    attach-Connected :
        (fd : ℕ) (sfd : Option ℕ) (v : World)
        → Building env w (some fd) sfd v
        → Returns (λ r. Connected env w p n vs (is_some r)) (attach env p w.fresh v)
    unfolding attach watch
    attach-Connected fd sfd _ (building {t = t} h) =
        let v = setting_up env w (some fd) sfd t in
        let is_later : IsVirtuals v n vs = (is.0, omega (arith, is.1)) in
        let flags = flags_of w.nodes vs n in
        let w1 : World = record w {
          nodes = update w.nodes p (some (record n { link = some w.fresh }));
        } in
        let t1 : List Call = Call.create_file_event fd flags w.fresh ∷ t in
        rw
          (
            load_link-some v w.fresh
                (update_same w.links w.fresh (some (unowned env (some fd) sfd))),
            event_flags-flags_of v p n vs at is_later,
            change_node-some (setting_up env w (some fd) sfd t1) p
                (λ m. record m { link = some w.fresh }) at,
            change_link-unowned env w1 (some fd) sfd t1 (λ k. record k { node = some p }),
          )
          (returned (connected fd sfd h))

    finish_link-Connected :
        (fd : ℕ) (sfd : Option ℕ) (ready : Bool) (v : World)
        → Building env w (some fd) sfd v
        → Returns (λ r. Connected env w p n vs (is_some r)) (finish_link env p w.fresh ready v)
    unfolding finish_link
    finish_link-Connected fd sfd true v b = attach-Connected fd sfd v b
    finish_link-Connected fd sfd false v b = give_up-Connected (some fd) sfd v b

    module _ (path : Text) (set : w.server.logfile ≡ some path)
        (has : node_is_master n ≡ true → HasSpeed env n.baudrate) where
      -- What _serialCreateLink does behind the opening of the device.
      configured-Connected :
          (opened : Bool) (fd sfd : Option ℕ) (v : World)
          → Building env w fd sfd v
          → Returns
              (λ r. Connected env w p n vs (is_some r))
              (((if opened then configure env fd n else pure false) >>= finish_link env p w.fresh)
                v)
      configured-Connected false fd sfd v b = give_up-Connected fd sfd v b
      configured-Connected true none sfd v b =
          Returns-and_then _ (configure-none env w sfd path n set v b)
            λ ready u (e, b'). rw e (give_up-Connected none sfd u b')
      configured-Connected true (some fd) sfd v b =
          Returns-and_then _ (configure-Keeps path set n has v b) (finish_link-Connected fd sfd)

      begun-Connected :
          (opened : Bool) (fd sfd : Option ℕ) (v : World)
          → Building env w fd sfd v
          → Returns
              (λ r. Connected env w p n vs (is_some r))
              ((do
                k ← load_link w.fresh
                ready ← if opened then configure env k.fd n else pure false
                finish_link env p w.fresh ready)
                v)
      begun-Connected opened fd sfd _ (building {t = t} h) =
          rw
            (load_link-some (setting_up env w fd sfd t) w.fresh
              (update_same w.links w.fresh (some (unowned env fd sfd))))
            (configured-Connected opened fd sfd _ (building h))

      opened-Connected :
          (opened : Bool) (v : World)
          → Started env w v
          → Returns
              (λ r. Connected env w p n vs (is_some r))
              ((do
                k ← load_link w.fresh
                ready ← if opened then configure env k.fd n else pure false
                finish_link env p w.fresh ready)
                v)
      opened-Connected opened v (started b) = begun-Connected opened _ _ v b

      create_link-Connected :
          env.succeeds w.trace Call.calloc ≡ true
          → Returns (λ r. Connected env w p n vs (is_some r)) (create_link env p w)
      unfolding create_link
      create_link-Connected memory =
          let t : List Call = Call.calloc ∷ w.trace in
          rw (memory, load_node-some (setting_up env w none none t) p at)
            (Returns-and_then _ (open_device-Started env w path set n t refl) opened-Connected)

      -- serialConnectNode on a live node without a link, with a log file, memory, a well-formed
      -- list of virtuals and, for a master, a speed that can be set: it returns, and what it leaves
      -- is as its result says. On failure every descriptor that it opened is closed again, and no
      -- node and no other link differs; on success the node has a new link, which holds exactly the
      -- descriptors that were opened, and its events are registered.
      pub connect_node-Connected :
          n.link ≡ none
          → env.succeeds w.trace Call.calloc ≡ true
          → Returns (Connected env w p n vs) (connect_node env p w)
      unfolding connect_node
      connect_node-Connected free memory =
          let unlinked : is_some n.link ≡ false = rw free in
          rw (load_node-some w p at, unlinked)
            (Returns-and_then _ (create_link-Connected memory) λ r v c. returned c)
