-- ===== src/Config/Devices/Refine.antt =====
-- serialLoadConfig of src/config.c implements the list of devices that the file says.
use serial_proxy_c.Prelude.{ℕ, ◌≡◌, true, ◌<◌, some, List, [], ◌∷◌, length, All}
use serial_proxy_c.Prelude.Int.{pos}
use serial_proxy_c.Prelude.Text.{Text, tokens}
use serial_proxy_c.Machine.Types.{Server, Call, Entry, Env, World}
use serial_proxy_c.Machine.Returns.{
  Returns, returned, Returns-and_then, Returns-both, Returns-weaken,
}
use serial_proxy_c.Serial.Device.Configure.{HasSpeed}
use serial_proxy_c.Serial.Nodes.{path_max}
use serial_proxy_c.Config.Settings.{hand_over}
use serial_proxy_c.Config.Settings.Load.{HasMemory}
use serial_proxy_c.Config.Devices.{
  Key, key_of, apply_key, serial_config_handler, serial_load_config,
}
use serial_proxy_c.Config.Devices.Abstract.{Device, with_device, said, devices_of}
use serial_proxy_c.Config.Devices.Shows.{Shows, ShowsAt}
use serial_proxy_c.Config.Devices.Heap.{IsWell, IsWell-trace}
use serial_proxy_c.Config.Devices.Build.{section_node-WellAt, virtual_name-some}
use serial_proxy_c.Config.Devices.Load.{IsUsable, IsUsableFor, serial_config_handler-IsWell}
use serial_proxy_c.Config.Devices.Grown.{section_node-ShowsAt}
use serial_proxy_c.Config.Devices.Changed.{set_baudrate-ShowsAt}
use serial_proxy_c.Config.Devices.Virtuals.{add_virtuals-ShowsAt}
use serial_proxy_c.Config.Devices.Writers.{mark_writer-ShowsAt}

-- The entry is usable, and the name of its section fits the name of a node.
abbrev pub IsSoundEntry : Env → Entry → Type 0
IsSoundEntry env e = IsUsable env e × (length e.section < path_max)

Shows-of_ShowsAt :
    (name : Text) (p : ℕ) (ds : List Device) (w : World) → ShowsAt name p ds w → Shows ds w
Shows-of_ShowsAt name p ds w (ms, c, found, m) = (ms, c, m)

module _ (env : Env) (s : Server) (memory : (h : List Call) → env.succeeds h Call.calloc ≡ true)
    (copies : HasMemory env) (default : HasSpeed env (pos 9600)) where
  apply_key-Shows :
      (key : Key) (p : ℕ) (e : Entry) (ds : List Device) (w : World)
      → IsUsableFor env key e
      → IsWell env s w
      → ShowsAt e.section p ds w
      → Returns (λ r. Shows (said key e ds)) (apply_key env key p e w)
  unfolding apply_key
  apply_key-Shows Key.baudrate p e ds w usable well shown =
      Returns-weaken (set_baudrate-ShowsAt env s e.section p e.value ds w usable.0 well shown)
        λ r v. Shows-of_ShowsAt e.section p _ v
  apply_key-Shows Key.virtuals p e ds w usable well shown =
      let t : List Call = Call.strdup ∷ w.trace in
      rw (copies w.trace) (
        Returns-and_then _
          (add_virtuals-ShowsAt env s memory default e.section p (tokens e.value) ds
            (record w { trace = t }) usable (IsWell-trace t well) shown)
          λ r v shown'. returned (Shows-of_ShowsAt e.section p _ v shown'))
  apply_key-Shows Key.writer p e ds w usable well shown =
      rw (virtual_name-some e.section e.value usable) (
        Returns-and_then _ (mark_writer-ShowsAt env s e.section p w well _ ds shown)
          λ r v shown'. returned (Shows-of_ShowsAt e.section p _ v shown'))
  apply_key-Shows Key.unknown p e ds w usable well shown =
      returned (Shows-of_ShowsAt e.section p ds w shown)

  serial_config_handler-Shows :
      (e : Entry) (ds : List Device) (w : World)
      → IsSoundEntry env e
      → IsWell env s w
      → Shows ds w
      → Returns
          (λ r. Shows (said (key_of e.name) e (with_device e.section ds)))
          (serial_config_handler env e w)
  unfolding serial_config_handler
  serial_config_handler-Shows e ds w (usable, short) well shown =
      Returns-and_then _
        (Returns-both (section_node-WellAt env s memory default e.section w well)
          (section_node-ShowsAt env s memory e.section ds w short well shown))
        λ p v ((well', n, at, kind), shown').
          apply_key-Shows (key_of e.name) p e (with_device e.section ds) v usable well' shown'

  hand_over-Shows :
      (es : List Entry) (ds : List Device) (w : World)
      → All (IsSoundEntry env) es
      → IsWell env s w
      → Shows ds w
      → Returns
          (λ r v. Shows (devices_of es ds) v × IsWell env s v)
          (hand_over (serial_config_handler env) es w)
  unfolding hand_over devices_of
  hand_over-Shows [] ds w sound well shown = returned (shown, well)
  hand_over-Shows (e ∷ es) ds w (sound, rest) well shown =
      Returns-and_then _
        (Returns-both (serial_config_handler-IsWell env s memory copies default e w sound.0 well)
          (serial_config_handler-Shows e ds w sound well shown))
        λ r v (well', shown').
          hand_over-Shows es (said (key_of e.name) e (with_device e.section ds)) v rest well' shown'

  -- With memory, a file that can be opened, baud rates that fit an `int` and can be set, as the
  -- default one can, and names of sections and virtuals that fit their buffers, serialLoadConfig
  -- returns; where the nodes in memory stood for a list of devices, they then stand for that list as
  -- the entries of the file, one after the other, change it: the masters are its devices in order,
  -- with their names and baud rates, and the virtuals of each are in order, with their names and the
  -- writers marked.
  pub serial_load_config-Shows :
      (filename : Text) (es : List Entry) (ds : List Device) (w : World)
      → env.ini_entries filename ≡ some es
      → All (IsSoundEntry env) es
      → IsWell env s w
      → Shows ds w
      → Returns
          (λ r v. Shows (devices_of es ds) v × IsWell env s v)
          (serial_load_config env (some filename) w)
  unfolding serial_load_config
  serial_load_config-Shows filename es ds w opened sound well shown =
      rw opened (hand_over-Shows es ds w sound well shown)
