-- ===== src/Config/Devices/Load.antt =====
-- The file of serial devices as a whole: serialLoadConfig of src/config.c.
use serial_proxy_c.Prelude.{ℕ, ◌≡◌, refl, true, some, List, [], ◌∷◌, All}
use serial_proxy_c.Prelude.Text.{Text, atoi, tokens}
use serial_proxy_c.Machine.Types.{Server, Call, Entry, Env, World}
use serial_proxy_c.Machine.Memory.{change_node-some}
use serial_proxy_c.Machine.Returns.{Returns, returned, Returns-and_then}
use serial_proxy_c.Config.Settings.{hand_over}
use serial_proxy_c.Config.Settings.Load.{IsInt, to_int_lem, HasMemory}
use serial_proxy_c.Config.Devices.{
  Key, key_of, set_baudrate, apply_key, serial_config_handler, serial_load_config,
}
use serial_proxy_c.Config.Devices.Heap.{IsWell, IsWell-trace}
use serial_proxy_c.Config.Devices.Adopt.{IsWell-change}
use serial_proxy_c.Serial.Device.Configure.{HasSpeed}
use serial_proxy_c.Prelude.Int.{pos}
use serial_proxy_c.Config.Devices.Build.{
  WellAt, NameFits, section_node-WellAt, add_virtuals-WellAt, mark_writer-IsWell, virtual_name-some,
}

-- A baud rate fits an `int` and can be set, and the names of virtuals fit their buffer.
abbrev pub IsUsableFor : Env → Key → Entry → Type 0
IsUsableFor env Key.baudrate e = IsInt (atoi e.value) × HasSpeed env (atoi e.value)
IsUsableFor env Key.virtuals e = All (NameFits e.section) (tokens e.value)
IsUsableFor env Key.writer e = NameFits e.section e.value
IsUsableFor env Key.unknown e = Unit

abbrev pub IsUsable : Env → Entry → Type 0
IsUsable env e = IsUsableFor env (key_of e.name) e

module _ (env : Env) (s : Server) (memory : (h : List Call) → env.succeeds h Call.calloc ≡ true)
    (copies : HasMemory env) (default : HasSpeed env (pos 9600)) where
  set_baudrate-IsWell :
      (p : ℕ) (value : Text) (w : World)
      → IsInt (atoi value)
      → HasSpeed env (atoi value)
      → WellAt env s p w
      → Returns (λ r. IsWell env s) (set_baudrate p value w)
  unfolding set_baudrate
  set_baudrate-IsWell p value w fits has (well, n, at, kind) =
      rw
        (
          to_int_lem (atoi value) w fits,
          change_node-some w p (λ m. record m { baudrate = atoi value }) at,
        )
        (returned
          (IsWell-change env s w well w.trace p n _ at refl refl refl refl refl (λ e. has) refl))

  apply_key-IsWell :
      (key : Key) (p : ℕ) (e : Entry) (w : World)
      → IsUsableFor env key e
      → WellAt env s p w
      → Returns (λ r. IsWell env s) (apply_key env key p e w)
  unfolding apply_key
  apply_key-IsWell Key.baudrate p e w usable well =
      set_baudrate-IsWell p e.value w usable.0 usable.1 well
  apply_key-IsWell Key.virtuals p e w usable (well, n, at, kind) =
      let t : List Call = Call.strdup ∷ w.trace in
      rw (copies w.trace) (
        Returns-and_then _
          (add_virtuals-WellAt env s memory default e.section p (tokens e.value)
            (record w { trace = t }) usable (IsWell-trace t well, n, at, kind))
          λ r v well'. returned well'.0)
  apply_key-IsWell Key.writer p e w usable well = rw (virtual_name-some e.section e.value usable) (
      Returns-and_then _ (mark_writer-IsWell env s memory default p _ w well)
        λ r v well'. returned well')
  apply_key-IsWell Key.unknown p e w usable well = returned well.0

  pub serial_config_handler-IsWell :
      (e : Entry) (w : World)
      → IsUsable env e
      → IsWell env s w
      → Returns (λ r. IsWell env s) (serial_config_handler env e w)
  unfolding serial_config_handler
  serial_config_handler-IsWell e w usable well =
      Returns-and_then _ (section_node-WellAt env s memory default e.section w well)
        λ p v well'. apply_key-IsWell (key_of e.name) p e v usable well'

  hand_over-IsWell :
      (es : List Entry) (w : World)
      → All (IsUsable env) es
      → IsWell env s w
      → Returns (λ r. IsWell env s) (hand_over (serial_config_handler env) es w)
  unfolding hand_over
  hand_over-IsWell [] w usable well = returned well
  hand_over-IsWell (e ∷ es) w (usable, rest) well =
      Returns-and_then _ (serial_config_handler-IsWell e w usable well)
        λ r v well'. hand_over-IsWell es v rest well'

  -- With memory, a file that can be opened, baud rates that fit an `int` and can be set, as the
  -- default one can, and names of virtuals that fit their buffer, serialLoadConfig returns; it keeps
  -- masters and virtuals well-formed lists, in which virtuals have a live master and no virtuals of
  -- their own, every node without a link, every address that was not given out free, and the
  -- settings as they were.
  pub serial_load_config-IsWell :
      (filename : Text) (es : List Entry) (w : World)
      → env.ini_entries filename ≡ some es
      → All (IsUsable env) es
      → IsWell env s w
      → Returns (λ r. IsWell env s) (serial_load_config env (some filename) w)
  unfolding serial_load_config
  serial_load_config-IsWell filename es w opened usable well =
      rw opened (hand_over-IsWell es w usable well)
