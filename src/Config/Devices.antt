-- ===== src/Config/Devices.antt =====
-- The file of serial devices: _serialConfigHandler and serialLoadConfig of src/config.c.
pub mod Abstract
pub mod Shows
pub mod Heap
pub mod Adopt
pub mod Build
pub mod Grown
pub mod Changed
pub mod Virtuals
pub mod Writers
pub mod Load
pub mod Refine
pub mod Stays
pub mod Lookup
pub mod Found
use serial_proxy_c.Prelude.{ℕ, Bool, true, false, Option, none, some, List, [], ◌∷◌, if◌then◌else◌}
use serial_proxy_c.Prelude.Flags.{add_flag}
use serial_proxy_c.Prelude.Text.{Text, codes, case_eq, atoi, tokens}
use serial_proxy_c.Machine.Types.{Entry, Env}
use serial_proxy_c.Machine.Monad.{M, pure, exit, ◌>>=◌, ◌>>◌, skip, deref, change_node, to_int}
use serial_proxy_c.Serial.Nodes.{
  flag_master, flag_virtual, flag_writer, path_max, create_node, add_node, add_virtual_node,
  get_node, get_virtual_node, virtual_name,
}
use serial_proxy_c.Config.Settings.{duplicate, parse_or_exit}

create_master : Env → Text → M ℕ
create_master env section = do
  p ← create_node env (some section) flag_master
  p ← deref p
  add_node p
  pure p

-- The node of a section, which is created when it is first named.
pub section_node : Env → Text → M ℕ
unfolding create_master
section_node env section = do
  found ← get_node section
  elim found [ none ↦ create_master env section | some p ↦ pure p ]

pub set_baudrate : ℕ → Text → M Bool
set_baudrate p value = do
  z ← to_int (atoi value)
  change_node p (λ n. record n { baudrate = z })
  pure true

create_virtual : Env → ℕ → Text → M (Unit {0})
create_virtual env master name = do
  v ← create_node env (some name) flag_virtual
  v ← deref v
  add_virtual_node master v

-- One round of the `strtok` loop, with the outcome of serialVirtualName.
pub ensure_virtual : Env → ℕ → Option Text → M (Unit {0})
unfolding create_virtual
ensure_virtual env master none = exit 1
ensure_virtual env master (some name) = do
  found ← get_virtual_node master name
  elim found [ none ↦ create_virtual env master name | some v ↦ skip ]

pub add_virtuals : Env → Text → ℕ → List Text → M (Unit {0})
unfolding ensure_virtual
add_virtuals env section master [] = skip
add_virtuals env section master (token ∷ rest) = do
  ensure_virtual env master (virtual_name section token path_max)
  add_virtuals env section master rest

pub mark_writer : ℕ → Option Text → M (Unit {0})
mark_writer master none = exit 1
mark_writer master (some name) = do
  found ← get_virtual_node master name
  elim found [
    | none ↦ skip
    | some v ↦ change_node v (λ n. record n { flags = add_flag n.flags flag_writer })
  ]

pub data Key : Type 0 where
  baudrate virtuals writer unknown : Key

-- The chain of `N_MATCH` tests, which ignore case.
unfoldable pub key_of : Text → Key
unfolding case_eq
key_of name =
    if case_eq name (codes "baudrate")
    then Key.baudrate
    else if case_eq name (codes "virtuals")
    then Key.virtuals
    else if case_eq name (codes "writer")
    then Key.writer
    else Key.unknown

apply_key : Env → Key → ℕ → Entry → M Bool
unfolding set_baudrate add_virtuals mark_writer
apply_key env Key.baudrate p e = set_baudrate p e.value
apply_key env Key.virtuals p e = do
  str ← duplicate env e.value
  add_virtuals env e.section p (tokens str)
  pure true
apply_key env Key.writer p e = do mark_writer p (virtual_name e.section e.value path_max); pure true
apply_key env Key.unknown p e = pure false

unfoldable pub serial_config_handler : Env → Entry → M Bool
unfolding section_node apply_key key_of
serial_config_handler env e = do p ← section_node env e.section; apply_key env (key_of e.name) p e

-- A name of `none` is NULL.
unfoldable pub serial_load_config : Env → Option Text → M (Unit {0})
serial_load_config env none = exit 1
serial_load_config env (some filename) =
    parse_or_exit (serial_config_handler env) (env.ini_entries filename)
