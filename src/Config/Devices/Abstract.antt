-- ===== src/Config/Devices/Abstract.antt =====
-- What the file of serial devices says, as a list of devices with their virtuals: no addresses, no
-- pointers and no flags.
use serial_proxy_c.Prelude.{
  Bool, true, false, List, [], ◌∷◌, ◌++◌, if◌then◌else◌, any, change_first,
}
use serial_proxy_c.Prelude.Int.{ℤ, pos}
use serial_proxy_c.Prelude.Text.{Text, codes, text_eq, atoi, tokens}
use serial_proxy_c.Machine.Types.{Entry}
use serial_proxy_c.Config.Devices.{Key, key_of}

pub record Virtual : Type 0 where
  pub name : Text
  pub is_writer : Bool

pub record Device : Type 0 where
  pub name : Text
  pub baudrate : ℤ
  pub virtuals : List Virtual

abbrev pub is_device : Text → Device → Bool
is_device name d = text_eq name d.name

abbrev pub is_virtual : Text → Virtual → Bool
is_virtual name v = text_eq name v.name

-- A device that has not been named before comes first, with 9600 baud and no virtuals.
abbrev pub with_device : Text → List Device → List Device
with_device name ds =
    if any (is_device name) ds
    then ds
    else record { name = name; baudrate = pos 9600; virtuals = [] } ∷ ds

-- A virtual that the device does not have yet comes first, and is no writer.
abbrev pub with_virtual : Text → Device → Device
with_virtual name d =
    if any (is_virtual name) d.virtuals
    then d
    else record d { virtuals = record { name = name; is_writer = false } ∷ d.virtuals }

-- The virtual becomes a writer, if the device has it.
abbrev pub with_writer : Text → Device → Device
with_writer name d = record d {
  virtuals =
      change_first (is_virtual name) (λ (v : Virtual). record v { is_writer = true }) d.virtuals;
}

-- A virtual is named after its device.
abbrev pub full_name : Text → Text → Text
full_name section token = section ++ codes "." ++ token

abbrev pub with_virtuals : Text → List Text → List Device → List Device
with_virtuals section [] ds = ds
with_virtuals section (token ∷ rest) ds =
    with_virtuals section rest
      (change_first (is_device section) (with_virtual (full_name section token)) ds)

abbrev pub said : Key → Entry → List Device → List Device
said Key.baudrate e ds =
    change_first (is_device e.section) (λ (d : Device). record d { baudrate = atoi e.value }) ds
said Key.virtuals e ds = with_virtuals e.section (tokens e.value) ds
said Key.writer e ds =
    change_first (is_device e.section) (with_writer (full_name e.section e.value)) ds
said Key.unknown e ds = ds

-- All entries of a file in order.
unfoldable pub devices_of : List Entry → List Device → List Device
devices_of [] ds = ds
devices_of (e ∷ es) ds = devices_of es (said (key_of e.name) e (with_device e.section ds))
