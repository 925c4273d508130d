-- ===== src/Config/Devices/Lookup.antt =====
-- Which device serialGetNode finds after the file of devices is loaded, and with which baud rate.
use serial_proxy_c.Prelude.{
  ◌≡◌, ◌⊎◌, refl, ◌∙◌, ap, sym, subst, inl, inr, Bool, true, false, Option, none, some, List, [],
  ◌∷◌, arith, if◌then◌else◌, Bool-cases, any, change_first,
}
use serial_proxy_c.Prelude.Int.{ℤ, pos}
use serial_proxy_c.Prelude.Text.{Text, text_eq, text_eq_refl, eq_of_text_eq, atoi, tokens}
use serial_proxy_c.Machine.Types.{Entry}
use serial_proxy_c.Config.Devices.{Key, key_of}
use serial_proxy_c.Config.Devices.Abstract.{
  Device, is_device, is_virtual, with_device, with_virtual, with_writer, with_virtuals, full_name,
  said, devices_of,
}

-- The baud rate of the first device of a name.
abbrev pub rate_in : Text → List Device → Option ℤ
rate_in name [] = none
rate_in name (d ∷ ds) =
    let rest = rate_in name ds in if is_device name d then some d.baudrate else rest

-- A device that was not known has 9600 baud.
abbrev pub or_default : Option ℤ → ℤ
or_default none = pos 9600
or_default (some z) = z

-- What an entry makes of the baud rate of its section.
abbrev pub rate_by : Key → Text → Option ℤ → ℤ
rate_by Key.baudrate value old = atoi value
rate_by _ value old = or_default old

-- The baud rate that the entries for a section leave: that of the last line `baudrate`, or else the
-- one before, which is 9600 for a section that is new; none, if no entry names the section.
unfoldable pub rate_said : Text → List Entry → Option ℤ → Option ℤ
rate_said name [] old = old
rate_said name (e ∷ es) old =
    rate_said name es
      (if text_eq name e.section then some (rate_by (key_of e.name) e.value old) else old)

-- Another device is changed.
rate_in-other :
    (name section : Text) (f : Device → Device) (ds : List Device)
    → ((d : Device) → (f d).name ≡ d.name)
    → text_eq name section ≡ false
    → rate_in name (change_first (is_device section) f ds) ≡ rate_in name ds
rate_in-other name section f [] keeps other = refl
rate_in-other name section f (d ∷ ds) keeps other = elim (Bool-cases (is_device section d)) [
  | inl hit ↦
      let same : section ≡ d.name = eq_of_text_eq section d.name hit in
      let miss : is_device name d ≡ false = ap (λ x. text_eq name x) (sym same) ∙ other in
      let miss' : is_device name (f d) ≡ false = ap (λ x. text_eq name x) (keeps d) ∙ miss in
      rw (hit, miss', miss)
  | inr miss ↦ rw (miss, rate_in-other name section f ds keeps other)
]

-- The baud rate of the device itself is changed.
rate_in-set :
    (name : Text) (z : ℤ) (ds : List Device)
    → any (is_device name) ds ≡ true
    → rate_in name (change_first (is_device name) (λ (d : Device). record d { baudrate = z }) ds)
      ≡ some z
rate_in-set name z [] e = cc
rate_in-set name z (d ∷ ds) e = elim (Bool-cases (is_device name d)) [
  | inl hit ↦ rw (hit, hit)
  | inr miss ↦ rw (miss, miss) (rate_in-set name z ds (ground arith))
]

-- A change that keeps names and baud rates.
rate_in-kept :
    (name : Text) (test : Device → Bool) (f : Device → Device) (ds : List Device)
    → ((d : Device) → (f d).name ≡ d.name)
    → ((d : Device) → (f d).baudrate ≡ d.baudrate)
    → rate_in name (change_first test f ds) ≡ rate_in name ds
rate_in-kept name test f [] keeps rates = refl
rate_in-kept name test f (d ∷ ds) keeps rates =
    let same : is_device name (f d) ≡ is_device name d = ap (λ x. text_eq name x) (keeps d) in
    elim (Bool-cases (test d)) [
      | inl hit ↦ rw (hit, same, rates d)
      | inr miss ↦ rw (miss, rate_in-kept name test f ds keeps rates)
    ]

with_virtual-name : (name : Text) (d : Device) → (with_virtual name d).name ≡ d.name
with_virtual-name name d = elim (Bool-cases (any (is_virtual name) d.virtuals)) [
  | inl has ↦ rw has
  | inr lacks ↦ rw lacks
]

with_virtual-baudrate : (name : Text) (d : Device) → (with_virtual name d).baudrate ≡ d.baudrate
with_virtual-baudrate name d = elim (Bool-cases (any (is_virtual name) d.virtuals)) [
  | inl has ↦ rw has
  | inr lacks ↦ rw lacks
]

with_virtuals-rate :
    (name section : Text) (names : List Text) (ds : List Device)
    → rate_in name (with_virtuals section names ds) ≡ rate_in name ds
with_virtuals-rate name section [] ds = refl
with_virtuals-rate name section (token ∷ names) ds =
    let virtual = full_name section token in
    with_virtuals-rate name section names _
    ∙ rate_in-kept name (is_device section) (with_virtual virtual) ds (with_virtual-name virtual)
        (with_virtual-baudrate virtual)

-- A device is known exactly if it has a baud rate.
rate_in-any :
    (name : Text) (ds : List Device)
    → ((any (is_device name) ds ≡ true) × (z : ℤ) × (rate_in name ds ≡ some z))
      ⊎ ((any (is_device name) ds ≡ false) × (rate_in name ds ≡ none))
rate_in-any name [] = inr (refl, refl)
rate_in-any name (d ∷ ds) = elim (Bool-cases (is_device name d)) [
  | inl hit ↦ inl (rw hit, d.baudrate, rw hit)
  | inr miss ↦ elim (rate_in-any name ds) [
    | inl (known, z, e) ↦ inl (rw (miss, known), z, rw (miss, e))
    | inr (unknown, e) ↦ inr (rw (miss, unknown), rw (miss, e))
  ]
]

-- The device of a section is there, and others are as before.
with_device-rate :
    (name section : Text) (ds : List Device)
    → rate_in name (with_device section ds)
      ≡ (if text_eq name section then some (or_default (rate_in name ds)) else rate_in name ds)
with_device-rate name section ds = elim (Bool-cases (text_eq name section)) [
  | inl named ↦
      let same : name ≡ section = eq_of_text_eq name section named in
      subst
        (λ x.
          rate_in name (with_device x ds)
          ≡ (if text_eq name x then some (or_default (rate_in name ds)) else rate_in name ds))
        same
        (elim (rate_in-any name ds) [
          | inl (known, z, e) ↦ rw (known, text_eq_refl name, e)
          | inr (unknown, e) ↦ rw (unknown, text_eq_refl name, e)
        ])
  | inr other ↦ elim (Bool-cases (any (is_device section) ds)) [
    | inl known ↦ rw (known, other)
    | inr unknown ↦ rw (unknown, other)
  ]
]

any-with_device :
    (name : Text) (ds : List Device) → any (is_device name) (with_device name ds) ≡ true
any-with_device name ds = elim (Bool-cases (any (is_device name) ds)) [
  | inl known ↦ rw (known, known)
  | inr unknown ↦ rw (unknown, text_eq_refl name)
]

said-rate :
    (name : Text) (key : Key) (e : Entry) (ds : List Device)
    → rate_in name (said key e (with_device e.section ds)) ≡ (
        if text_eq name e.section
        then some (rate_by key e.value (rate_in name ds))
        else rate_in name ds)
said-rate name Key.baudrate e ds = elim (Bool-cases (text_eq name e.section)) [
  | inl named ↦
      let same : name ≡ e.section = eq_of_text_eq name e.section named in
      rw named (
        subst
          (λ x.
            rate_in name (
              change_first (is_device x) (λ (d : Device). record d { baudrate = atoi e.value })
                (with_device x ds))
            ≡ some (atoi e.value))
          same (rate_in-set name (atoi e.value) (with_device name ds) (any-with_device name ds)))
  | inr other ↦
      let plain : (if text_eq name e.section
            then some (or_default (rate_in name ds))
            else rate_in name ds)
          ≡ rate_in name ds =
        rw other in
      rw other (
        rate_in-other name e.section (λ (d : Device). record d { baudrate = atoi e.value })
          (with_device e.section ds) (λ d. refl) other
        ∙ with_device-rate name e.section ds
        ∙ plain)
]
said-rate name Key.virtuals e ds =
    with_virtuals-rate name e.section (tokens e.value) (with_device e.section ds)
    ∙ with_device-rate name e.section ds
said-rate name Key.writer e ds =
    rate_in-kept name (is_device e.section) (with_writer (full_name e.section e.value))
      (with_device e.section ds) (λ d. refl) (λ d. refl)
    ∙ with_device-rate name e.section ds
said-rate name Key.unknown e ds = with_device-rate name e.section ds

pub devices_of-rate :
    (name : Text) (es : List Entry) (ds : List Device)
    → rate_in name (devices_of es ds) ≡ rate_said name es (rate_in name ds)
unfolding devices_of rate_said
devices_of-rate name [] ds = refl
devices_of-rate name (e ∷ es) ds =
    devices_of-rate name es (said (key_of e.name) e (with_device e.section ds))
    ∙ ap (rate_said name es) (said-rate name (key_of e.name) e ds)
