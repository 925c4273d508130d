-- ===== src/Serial/Device/Configure.antt =====
-- Configuring a device, in _serialCreateLink of src/serial.c, while its link holds descriptors.
use serial_proxy_c.Prelude.{
  ℕ, ◌≡◌, refl, inl, inr, ◌⊎◌, Bool, true, false, Option, none, some, List, Bool-cases,
}
use serial_proxy_c.Prelude.Int.{ℤ, ◌/ℤ◌, is_nonzero}
use serial_proxy_c.Prelude.Text.{Text}
use serial_proxy_c.Machine.Types.{Node, Call, Env, World}
use serial_proxy_c.Machine.Monad.{M}
use serial_proxy_c.Machine.Returns.{Returns, returned, Returns-and_then}
use serial_proxy_c.Log.{ll_error}
use serial_proxy_c.Serial.Nodes.{node_is_master}
use serial_proxy_c.Serial.Device.{
  checked, configure, choose_speed, take_speed, custom_speed, set_divisor, set_attributes,
  on_descriptor, standard_speed,
}
use serial_proxy_c.Serial.Link.Building.{
  Building, Keeps, Keeps-pure, Keeps-gets, Keeps-and_then, Keeps-if, Keeps-perform,
  Keeps-server_log_errno,
}
use serial_proxy_c.Config.Settings.Load.{IsInt, to_int_lem}

-- The switch has a case for the baud rate, or it divides the base of every device: it is not zero,
-- and the divisor fits an `int`.
abbrev pub HasSpeed : Env → ℤ → Type 0
HasSpeed env z =
    ((b : ℕ) × (standard_speed env z ≡ some b))
    ⊎ ((is_nonzero z ≡ true) × ((h : List Call) (d : ℕ) → IsInt (env.baud_base h d /ℤ z)))

module _ {env : Env} {w : World} {fd : ℕ} {sfd : Option ℕ} (path : Text)
    (set : w.server.logfile ≡ some path) where
  pub Keeps-checked :
      (call : M Bool)
      → Keeps env w (some fd) sfd call
      → Keeps env w (some fd) sfd (checked env call)
  unfolding checked
  Keeps-checked call keeps = Keeps-and_then call _ keeps λ ok.
      Keeps-if ok _ _ (Keeps-pure true)
        (Keeps-and_then _ _ (Keeps-server_log_errno path set ll_error) λ u. Keeps-pure false)

  set_divisor-Keeps :
      (base z : ℤ)
      → is_nonzero z ≡ true
      → IsInt (base /ℤ z)
      → Keeps env w (some fd) sfd (set_divisor env base z fd)
  unfolding set_divisor
  set_divisor-Keeps base z ne fits v b =
      rw (ne, to_int_lem (base /ℤ z) v fits)
        (Keeps-checked _ (Keeps-perform (Call.set_serial fd (base /ℤ z)) (λ t. refl)) v b)

  custom_speed-Keeps :
      (z : ℤ)
      → is_nonzero z ≡ true
      → ((h : List Call) (d : ℕ) → IsInt (env.baud_base h d /ℤ z))
      → Keeps env w (some fd) sfd (custom_speed env z fd)
  unfolding custom_speed
  custom_speed-Keeps z ne fits = Keeps-and_then _ _ (Keeps-gets _) λ h.
      Keeps-and_then _ _ (Keeps-perform (Call.get_serial fd) (λ t. refl))
        λ ok. Keeps-if ok _ _ (set_divisor-Keeps _ z ne (fits h fd)) (Keeps-pure false)

  take_speed-Keeps :
      (z : ℤ) (speed : Option ℕ)
      → ((b : ℕ) × (speed ≡ some b))
        ⊎ ((is_nonzero z ≡ true) × ((h : List Call) (d : ℕ) → IsInt (env.baud_base h d /ℤ z)))
      → Keeps env w (some fd) sfd (take_speed env (some fd) z speed)
  unfolding take_speed on_descriptor
  take_speed-Keeps z (some b) has = Keeps-pure (some (some b))
  take_speed-Keeps z none (inl (b, e)) = cc
  take_speed-Keeps z none (inr (ne, fits)) =
      Keeps-and_then _ _ (custom_speed-Keeps z ne fits) λ ok. Keeps-pure _

  choose_speed-Keeps :
      (z : ℤ) → HasSpeed env z → Keeps env w (some fd) sfd (choose_speed env (some fd) z)
  unfolding choose_speed
  choose_speed-Keeps z has = take_speed-Keeps z (standard_speed env z) has

  set_attributes-Keeps :
      (speed : Option (Option ℕ)) → Keeps env w (some fd) sfd (set_attributes env (some fd) speed)
  unfolding set_attributes on_descriptor
  set_attributes-Keeps none = Keeps-pure false
  set_attributes-Keeps (some speed) = Keeps-checked _ (Keeps-perform _ (λ t. refl))

  pub configure-Keeps :
      (n : Node)
      → (node_is_master n ≡ true → HasSpeed env n.baudrate)
      → Keeps env w (some fd) sfd (configure env (some fd) n)
  unfolding configure on_descriptor
  configure-Keeps n has = Keeps-and_then _ _ (Keeps-checked _ (Keeps-perform _ (λ t. refl))) λ got.
      Keeps-if got _ _
        (elim (Bool-cases (node_is_master n)) [
          | inl master ↦
              rw master
                (Keeps-and_then _ _ (choose_speed-Keeps _ (has master)) set_attributes-Keeps)
          | inr other ↦ rw other (set_attributes-Keeps (some none))
        ])
        (Keeps-pure false)

-- Without a descriptor, as for a node of no kind, the device cannot be configured.
pub configure-none :
    (env : Env) (w : World) (sfd : Option ℕ) (path : Text) (n : Node)
    → w.server.logfile ≡ some path
    → (v : World) → Building env w none sfd v
    → Returns (λ ready u. (ready ≡ false) × Building env w none sfd u) (configure env none n v)
unfolding configure on_descriptor checked
configure-none env w sfd path n set v b =
    Returns-and_then _
      (Returns-and_then {Q = λ got u. (got ≡ false) × Building env w none sfd u} _
        (Keeps-server_log_errno path set ll_error v b) λ r u b'. returned (refl, b'))
      λ got u (e, b'). rw e (returned (refl, b'))
