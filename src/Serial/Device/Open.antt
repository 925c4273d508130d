-- ===== src/Serial/Device/Open.antt =====
-- Opening a device, in _serialCreateLink of src/serial.c, and the descriptors of its link.
use serial_proxy_c.Prelude.{
  ℕ, ◌≡◌, refl, inl, inr, false, Option, none, some, List, ◌∷◌, Bool-cases,
}
use serial_proxy_c.Prelude.Text.{Text}
use serial_proxy_c.Machine.Types.{Node, Call, Env, World}
use serial_proxy_c.Machine.Monad.{pure, ◌>>◌}
use serial_proxy_c.Machine.Returns.{Returns, returned, Returns-weaken}
use serial_proxy_c.Log.{ll_error, server_log_errno}
use serial_proxy_c.Serial.Nodes.{node_is_master, node_is_virtual}
use serial_proxy_c.Serial.Device.{open_device, open_master, open_virtual}
use serial_proxy_c.Serial.Device.Configure.{Keeps-checked}
use serial_proxy_c.Serial.Link.Building.{
  Building, building, Holds, Keeps-pure, Keeps-and_then, Keeps-perform, setting_up,
  Keeps-server_log_errno, change_link-unowned,
}

-- A link without an owner that holds some descriptors, or none.
pub data Started (env : Env) (w v : World) : Type 0 where
  started : {fd sfd : Option ℕ} → Building env w fd sfd v → Started env w v

module _ (env : Env) (w : World) (path : Text) (set : w.server.logfile ≡ some path) where
  -- A call that failed is logged.
  refused-Started :
      (t : List Call)
      → Holds env w none none t
      → Returns
          (λ ok. Started env w)
          ((server_log_errno env ll_error >> pure false) (setting_up env w none none t))
  refused-Started t h =
      Returns-weaken
        (Keeps-and_then _ _ (Keeps-server_log_errno path set ll_error) (λ u. Keeps-pure false) _
          (building h))
        λ ok v b. started b

  module _ (n : Node) (t : List Call) (h : Holds env w none none t) where
    open_master-Started :
        Returns (λ ok. Started env w) (open_master env w.fresh n (setting_up env w none none t))
    unfolding open_master
    open_master-Started =
        let c = Call.open_path n.name in
        elim (Bool-cases (env.succeeds t c)) [
          | inl ok ↦
              let fd = env.descriptor t c in
              let holds : Holds env w (some fd) none (c ∷ t) = rw (ok, h) in
              rw (ok, change_link-unowned env w none none (c ∷ t) _)
                (Returns-weaken
                  (Keeps-checked path set _ (Keeps-perform (Call.isatty fd) (λ s. refl)) _
                    (building holds))
                  λ r v b. started b)
          | inr failed ↦
              let holds : Holds env w none none (c ∷ t) = rw (failed, h) in
              rw failed (refused-Started (c ∷ t) holds)
        ]

    open_virtual-Started :
        Returns (λ ok. Started env w) (open_virtual env w.fresh n (setting_up env w none none t))
    unfolding open_virtual
    open_virtual-Started =
        let c = Call.openpty in
        elim (Bool-cases (env.succeeds t c)) [
          | inl ok ↦
              let fd = env.descriptor t c in
              let sfd = env.slave_descriptor t in
              let holds : Holds env w (some fd) (some sfd) (Call.remove n.name ∷ (c ∷ t)) =
                rw (ok, h) in
              rw (ok, change_link-unowned env w none none (c ∷ t) _)
                (Returns-weaken
                  (Keeps-checked path set _ (Keeps-perform (Call.symlink sfd n.name) (λ s. refl)) _
                    (building holds))
                  λ r v b. started b)
          | inr failed ↦
              let holds : Holds env w none none (c ∷ t) = rw (failed, h) in
              rw failed (refused-Started (c ∷ t) holds)
        ]

    pub open_device-Started :
        Returns (λ ok. Started env w) (open_device env w.fresh n (setting_up env w none none t))
    unfolding open_device
    open_device-Started = elim (Bool-cases (node_is_master n)) [
      | inl master ↦ rw master open_master-Started
      | inr other ↦ elim (Bool-cases (node_is_virtual n)) [
        | inl virtual ↦ rw (other, virtual) open_virtual-Started
        | inr neither ↦ rw (other, neither) (returned (started (building h)))
      ]
    ]
