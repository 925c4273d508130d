-- ===== src/Config/Devices/Stays.antt =====
-- The devices that the nodes stand for do not depend on links.
use serial_proxy_c.Prelude.{ℕ, ◌≡◌, ◌∙◌, ap, sym, subst, List}
use serial_proxy_c.Machine.Types.{Node, World}
use serial_proxy_c.Serial.Nodes.{node_is_writer}
use serial_proxy_c.Serial.Nodes.Chain.{IsChain, IsChain-keep}
use serial_proxy_c.Serial.Nodes.Match.{Matches-imp}
use serial_proxy_c.Serial.Nodes.Tree.{SameNodes, SameNodes-KeepsNext, strip, strip-some}
use serial_proxy_c.Config.Devices.Abstract.{Virtual, Device}
use serial_proxy_c.Config.Devices.Shows.{IsVirtualAt, IsDeviceAt, Shows}

module _ (w v : World) (same : SameNodes w.nodes v.nodes) where
  IsVirtualAt-same : (q : ℕ) (x : Virtual) → IsVirtualAt w.nodes q x → IsVirtualAt v.nodes q x
  IsVirtualAt-same q x (n, at, name, writer) =
      let (m, at', e) = strip-some (v.nodes q) n (same q ∙ ap strip at) in
      (m, at', ap (λ (y : Node). y.name) e ∙ name, ap node_is_writer e ∙ writer)

  IsDeviceAt-same : (p : ℕ) (d : Device) → IsDeviceAt w.nodes p d → IsDeviceAt v.nodes p d
  IsDeviceAt-same p d (n, at, name, baudrate, vs, c, ports) =
      let (m, at', e) = strip-some (v.nodes p) n (same p ∙ ap strip at) in
      let keeps = SameNodes-KeepsNext w.nodes v.nodes same in
      (
        m,
        at',
        ap (λ (y : Node). y.name) e ∙ name,
        ap (λ (y : Node). y.baudrate) e ∙ baudrate,
        vs,
        subst (λ o. IsChain v.nodes o vs) (sym (ap (λ (y : Node). y.virtual_head) e))
            (IsChain-keep w.nodes v.nodes n.virtual_head vs keeps c),
        Matches-imp vs d.virtuals (λ q x on. IsVirtualAt-same q x) ports,
      )

  pub Shows-same :
      (ds : List Device) → v.server.master_head ≡ w.server.master_head → Shows ds w → Shows ds v
  Shows-same ds head (ms, c, m) = (
    ms,
    subst (λ o. IsChain v.nodes o ms) (sym head)
        (IsChain-keep w.nodes v.nodes w.server.master_head ms
          (SameNodes-KeepsNext w.nodes v.nodes same) c),
    Matches-imp ms ds (λ p d on. IsDeviceAt-same p d) m,
  )
