-- ===== src/Config/Devices/Virtuals.antt =====
-- New virtuals of one device, against the list of devices that the nodes stand for.
use serial_proxy_c.Prelude.{
  ℕ, suc, ◌≡◌, ◌≢◌, refl, ◌∙◌, ap, sym, ◌==◌, ◌<◌, true, false, some, none, List, [], ◌∷◌, arith,
  length, take_all, All, Bool-cases, Option-cases, inl, inr, any, change_first, fun_ext, some-inj,
}
use serial_proxy_c.Prelude.Text.{Text}
use serial_proxy_c.Prelude.Int.{pos}
use serial_proxy_c.Machine.Types.{Node, Server, Call, Env, World}
use serial_proxy_c.Machine.Monad.{update}
use serial_proxy_c.Machine.Memory.{update_same}
use serial_proxy_c.Machine.Returns.{Returns, returned, Returns-and_then, Returns-both}
use serial_proxy_c.Serial.Device.Configure.{HasSpeed}
use serial_proxy_c.Serial.Nodes.{new_node, flag_virtual, path_max, has_name}
use serial_proxy_c.Serial.Nodes.Chain.{IsChain, first_with}
use serial_proxy_c.Serial.Nodes.Distinct.{Agree, IsChain-Agree, Agree-fresh, All-is_among}
use serial_proxy_c.Serial.Nodes.Match.{Matches-imp, first_with-none, first_with-any}
use serial_proxy_c.Serial.Nodes.Lists.{get_virtual_node-first_with}
use serial_proxy_c.Serial.Nodes.Tree.{IsLeaf}
use serial_proxy_c.Serial.Nodes.Unlink.{add_virtual_node_lem}
use serial_proxy_c.Config.Devices.{create_virtual, ensure_virtual, add_virtuals}
use serial_proxy_c.Config.Devices.Abstract.{
  Device, is_device, is_virtual, with_virtual, with_virtuals, full_name,
}
use serial_proxy_c.Config.Devices.Shows.{
  device_parts, IsVirtualAt, Spares, KeepsNames, ShowsAt, ShowsAt-change, IsRoot-of_ShowsAt,
  root_no_leaf, leaves_of, virtual_name_at,
}
use serial_proxy_c.Config.Devices.Build.{
  WellAt, NameFits, create_node_lem, ensure_virtual-WellAt, virtual_name-some,
}
use serial_proxy_c.Config.Devices.Heap.{IsWell, below_fresh}

module _ (env : Env) (s : Server) (memory : (h : List Call) → env.succeeds h Call.calloc ≡ true)
    (section : Text) (p : ℕ) (w : World) (well : IsWell env s w) where
  create_virtual-ShowsAt :
      (name : Text) (ds : List Device) (m : Node) (vs : List ℕ)
      → length name < path_max
      → w.nodes p ≡ some m
      → IsChain w.nodes m.virtual_head vs
      → first_with (has_name name) w.nodes vs ≡ none
      → ShowsAt section p ds w
      → Returns
          (λ r. ShowsAt section p (change_first (is_device section) (with_virtual name) ds))
          (create_virtual env p name w)
  unfolding create_virtual
  create_virtual-ShowsAt name ds m vs short at c missing shown =
      let root = IsRoot-of_ShowsAt env w well.tree section p ds shown in
      let n = new_node name flag_virtual in
      let w1 : World = record w {
        nodes = update w.nodes w.fresh (some n);
        fresh = suc w.fresh;
        trace = Call.calloc ∷ w.trace;
      } in
      let away : p ≢ w.fresh = below_fresh well at in
      let free : w.nodes w.fresh ≡ none = well.bounded w.fresh (omega arith) in
      let m' : Node = record m { virtual_head = some w.fresh } in
      let n' : Node = record n { next = m.virtual_head; virtualof = some p } in
      let nodes' = update (update w.nodes p (some m')) w.fresh (some n') in
      let v : World = record w { nodes = nodes'; fresh = suc w.fresh; trace = w1.trace } in
      let same : update (update w1.nodes p (some m')) w.fresh (some n') ≡ nodes' =
        fun_ext λ q. ground arith in
      let agree : Agree w.nodes nodes' vs = λ x on.
        let leaf =
          All-is_among (IsLeaf w.nodes p) vs x (leaves_of env w well.tree p m vs at c) on in
        let other = root_no_leaf env w well.tree p p x root leaf in
        let old = Agree-fresh w.nodes m.virtual_head vs w.fresh (some n') free c x on in
        ground arith in
      let keeps : KeepsNames w.nodes nodes' = λ q k live. elim (Bool-cases (q == p)) [
        | inl here ↦
            let address : q ≡ p = ground arith in
            let again : m ≡ k = some-inj (sym at ∙ ap w.nodes (sym address) ∙ live) in
            (m', ground arith, ap (λ (x : Node). x.next) again, ap (λ (x : Node). x.name) again)
        | inr far ↦ (k, ground arith, refl, refl)
      ] in
      let spares : Spares w.nodes nodes' p = λ x k live far other. ground arith in
      rw
        (
          create_node_lem env name flag_virtual w (memory w.trace),
          add_virtual_node_lem w1 p w.fresh m n (ground arith)
              (update_same w.nodes w.fresh (some n)) away refl,
          same,
        )
        (returned (
          ShowsAt-change env w well.tree section p ds (with_virtual name) v refl keeps spares
            (λ d shown_d.
              let (named, baudrate, ports) = device_parts w.nodes p m vs d at c shown_d in
              let none_such : any (is_virtual name) d.virtuals ≡ false =
                first_with-none w.nodes (has_name name) (is_virtual name) (IsVirtualAt w.nodes)
                  (virtual_name_at name w.nodes) vs d.virtuals ports missing in
              rw none_such (
                (
                  m',
                  ground arith,
                  named,
                  baudrate,
                  w.fresh ∷ vs,
                  (
                    refl,
                    n',
                    update_same (update w.nodes p (some m')) w.fresh (some n'),
                    IsChain-Agree w.nodes nodes' m.virtual_head vs agree c,
                  ),
                  (
                    (
                      n',
                      update_same (update w.nodes p (some m')) w.fresh (some n'),
                      take_all 4095 name (omega arith),
                      refl,
                    ),
                    Matches-imp vs d.virtuals
                        (λ x y on (j, live, name', writer). (j, agree x on ∙ live, name', writer))
                        ports,
                  ),
                )))
            shown))

  pub ensure_virtual-ShowsAt :
      (name : Text) (ds : List Device)
      → length name < path_max
      → ShowsAt section p ds w
      → Returns
          (λ r. ShowsAt section p (change_first (is_device section) (with_virtual name) ds))
          (ensure_virtual env p (some name) w)
  unfolding ensure_virtual
  ensure_virtual-ShowsAt name ds short shown =
      let (m, at, master, real, root_free) = IsRoot-of_ShowsAt env w well.tree section p ds shown in
      let (vs, is, leaves) = well.tree.virtuals p m at in
      rw (get_virtual_node-first_with w p m vs at is name)
        (elim (Option-cases (first_with (has_name name) w.nodes vs)) [
          | inl e ↦ rw e (create_virtual-ShowsAt name ds m vs short at is.0 e shown)
          | inr (v, e) ↦ rw e (
              returned (
                ShowsAt-change env w well.tree section p ds (with_virtual name) w refl
                  (λ q k live. (k, live, refl, refl)) (λ x k live far other. refl)
                  (λ d shown_d.
                    let (named, baudrate, ports) = device_parts w.nodes p m vs d at is.0 shown_d in
                    let (such, on) =
                      first_with-any w.nodes (has_name name) (is_virtual name) (IsVirtualAt w.nodes)
                        (virtual_name_at name w.nodes) vs d.virtuals v ports e in
                    rw such shown_d)
                  shown))
        ])

module _ (env : Env) (s : Server) (memory : (h : List Call) → env.succeeds h Call.calloc ≡ true)
    (default : HasSpeed env (pos 9600)) (section : Text) (p : ℕ) where
  pub WellAt-of_ShowsAt :
      (ds : List Device) (w : World) → IsWell env s w → ShowsAt section p ds w → WellAt env s p w
  WellAt-of_ShowsAt ds w well shown =
      let (n, at, master, real, free) = IsRoot-of_ShowsAt env w well.tree section p ds shown in
      (well, n, at, master)

  pub add_virtuals-ShowsAt :
      (names : List Text) (ds : List Device) (w : World)
      → All (NameFits section) names
      → IsWell env s w
      → ShowsAt section p ds w
      → Returns
          (λ r. ShowsAt section p (with_virtuals section names ds))
          (add_virtuals env section p names w)
  unfolding add_virtuals
  add_virtuals-ShowsAt [] ds w fits well shown = returned shown
  add_virtuals-ShowsAt (token ∷ names) ds w (fits, rest) well shown =
      let name = full_name section token in
      rw (virtual_name-some section token fits) (
        Returns-and_then _
          (Returns-both
            (ensure_virtual-WellAt env s memory default p name w
              (WellAt-of_ShowsAt ds w well shown))
            (ensure_virtual-ShowsAt env s memory section p w well name ds fits shown))
          λ r v ((well', k, at, kind), shown').
            add_virtuals-ShowsAt names (change_first (is_device section) (with_virtual name) ds) v
              rest well' shown')
