-- ===== src/Serial/Upkeep/Reconnect.antt =====
-- The reconnecting pass of src/serial.c, _serialReconnect.
use serial_proxy_c.Prelude.{
  Option-cases, ℕ, zero, suc, ◌≡◌, refl, inl, inr, ◌∙◌, ap, sym, subst, ◌≤◌, length, All, All-imp,
  Bool, true, false, Option, none, some, List, [], ◌∷◌, arith, if◌then◌else◌, is_some,
}
use serial_proxy_c.Prelude.Flags.{has_flag}
use serial_proxy_c.Prelude.Text.{Text}
use serial_proxy_c.Machine.Types.{Node, Server, Call, Env, World}
use serial_proxy_c.Machine.Monad.{M, ◌>>=◌, ◌>>◌, pure, when, load_node}
use serial_proxy_c.Machine.Memory.{load_node-some, load_link-some}
use serial_proxy_c.Machine.Returns.{Returns, returned, Returns-and_then}
use serial_proxy_c.Log.{ll_info, ll_warn, server_log}
use serial_proxy_c.Serial.Nodes.{flag_master, list_fuel, node_is_master}
use serial_proxy_c.Serial.Nodes.Chain.{IsChain}
use serial_proxy_c.Serial.Nodes.Lists.{IsVirtuals}
use serial_proxy_c.Serial.Nodes.Tree.{IsTree, IsRoot, IsLeaf}
use serial_proxy_c.Serial.Device.Configure.{HasSpeed}
use serial_proxy_c.Serial.Link.Connect.{connect_node-Connected}
use serial_proxy_c.Serial.Link.Flags.{event_string-rw}
use serial_proxy_c.Serial.Link.Linked.{IsLinked}
use serial_proxy_c.Serial.Upkeep.{
  walk, announce, reconnect_node, reconnect_virtual, reconnect_master, reconnect,
}
use serial_proxy_c.Serial.Upkeep.Gains.{
  HasLink, Gains, Gains-refl, Relinked-fields, Gains-trans, Gains-Connected, server_log-Gains,
  IsVirtuals-Gains,
}

-- The node at `p` has the virtuals `vs`, and a speed that can be set if it is a master.
abbrev pub IsReady : Env → World → ℕ → List ℕ → Type 0
IsReady env w p vs =
    (n : Node) × (w.nodes p ≡ some n)
    × IsVirtuals w n vs
    × (node_is_master n ≡ true → HasSpeed env n.baudrate)

IsReady-Gains :
    (env : Env) (w v : World) (p : ℕ) (vs : List ℕ)
    → IsReady env w p vs
    → Gains env w v
    → IsReady env v p vs
IsReady-Gains env w v p vs (n, at, is, has) g =
    let (m, at', is', flags, baudrate, virtual_head, next) = IsVirtuals-Gains p n vs g at is in
    (
      m,
      at',
      is',
      λ e.
          subst (HasSpeed env) (sym baudrate)
            (has (ap (λ (f : ℕ). has_flag f flag_master) (sym flags) ∙ e)),
    )

module _ (env : Env) (w : World) (body : ℕ → M (Unit {0})) where
  -- The body of a loop at the node `p` only fills in links.
  abbrev pub OnlyGains : ℕ → Type 0
  OnlyGains p = (v : World) → Gains env w v → Returns (λ r. Gains env w) (body p v)

  -- Then so does the loop, and its fuel is enough.
  pub walk-Gains :
      (fuel : ℕ) (head : Option ℕ) (ps : List ℕ) (v : World)
      → IsChain w.nodes head ps
      → length ps ≤ fuel
      → All OnlyGains ps
      → Gains env w v
      → Returns (λ r. Gains env w) (walk fuel body head v)
  unfolding walk
  walk-Gains fuel none [] v c h all g = returned g
  walk-Gains fuel (some q) [] v c h all g = cc
  walk-Gains fuel none (p ∷ ps) v (e, n, at, c) h all g = cc
  walk-Gains zero (some q) (p ∷ ps) v c h all g = absurd (omega arith)
  walk-Gains (suc fuel) (some q) (p ∷ ps) v (e, n, at, c) h (now, all) g =
      let here : q ≡ p = ground arith in
      rw here (
        Returns-and_then _ (now v g) λ r u g'.
          let (m, at', relinked) = g'.kept p n at in
          let (flags, baudrate, virtual_head, next) = Relinked-fields n m relinked in
          let c' = subst (λ (o : Option ℕ). IsChain w.nodes o ps) (sym next) c in
          rw (load_node-some u p at') (walk-Gains fuel m.next ps u c' (omega arith) all g'))

module _ (env : Env) (w : World) (path : Text) (set : w.server.logfile ≡ some path)
    (memory : (h : List Call) → env.succeeds h Call.calloc ≡ true) where
  announce-Gains :
      (p : ℕ) (vs : List ℕ) (v : World)
      → IsReady env w p vs
      → Gains env w v
      → HasLink v p
      → Returns (λ r. Gains env w) (announce env p v)
  unfolding announce
  announce-Gains p vs v (n, at, is, has) g (m, l, k, at', e, live) =
      let (m', at'', is', flags, baudrate, virtual_head, next) = IsVirtuals-Gains p n vs g at is in
      rw (load_node-some v p at', e, load_link-some v l live, event_string-rw v p m' vs at'' is')
        (server_log-Gains env ll_info path w v set g)

  -- What follows serialConnectNode.
  told-Gains :
      (p : ℕ) (vs : List ℕ) (ok : Bool) (u : World)
      → IsReady env w p vs
      → Gains env w u
      → (ok ≡ true → HasLink u p)
      → Returns
          (λ r. Gains env w)
          ((if ok then (do announce env p; pure true) else (do server_log env ll_warn; pure false))
            u)
  told-Gains p vs true u ready g linked =
      Returns-and_then _ (announce-Gains p vs u ready g (linked refl)) λ r v g'. returned g'
  told-Gains p vs false u ready g linked =
      Returns-and_then _ (server_log-Gains env ll_warn path w u set g) λ r v g'. returned g'

  -- A node that has its link is left alone; any other one gets a link, or nothing happens to it.
  reconnect_node-Gains :
      (p : ℕ) (vs : List ℕ) (v : World)
      → IsReady env w p vs
      → Gains env w v
      → Returns (λ r. Gains env w) (reconnect_node env p v)
  unfolding reconnect_node
  reconnect_node-Gains p vs v ready g =
      let (m, at, is, has) = IsReady-Gains env w v p vs ready g in
      rw (load_node-some v p at) (elim (Option-cases m.link) [
        | inr (l, e) ↦ let linked : is_some m.link ≡ true = rw e in rw linked (returned g)
        | inl free ↦
            let unlinked : is_some m.link ≡ false = rw free in
            let set' = ap (λ (s : Server). s.logfile) g.server_same ∙ set in
            rw unlinked (
              Returns-and_then _
                (connect_node-Connected env v p m vs at is path set' has free (memory v.trace))
                λ ok u c.
                  let (g', linked) = Gains-Connected env v p m at free g.linked vs ok u c in
                  told-Gains p vs ok u ready (Gains-trans g g') linked)
      ])

  reconnect_virtual-Gains : (p : ℕ) → IsReady env w p [] → OnlyGains env w (reconnect_virtual env) p
  unfolding reconnect_virtual
  reconnect_virtual-Gains p ready v g =
      Returns-and_then _ (reconnect_node-Gains p [] v ready g) λ r u g'. returned g'

  reconnect_virtuals-Gains :
      (p : ℕ) (vs : List ℕ)
      → IsReady env w p vs
      → All (λ q. IsReady env w q []) vs
      → (connected : Bool) (u : World) → Gains env w u
      → Returns
          (λ r. Gains env w)
          (when connected
            (do n ← load_node p; fuel ← list_fuel; walk fuel (reconnect_virtual env) n.virtual_head)
            u)
  reconnect_virtuals-Gains p vs ready all false u g = returned g
  reconnect_virtuals-Gains p vs (n, at, (c, h), has) all true u g =
      let (m, at', is, flags, baudrate, virtual_head, next) = IsVirtuals-Gains p n vs g at (c, h) in
      let c' = subst (λ (o : Option ℕ). IsChain w.nodes o vs) (sym virtual_head) c in
      rw (load_node-some u p at') (
        walk-Gains env w (reconnect_virtual env) u.fresh m.virtual_head vs u c' is.1
          (All-imp vs reconnect_virtual-Gains all) g)

  reconnect_master-Gains :
      (p : ℕ) (vs : List ℕ)
      → IsReady env w p vs
      → All (λ q. IsReady env w q []) vs
      → OnlyGains env w (reconnect_master env) p
  unfolding reconnect_master
  reconnect_master-Gains p vs ready all v g =
      Returns-and_then _ (reconnect_node-Gains p vs v ready g)
        (reconnect_virtuals-Gains p vs ready all)

  module _ (tree : IsTree env w) where
    leaf-IsReady : (m v : ℕ) → IsLeaf w.nodes m v → IsReady env w v []
    leaf-IsReady m v (n, at, other, virtual, of, childless) =
        (n, at, (childless, omega arith), λ e. cc)

    tree-OnlyGains : (m : ℕ) → IsRoot w.nodes m → OnlyGains env w (reconnect_master env) m
    tree-OnlyGains m (n, at, kind, real, free) =
        let (vs, is, leaves) = tree.virtuals m n at in
        reconnect_master-Gains m vs (n, at, is, tree.speed m n at)
          (All-imp vs (leaf-IsReady m) leaves)

    -- The reconnecting pass returns if a log file is set, memory does not run out, nodes and links
    -- lead to each other, masters and virtuals are well-formed lists, virtuals have none of their
    -- own, and the speeds of masters can be set. The settings, the lists, and every link that a node
    -- had stay, nodes and links lead to each other afterwards, and of each descriptor as many were
    -- opened, and not closed again, as the links hold more.
    pub reconnect-Gains : IsLinked env w → Returns (λ r. Gains env w) (reconnect env w)
    unfolding reconnect
    reconnect-Gains is =
        let (ms, (c, h), kinds) = tree.masters in
        walk-Gains env w (reconnect_master env) w.fresh w.server.master_head ms w c h
          (All-imp ms tree-OnlyGains kinds) (Gains-refl w is)
