-- ===== src/Serial/Upkeep/Empty.antt =====
-- serialBeforeSleep of src/serial.c, as a pass over nodes and links that lead to each other.
use serial_proxy_c.Prelude.{
  ℕ, ◌≡◌, refl, inl, inr, sym, subst, Option, some, ◌∷◌, arith, All-imp, Option-cases,
}
use serial_proxy_c.Machine.Types.{Node, Link, Call, Env, World}
use serial_proxy_c.Machine.Monad.{update}
use serial_proxy_c.Machine.Memory.{load_node-some, change_link-some}
use serial_proxy_c.Machine.Returns.{Returns, returned, Returns-and_then}
use serial_proxy_c.Serial.Nodes.Chain.{IsChain}
use serial_proxy_c.Serial.Nodes.Tree.{IsTree, IsRoot, IsLeaf}
use serial_proxy_c.Serial.Link.Accounts.{Balanced-changed}
use serial_proxy_c.Serial.Link.Linked.{IsLinked, IsLinked-changed}
use serial_proxy_c.Serial.Upkeep.{empty_link, empty_node, empty_master, serial_before_sleep}
use serial_proxy_c.Serial.Upkeep.Gains.{
  Gains, Gains-refl, Gains-trans, Gains-trace, IsVirtuals-Gains,
}
use serial_proxy_c.Serial.Upkeep.Reconnect.{OnlyGains, walk-Gains}

module _ (env : Env) where
  Gains-empty :
      (v : World) (l : ℕ) (k : Link)
      → IsLinked env v
      → v.links l ≡ some k
      → Gains env v (record v { links = update v.links l (some (record k { recvbuflen = 0 })) })
  Gains-empty v l k is at =
      let (p, n, fd, o, (size, fill)) = is.owned l k at in
      record {
        server_same = refl;
        grows = omega arith;
        kept = λ q m at'. (m, at', inl refl);
        same_tree = λ q. refl;
        linked =
            IsLinked-changed env v is l k (record k { recvbuflen = 0 }) v.trace at refl refl refl
              (size, omega arith) refl;
        balance =
            Balanced-changed env v l k (record k { recvbuflen = 0 }) v.trace at refl refl refl;
      }

  module _ (w : World) where
    empty_node-Gains : (p : ℕ) (n : Node) → w.nodes p ≡ some n → OnlyGains env w empty_node p
    unfolding empty_node empty_link
    empty_node-Gains p n at v g =
        let (m, at', relinked) = g.kept p n at in
        rw (load_node-some v p at') (elim (Option-cases m.link) [
          | inl free ↦ rw free (returned g)
          | inr (l, e) ↦
              let (below, k, live, own) = g.linked.back p m l at' e in
              rw (e, change_link-some v l (λ j. record j { recvbuflen = 0 }) live)
                (returned (Gains-trans g (Gains-empty v l k g.linked live)))
        ])

    module _ (is : IsLinked env w) (tree : IsTree env w) where
      leaf-Gains : (m p : ℕ) → IsLeaf w.nodes m p → OnlyGains env w empty_node p
      leaf-Gains m p (n, at, other, virtual, of, childless) = empty_node-Gains p n at

      empty_master-Gains : (p : ℕ) → IsRoot w.nodes p → OnlyGains env w empty_master p
      unfolding empty_master
      empty_master-Gains p (n, at, kind, real, free) v g =
          let (vs, (c, h), leaves) = tree.virtuals p n at in
          Returns-and_then _ (empty_node-Gains p n at v g) λ r u g'.
            let (m, at', is', flags, baudrate, virtual_head, next) =
              IsVirtuals-Gains p n vs g' at (c, h) in
            let c' = subst (λ (o : Option ℕ). IsChain w.nodes o vs) (sym virtual_head) c in
            rw (load_node-some u p at') (
              walk-Gains env w empty_node u.fresh m.virtual_head vs u c' is'.1
                (All-imp vs (leaf-Gains p) leaves) g')

      pub serial_before_sleep-Gains : Returns (λ r. Gains env w) (serial_before_sleep w)
      unfolding serial_before_sleep
      serial_before_sleep-Gains =
          let (ms, (c, h), kinds) = tree.masters in
          Returns-and_then _
            (walk-Gains env w empty_master w.fresh w.server.master_head ms w c h
              (All-imp ms empty_master-Gains kinds) (Gains-refl w is))
            λ r v g. returned (Gains-trace (Call.usleep 1_000_000 ∷ v.trace) refl g)
