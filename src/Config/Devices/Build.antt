-- ===== src/Config/Devices/Build.antt =====
-- Building the lists of devices: the handler of src/config.c for the file of serial devices.
use serial_proxy_c.Prelude.{
  sym, ◌∙◌, Option-cases, ℕ, suc, ◌≡◌, ◌≢◌, refl, inl, inr, fun_ext, ◌<◌, true, some, List, [], ◌∷◌,
  ◌++◌, arith, length, All,
}
use serial_proxy_c.Prelude.Flags.{add_flag, has_flag}
use serial_proxy_c.Prelude.Int.{pos}
use serial_proxy_c.Prelude.Text.{Text, codes}
use serial_proxy_c.Machine.Types.{Node, Server, Call, Env, World}
use serial_proxy_c.Machine.Monad.{done, update}
use serial_proxy_c.Machine.Memory.{change_node-some, update_same, update-update}
use serial_proxy_c.Machine.Returns.{Returns, returned, Returns-and_then}
use serial_proxy_c.Serial.Device.Configure.{HasSpeed}
use serial_proxy_c.Serial.Nodes.Tree.{IsRoot}
use serial_proxy_c.Serial.Nodes.Grow.{first_with-All}
use serial_proxy_c.Serial.Nodes.{
  node_is_master, new_node, create_node, add_node, flag_master, flag_virtual, flag_writer, path_max,
  virtual_name, has_name,
}
use serial_proxy_c.Serial.Nodes.Chain.{first_with, first_with-some}
use serial_proxy_c.Serial.Nodes.Lists.{
  link_in_front_lem, get_node-first_with, get_virtual_node-first_with,
}
use serial_proxy_c.Serial.Nodes.Unlink.{add_virtual_node_lem}
use serial_proxy_c.Config.Devices.{
  create_master, section_node, create_virtual, ensure_virtual, add_virtuals, mark_writer,
}
use serial_proxy_c.Config.Devices.Adopt.{IsWell-virtual, IsWell-change}
use serial_proxy_c.Config.Devices.Heap.{IsWell, below_fresh, IsWell-master}

-- The heap is well formed, and a master is at `p`.
abbrev pub WellAt : Env → Server → ℕ → World → Type 0
WellAt env s p w = IsWell env s w × (n : Node) × (w.nodes p ≡ some n) × (node_is_master n ≡ true)

pub create_node_lem :
    (env : Env) (name : Text) (flags : ℕ) (w : World)
    → env.succeeds w.trace Call.calloc ≡ true
    → create_node env (some name) flags w
      ≡ done (some w.fresh) (record w {
        nodes = update w.nodes w.fresh (some (new_node name flags));
        fresh = suc w.fresh;
        trace = Call.calloc ∷ w.trace;
      })
unfolding create_node
create_node_lem env name flags w memory = rw memory

-- The name of a virtual, with its zero, fits the buffer.
abbrev pub NameFits : Text → Text → Type 0
NameFits section token = length (section ++ codes "." ++ token) < path_max

pub virtual_name-some :
    (section token : Text)
    → NameFits section token
    → virtual_name section token path_max ≡ some (section ++ codes "." ++ token)
unfolding virtual_name
virtual_name-some section token fits = ground arith

-- The flag of a writer leaves the other flags as they are.
flag_writer-master :
    (f : ℕ) → has_flag (add_flag f flag_writer) flag_master ≡ has_flag f flag_master
flag_writer-master f = ground arith

flag_writer-virtual :
    (f : ℕ) → has_flag (add_flag f flag_writer) flag_virtual ≡ has_flag f flag_virtual
flag_writer-virtual f = ground arith

module _ (env : Env) (s : Server) (memory : (h : List Call) → env.succeeds h Call.calloc ≡ true)
    (default : HasSpeed env (pos 9600)) where
  create_master-WellAt :
      (section : Text) (w : World)
      → IsWell env s w
      → Returns (WellAt env s) (create_master env section w)
  unfolding create_master add_node
  create_master-WellAt section w well =
      let n = new_node section flag_master in
      let w1 : World = record w {
        nodes = update w.nodes w.fresh (some n);
        fresh = suc w.fresh;
        trace = Call.calloc ∷ w.trace;
      } in
      let n' : Node = record n { next = w.server.master_head } in
      rw
        (
          create_node_lem env section flag_master w (memory w.trace),
          link_in_front_lem w1 w.fresh n w.server.master_head (update_same w.nodes w.fresh (some n))
              refl,
          update-update w.nodes w.fresh (some n) (some n'),
        )
        (returned (
          IsWell-master env s w well w1.trace n' refl refl refl default refl refl refl,
          n',
          update_same w.nodes w.fresh (some n'),
          refl,
        ))

  pub section_node-WellAt :
      (section : Text) (w : World)
      → IsWell env s w
      → Returns (WellAt env s) (section_node env section w)
  unfolding section_node
  section_node-WellAt section w well =
      let (ms, is, kinds) = well.tree.masters in
      rw (get_node-first_with w section ms is)
        (elim (Option-cases (first_with (has_name section) w.nodes ms)) [
          | inl e ↦ rw e (create_master-WellAt section w well)
          | inr (p, e) ↦
              let (n, at, kind, real, free) =
                first_with-All (IsRoot w.nodes) (has_name section) w.nodes ms p e kinds in
              rw e (returned (well, n, at, kind))
        ])

  create_virtual-WellAt :
      (p : ℕ) (name : Text) (w : World)
      → WellAt env s p w
      → Returns (λ r. WellAt env s p) (create_virtual env p name w)
  unfolding create_virtual
  create_virtual-WellAt p name w (well, m, at, kind) =
      let n = new_node name flag_virtual in
      let w1 : World = record w {
        nodes = update w.nodes w.fresh (some n);
        fresh = suc w.fresh;
        trace = Call.calloc ∷ w.trace;
      } in
      let away : p ≢ w.fresh = below_fresh well at in
      let m' : Node = record m { virtual_head = some w.fresh } in
      let n' : Node = record n { next = m.virtual_head; virtualof = some p } in
      let nodes' = update (update w.nodes p (some m')) w.fresh (some n') in
      let same : update (update w1.nodes p (some m')) w.fresh (some n') ≡ nodes' =
        fun_ext λ q. ground arith in
      rw
        (
          create_node_lem env name flag_virtual w (memory w.trace),
          add_virtual_node_lem w1 p w.fresh m n (ground arith)
              (update_same w.nodes w.fresh (some n)) away refl,
          same,
        )
        (returned (
          IsWell-virtual env s w well w1.trace p m n' at kind refl refl refl refl refl refl,
          m',
          ground arith,
          kind,
        ))

  pub ensure_virtual-WellAt :
      (p : ℕ) (name : Text) (w : World)
      → WellAt env s p w
      → Returns (λ r. WellAt env s p) (ensure_virtual env p (some name) w)
  unfolding ensure_virtual
  ensure_virtual-WellAt p name w (well, m, at, kind) =
      let (vs, is, leaves) = well.tree.virtuals p m at in
      rw (get_virtual_node-first_with w p m vs at is name)
        (elim (Option-cases (first_with (has_name name) w.nodes vs)) [
          | inl e ↦ rw e (create_virtual-WellAt p name w (well, m, at, kind))
          | inr (v, e) ↦ rw e (returned (well, m, at, kind))
        ])

  pub add_virtuals-WellAt :
      (section : Text) (p : ℕ) (names : List Text) (w : World)
      → All (NameFits section) names
      → WellAt env s p w
      → Returns (λ r. WellAt env s p) (add_virtuals env section p names w)
  unfolding add_virtuals
  add_virtuals-WellAt section p [] w fits well = returned well
  add_virtuals-WellAt section p (token ∷ names) w (fits, rest) well =
      rw (virtual_name-some section token fits) (
        Returns-and_then _ (ensure_virtual-WellAt p _ w well)
          λ r v well'. add_virtuals-WellAt section p names v rest well')

  pub mark_writer-IsWell :
      (p : ℕ) (name : Text) (w : World)
      → WellAt env s p w
      → Returns (λ r. IsWell env s) (mark_writer p (some name) w)
  unfolding mark_writer
  mark_writer-IsWell p name w (well, m, at, kind) =
      let (vs, is, leaves) = well.tree.virtuals p m at in
      rw (get_virtual_node-first_with w p m vs at is name)
        (elim (Option-cases (first_with (has_name name) w.nodes vs)) [
          | inl e ↦ rw e (returned well)
          | inr (v, e) ↦
              let (n, live) = first_with-some (has_name name) w.nodes m.virtual_head vs v is.0 e in
              rw
                (
                  e,
                  change_node-some w v (λ k. record k { flags = add_flag k.flags flag_writer })
                      live,
                )
                (returned (
                  IsWell-change env s w well w.trace v n _ live refl refl refl
                    (flag_writer-master n.flags) (flag_writer-virtual n.flags)
                    (λ e. well.tree.speed v n live (sym (flag_writer-master n.flags) ∙ e)) refl))
        ])
