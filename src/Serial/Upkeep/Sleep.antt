-- ===== src/Serial/Upkeep/Sleep.antt =====
-- serialBeforeSleep: which buffers are empty when the event loop goes to sleep.
use serial_proxy_c.Prelude.{
  ℕ, zero, suc, ◌≤◌, ◌≡◌, refl, inl, inr, ◌||◌, Option, none, some, List, [], ◌∷◌, ◌++◌, arith, ap,
  if◌then◌else◌, sym, subst, length, fun_ext, Bool-cases, All, flat_map, to_list,
}
use serial_proxy_c.Machine.Types.{Node, Link, Call, World}
use serial_proxy_c.Machine.Monad.{M, done}
use serial_proxy_c.Machine.Memory.{load_node-some, change_link-some}
use serial_proxy_c.Serial.Nodes.Chain.{Nodes, IsChain, is_among, All-of_IsChain}
use serial_proxy_c.Serial.Nodes.Lists.{IsForest, IsVirtuals}
use serial_proxy_c.Serial.Upkeep.{walk, empty_link, empty_node, empty_master, serial_before_sleep}

abbrev pub Links : Type 0
Links = ℕ → Option Link

-- The link that a node has, if any.
abbrev pub owned : Option Node → List ℕ
owned none = []
owned (some n) = to_list n.link

abbrev pub reset : Option Link → Option Link
reset none = none
reset (some k) = some (record k { recvbuflen = 0 })

-- The links with the given addresses hold nothing for a write; all else is as it was.
unfoldable pub emptied : List ℕ → Links → Links
emptied ls links q = if is_among q ls then reset (links q) else links q

abbrev pub Live : Links → List ℕ → Type 0
Live links [] = Unit
Live links (l ∷ ls) = ((k : Link) × (links l ≡ some k)) × Live links ls

is_among-append :
    (q : ℕ) (ls ms : List ℕ) → is_among q (ls ++ ms) ≡ (is_among q ls || is_among q ms)
is_among-append q [] ms = refl
is_among-append q (l ∷ ls) ms = ground (arith, is_among-append q ls ms)

reset-reset : (o : Option Link) → reset (reset o) ≡ reset o
reset-reset none = refl
reset-reset (some k) = refl

emptied-append :
    (ls ms : List ℕ) (links : Links) → emptied (ls ++ ms) links ≡ emptied ms (emptied ls links)
unfolding emptied
emptied-append ls ms links =
    fun_ext λ q. ground (arith, is_among-append q ls ms, reset-reset (links q))

Live-emptied : (ls ms : List ℕ) (links : Links) → Live links ms → Live (emptied ls links) ms
unfolding emptied
Live-emptied ls [] links live = tt
Live-emptied ls (l ∷ ms) links ((k, at), live) = (
  elim (Bool-cases (is_among l ls)) [
    | inl hit ↦ (record k { recvbuflen = 0 }, rw (hit, at))
    | inr miss ↦ (k, rw (miss, at))
  ],
  Live-emptied ls ms links live,
)

Live-append :
    (links : Links) (ls ms : List ℕ) → Live links (ls ++ ms) → Live links ls × Live links ms
Live-append links [] ms live = (tt, live)
Live-append links (l ∷ ls) ms (at, live) = let (a, b) = Live-append links ls ms live in ((at, a), b)

empty_link_lem :
    (w : World) (o : Option ℕ)
    → Live w.links (to_list o)
    → empty_link o w ≡ done tt (record w { links = emptied (to_list o) w.links })
unfolding empty_link emptied
empty_link_lem w none live = refl
empty_link_lem w (some l) ((k, at), rest) =
    rw (change_link-some w l (λ j. record j { recvbuflen = 0 }) at)
      (ap (λ (h : Links). done tt (record w { links = h })) (fun_ext λ q. ground arith))

abbrev with_links : World → Links → World
with_links w links = record w { links = links }

module _ (w : World) (body : ℕ → M (Unit {0})) (ids : ℕ → List ℕ) where
  -- The body of a loop, at the node `p`, empties the links `ids p` and does nothing else.
  abbrev Empties : ℕ → Type 0
  Empties p =
      (links : Links)
      → Live links (ids p)
      → body p (with_links w links) ≡ done tt (with_links w (emptied (ids p) links))

  -- Then the loop empties the links of all nodes on its list.
  walk-emptied :
      (fuel : ℕ) (links : Links) (head : Option ℕ) (ps : List ℕ)
      → IsChain w.nodes head ps
      → length ps ≤ fuel
      → All Empties ps
      → Live links (flat_map ids ps)
      → walk fuel body head (with_links w links)
        ≡ done tt (with_links w (emptied (flat_map ids ps) links))
  unfolding walk
  walk-emptied fuel links none [] c h all live = unfold emptied in refl
  walk-emptied fuel links (some q) [] c h all live = cc
  walk-emptied fuel links none (p ∷ ps) (e, n, at, c) h all live = cc
  walk-emptied zero links (some q) (p ∷ ps) c h all live = absurd (omega arith)
  walk-emptied (suc fuel) links (some q) (p ∷ ps) (e, n, at, c) h (now, all) live =
      let here : q ≡ p = ground arith in
      let (live_now, live_rest) = Live-append links (ids p) (flat_map ids ps) live in
      let links' = emptied (ids p) links in
      let live' = Live-emptied (ids p) (flat_map ids ps) links live_rest in
      rw (
        here,
        now links live_now,
        load_node-some (with_links w links') p at,
        walk-emptied fuel links' n.next ps c (omega arith) all live',
        emptied-append (ids p) (flat_map ids ps) links,
      )

empty_node-Empties :
    (w : World) (p : ℕ) (n : Node)
    → w.nodes p ≡ some n
    → Empties w empty_node (λ q. owned (w.nodes q)) p
unfolding empty_node
empty_node-Empties w p n at links live =
    let live' : Live links (to_list n.link) =
      subst (λ (o : Option Node). Live links (owned o)) at live in
    rw (load_node-some (with_links w links) p at, empty_link_lem (with_links w links) n.link live')
      (ap (λ (o : Option Node). done tt (record w { links = emptied (owned o) links })) (sym at))

-- The links of a master and of its virtuals.
abbrev pub family_links : Nodes → (ℕ → List ℕ) → ℕ → List ℕ
family_links nodes vs m = owned (nodes m) ++ flat_map (λ v. owned (nodes v)) (vs m)

empty_master-Empties :
    (w : World) (vs : ℕ → List ℕ) (m : ℕ) (n : Node)
    → w.nodes m ≡ some n
    → IsVirtuals w n (vs m)
    → Empties w empty_master (family_links w.nodes vs) m
unfolding empty_master
empty_master-Empties w vs m n at (c, short) links live =
    let own = owned (w.nodes m) in
    let below = flat_map (λ v. owned (w.nodes v)) (vs m) in
    let (live_own, live_below) = Live-append links own below live in
    let links' = emptied own links in
    let each =
      All-of_IsChain (Empties w empty_node (λ q. owned (w.nodes q))) w.nodes n.virtual_head (vs m) c
        (empty_node-Empties w) in
    rw (
      empty_node-Empties w m n at links live_own,
      load_node-some (with_links w links') m at,
      walk-emptied w empty_node (λ q. owned (w.nodes q)) w.fresh links' n.virtual_head (vs m) c
          short each (Live-emptied own below links live_below),
      emptied-append own below links,
    )

-- serialBeforeSleep empties the buffer of every link that a master or one of its virtuals has, then
-- sleeps for a second. Every other link, every node and every setting is as before.
pub serial_before_sleep-emptied :
    (w : World) (ms : List ℕ) (vs : ℕ → List ℕ)
    → IsForest w ms vs
    → Live w.links (flat_map (family_links w.nodes vs) ms)
    → serial_before_sleep w
      ≡ done tt (record w {
        links = emptied (flat_map (family_links w.nodes vs) ms) w.links;
        trace = Call.usleep 1_000_000 ∷ w.trace;
      })
unfolding serial_before_sleep
serial_before_sleep-emptied w ms vs ((c, short), families) live = rw (
    walk-emptied w empty_master (family_links w.nodes vs) w.fresh w.links w.server.master_head ms c
      short (each ms families) live)
  where
    each :
        (ps : List ℕ)
        → All (λ m. (n : Node) × (w.nodes m ≡ some n) × IsVirtuals w n (vs m)) ps
        → All (Empties w empty_master (family_links w.nodes vs)) ps
    each [] fs = tt
    each (p ∷ ps) ((n, at, is), fs) = (empty_master-Empties w vs p n at is, each ps fs)
