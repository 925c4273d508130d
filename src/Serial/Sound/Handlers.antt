-- ===== src/Serial/Sound/Handlers.antt =====
-- The handlers for one readable or writable link, in a sound state.
use serial_proxy_c.Prelude.{
  some-inj, ℕ, ◌≤◌, ◌≡◌, ◌≢◌, refl, inl, inr, ◌⊎◌, ◌∙◌, sym, subst, arith, true, false, Option,
  none, some, List, [], ◌∷◌, length, length-append, length-drop, drop, ltb, Bool-cases,
  Option-cases, List-cases, ℕ-cases,
}
use serial_proxy_c.Prelude.Text.{Text}
use serial_proxy_c.Machine.Types.{Node, Link, Call, Received, Env, World}
use serial_proxy_c.Machine.Memory.{update_same}
use serial_proxy_c.Machine.Returns.{Returns, returned, Returns-of_eq, Returns-weaken}
use serial_proxy_c.Serial.Nodes.{node_is_master, node_is_virtual, node_is_writer}
use serial_proxy_c.Serial.Nodes.Chain.{first_with, first_with-some}
use serial_proxy_c.Serial.Link.Descriptors.{open_fds-OnlyLog}
use serial_proxy_c.Serial.Link.Linked.{Fits}
use serial_proxy_c.Serial.Transfer.{read_handler, write_handler, write_link}
use serial_proxy_c.Serial.Transfer.Owner.{IsOpen}
use serial_proxy_c.Serial.Transfer.Read.{
  filled, pending, read_handler-filled, read_handler-again, read_handler-closed,
}
use serial_proxy_c.Serial.Transfer.Write.{write_link-empty, write_link-sent, write_link-failed}
use serial_proxy_c.Serial.Transfer.Proxy.{
  write_handler-master, write_handler-virtual, write_handler-alone, write_handler-neither,
}
use serial_proxy_c.Serial.Sound.{IsSound, Goes, Goes-trace, Goes-closed, Goes-changed}

-- `read(fd, buf, n)` brings no more than `n` bytes.
abbrev pub ReadsWithin : Env → Type 0
ReadsWithin env = (h : List Call) (fd : ℕ) → length (env.received h fd).bytes ≤ env.buf_size

-- Bytes, or no failure but EAGAIN.
abbrev pub Delivers : Received → Type 0
Delivers r = (r.bytes ≢ []) ⊎ (r.again ≡ true)

Delivers-cases : (r : Received) → Delivers r ⊎ ((r.bytes ≡ []) × (r.again ≡ false))
Delivers-cases r = elim (List-cases r.bytes) [
  | inl empty ↦ elim (Bool-cases r.again) [
    | inl again ↦ inl (inr again)
    | inr failed ↦ inr (empty, failed)
  ]
  | inr (b, bytes, some_bytes) ↦ inl (inl (λ empty. cc))
]

abbrev pub IsLive : World → ℕ → Type 0
IsLive w l = (k : Link) × (w.links l ≡ some k)

module _ (env : Env) (path : Text) (w : World) (sound : IsSound env path w) where
  filled-Fits :
      (k : Link) (bytes : List ℕ)
      → length bytes ≤ env.buf_size
      → Fits env k
      → Fits env (filled k bytes)
  filled-Fits k bytes small (size, fill) = (
    omega (
      arith,
      length-append bytes (drop (length bytes) k.recvbuf),
      length-drop (length bytes) k.recvbuf,
    ),
    omega arith,
  )

  -- A read that brings bytes, or fails with EAGAIN, leaves the link open.
  pub read_handler-stays :
      ReadsWithin env
      → (l : ℕ) (k : Link) → w.links l ≡ some k
      → ((fd : ℕ) → k.fd ≡ some fd → Delivers (env.received w.trace fd))
      → Returns (λ r v. Goes env path w v × IsLive v l) (read_handler env l w)
  read_handler-stays within l k live delivers =
      let (p, n, fd, o, fits) = sound.linked.owned l k live in
      let got = env.received w.trace fd in
      elim (List-cases got.bytes) [
        | inl empty ↦
            let again : got.again ≡ true = elim (delivers fd o.descriptor) [
              | inl some_bytes ↦ absurd (some_bytes empty)
              | inr again ↦ again
            ] in
            Returns-of_eq _ (read_handler-again env w l p fd k n path sound.logfile o empty again)
              (Goes-trace env path w sound _ refl, (k, live))
        | inr (b, bytes, some_bytes) ↦
            let (t, log, e) =
              read_handler-filled env w l p fd k n path sound.logfile o b bytes some_bytes in
            let k' = filled k (b ∷ bytes) in
            let small : length (b ∷ bytes) ≤ env.buf_size =
              subst (λ xs. length xs ≤ env.buf_size) some_bytes (within w.trace fd) in
            Returns-of_eq _ e (
              Goes-changed env path w sound l k k' t live refl refl refl
                  (filled-Fits k (b ∷ bytes) small fits) (open_fds-OnlyLog env log),
              (k', update_same w.links l (some k')),
            )
      ]

  pub read_handler-Goes :
      ReadsWithin env
      → (l : ℕ) (k : Link) → w.links l ≡ some k
      → Returns (λ r. Goes env path w) (read_handler env l w)
  read_handler-Goes within l k live =
      let (p, n, fd, o, fits) = sound.linked.owned l k live in
      let (vs, is, leaves) = sound.tree.virtuals p n o.node_at in
      elim (Delivers-cases (env.received w.trace fd)) [
        | inl delivers ↦
            Returns-weaken
              (read_handler-stays within l k live λ d e.
                subst (λ x. Delivers (env.received w.trace x)) (some-inj (sym o.descriptor ∙ e))
                  delivers)
              λ r v both. both.0
        | inr (empty, failed) ↦
            let (t, log, e) =
              read_handler-closed env w l p fd k n path sound.logfile o vs is empty failed in
            Returns-of_eq _ e
              (Goes-closed env path w sound l p fd _ k n t o (open_fds-OnlyLog env log))
      ]

  write_link-Goes :
      (from : Option ℕ) (l : ℕ) (k : Link)
      → w.links l ≡ some k
      → ((f : ℕ) → from ≡ some f → IsLive w f)
      → Returns (λ r. Goes env path w) (write_link env from l w)
  unfolding write_link
  write_link-Goes none l k live source = returned (Goes-trace env path w sound w.trace refl)
  write_link-Goes (some f) l k live source =
      let (j, live_f) = source f refl in
      let (pf, nf, fdf, of, fits_f) = sound.linked.owned f j live_f in
      let (p, n, fd, o, fits) = sound.linked.owned l k live in
      let (vs, is, leaves) = sound.tree.virtuals p n o.node_at in
      elim (Bool-cases (ltb 0 j.recvbuflen)) [
        | inl waits ↦ elim (ℕ-cases (env.written w.trace fd (pending j))) [
          | inl nothing ↦
              let (t, log, e) =
                write_link-failed env w path sound.logfile f pf fdf j nf of l p fd k n o waits vs is
                  nothing in
              Returns-of_eq _ e
                (Goes-closed env path w sound l p fd _ k n t o (open_fds-OnlyLog env log))
          | inr (m, took) ↦
              let (t, log, e) =
                write_link-sent env w path sound.logfile f pf fdf j nf of l p fd k n o waits m
                  took in
              Returns-of_eq _ e (Goes-trace env path w sound t (open_fds-OnlyLog env log))
        ]
        | inr empty ↦
            Returns-of_eq _ (write_link-empty env w f l j live_f (ground arith))
              (Goes-trace env path w sound w.trace refl)
      ]

  -- The link of a live node is live.
  linked_source :
      (m : ℕ) (mn : Node) → w.nodes m ≡ some mn → (f : ℕ) → mn.link ≡ some f → IsLive w f
  linked_source m mn at f e = let (below, j, live, own) = sound.linked.back m mn f at e in (j, live)

  write_handler-Goes_master :
      (l p fd : ℕ) (k : Link) (n : Node)
      → IsOpen w l k p n fd
      → node_is_virtual n ≡ false
      → node_is_master n ≡ true
      → Returns (λ r. Goes env path w) (write_handler env l w)
  write_handler-Goes_master l p fd k n o real master =
      let (vs, is, leaves) = sound.tree.virtuals p n o.node_at in
      elim (Option-cases (first_with node_is_writer w.nodes vs)) [
        | inl nothing ↦
            Returns-of_eq _ (write_handler-alone env w l p fd k n vs o real master is nothing)
              (Goes-trace env path w sound w.trace refl)
        | inr (v, first) ↦
            let (vn, at) = first_with-some node_is_writer w.nodes n.virtual_head vs v is.0 first in
            rw (write_handler-master env w l p fd k n vs v vn o real master is first at)
              (write_link-Goes vn.link l k o.link_at (linked_source v vn at))
      ]

  pub write_handler-Goes :
      (l : ℕ) (k : Link)
      → w.links l ≡ some k
      → Returns (λ r. Goes env path w) (write_handler env l w)
  write_handler-Goes l k live =
      let (p, n, fd, o, fits) = sound.linked.owned l k live in
      elim (Bool-cases (node_is_virtual n)) [
        | inl virtual ↦
            let (m, mn, of, at) = sound.tree.parent p n o.node_at virtual in
            rw (write_handler-virtual env w l p fd k n m mn o virtual of at)
              (write_link-Goes mn.link l k live (linked_source m mn at))
        | inr real ↦ elim (Bool-cases (node_is_master n)) [
          | inl master ↦ write_handler-Goes_master l p fd k n o real master
          | inr other ↦
              Returns-of_eq _ (write_handler-neither env w l p fd k n o real other)
                (Goes-trace env path w sound w.trace refl)
        ]
      ]
