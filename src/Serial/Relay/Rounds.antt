-- ===== src/Serial/Relay/Rounds.antt =====
-- What a device sends, round after round, arrives at its virtuals as the same stream.
use serial_proxy_c.Prelude.{
  ℕ, zero, suc, ◌≡◌, ◌≢◌, refl, ◌∙◌, ap, sym, inl, inr, some, List, [], ◌∷◌, ◌++◌, ◌==◌, All,
  flat_map, Bool-cases, arith, length, some-inj,
}
use mathlib.Core.List.{append-nil, append_assoc}
use serial_proxy_c.Prelude.Text.{Text}
use serial_proxy_c.Machine.Types.{Node, Link, Call, Env, World}
use serial_proxy_c.Machine.Monad.{update}
use serial_proxy_c.Machine.Returns.{Returns, returned, Returns-and_then}
use serial_proxy_c.Log.Laws.{device_calls}
use serial_proxy_c.Serial.Nodes.Chain.{is_among}
use serial_proxy_c.Serial.Nodes.Lists.{IsForest}
use serial_proxy_c.Serial.Transfer.Owner.{IsOpen}
use serial_proxy_c.Serial.Transfer.Read.{filled}
use serial_proxy_c.Serial.Transfer.Proxy.{Port, IsPort}
use serial_proxy_c.Serial.Transfer.FanOut.{read_then_serve}
use serial_proxy_c.Serial.Upkeep.Sleep.{
  Links, Live, emptied, family_links, serial_before_sleep-emptied,
}
use serial_proxy_c.Serial.Relay.{sent, round, relay}
use serial_proxy_c.Serial.Relay.Streams.{
  TakesAll, AllApart, sent_whole, sent-device_calls, share, share-append, share-nil,
  sent_whole-share,
}

-- Every live link stays with its node and its descriptor, whatever it holds.
abbrev Reshaped : Links → Links → Type 0
Reshaped old new =
    (q : ℕ) (k : Link)
    → old q ≡ some k
    → (k' : Link) × (new q ≡ some k') × (k'.node ≡ k.node) × (k'.fd ≡ k.fd)

Reshaped-emptied : (ls : List ℕ) (links : Links) → Reshaped links (emptied ls links)
unfolding emptied
Reshaped-emptied ls links q k at = elim (Bool-cases (is_among q ls)) [
  | inl hit ↦ (record k { recvbuflen = 0 }, rw (hit, at), refl, refl)
  | inr miss ↦ (k, rw (miss, at), refl, refl)
]

Reshaped-filled :
    (links : Links) (l : ℕ) (k : Link) (bytes : List ℕ)
    → links l ≡ some k
    → Reshaped links (update links l (some (filled k bytes)))
Reshaped-filled links l k bytes at q j at' = elim (Bool-cases (q == l)) [
  | inl here ↦
      let address : q ≡ l = ground arith in
      let same : k ≡ j = some-inj (sym at ∙ ap links (sym address) ∙ at') in
      (filled k bytes, ground arith, ap (λ (x : Link). x.node) same, ap (λ (x : Link). x.fd) same)
  | inr away ↦ (j, ground arith, refl, refl)
]

Live-Reshaped : (old new : Links) (ls : List ℕ) → Reshaped old new → Live old ls → Live new ls
Live-Reshaped old new [] shape live = tt
Live-Reshaped old new (l ∷ ls) shape ((k, at), live) =
    let (k', at', node, fd) = shape l k at in ((k', at'), Live-Reshaped old new ls shape live)

IsOpen-Reshaped :
    (w : World) (new : Links) (t : List Call) {l p fd : ℕ} {k : Link} {n : Node}
    → Reshaped w.links new
    → IsOpen w l k p n fd
    → (k' : Link) × IsOpen (record w { links = new; trace = t }) l k' p n fd
IsOpen-Reshaped w new t shape o =
    let (k', at, node, fd) = shape _ _ o.link_at in
    (
      k',
      record {
        link_at = at;
        node_at = o.node_at;
        owner = node ∙ o.owner;
        descriptor = fd ∙ o.descriptor;
        back = o.back;
      },
    )

All-IsPort-Reshaped :
    (w : World) (m : ℕ) (new : Links) (t : List Call) (ss : List Port)
    → Reshaped w.links new
    → All (IsPort w m) ss
    → All (IsPort (record w { links = new; trace = t }) m) ss
All-IsPort-Reshaped w m new t [] shape all = tt
All-IsPort-Reshaped w m new t (s ∷ ss) shape (port, all) =
    let (k, o) = IsOpen-Reshaped w new t shape port.is_open in
    (
      record { content = k; is_open = o; virtual = port.virtual; of_master = port.of_master },
      All-IsPort-Reshaped w m new t ss shape all,
    )

-- The device at `m` is open on `fd`, with the link `l`, its virtuals `ss` are open too, and the lists
-- are well formed, with live links.
pub record IsReady (path : Text) (ms : List ℕ) (vs : ℕ → List ℕ) (l m fd : ℕ) (ss : List Port)
    (w : World) : Type 0 where
  pub logfile : w.server.logfile ≡ some path
  pub forest : IsForest w ms vs
  pub live : Live w.links (flat_map (family_links w.nodes vs) ms)
  pub content : Link
  pub node : Node
  pub device : IsOpen w l content m node fd
  pub ports : All (IsPort w m) ss

module _ (path : Text) (ms : List ℕ) (vs : ℕ → List ℕ) (l m fd : ℕ) (ss : List Port) where
  IsReady-Reshaped :
      (w : World) (new : Links) (t : List Call)
      → Reshaped w.links new
      → IsReady path ms vs l m fd ss w
      → IsReady path ms vs l m fd ss (record w { links = new; trace = t })
  IsReady-Reshaped w new t shape ready =
      let (k, o) = IsOpen-Reshaped w new t shape ready.device in
      record {
        logfile = ready.logfile;
        forest = ready.forest;
        live = Live-Reshaped w.links new _ shape ready.live;
        content = k;
        node = ready.node;
        device = o;
        ports = All-IsPort-Reshaped w m new t ss shape ready.ports;
      }

  module _ (env : Env) (all : TakesAll env) (apart : AllApart ss) (ne : All (λ s. s.link ≢ l) ss)
      (brings : (h : List Call)
        → (b : ℕ) × (bytes : List ℕ) × ((env.received h fd).bytes ≡ b ∷ bytes))
      (d : ℕ) where
    -- One round: the descriptor `d` gets its share of what was read, and everything is ready for the
    -- next round.
    round-sent :
        (w : World)
        → IsReady path ms vs l m fd ss w
        → Returns
            (λ r u.
              IsReady path ms vs l m fd ss u
              × (sent env d u.trace
                  ≡ sent env d w.trace
                    ++ share d ss (env.received (Call.usleep 1_000_000 ∷ w.trace) fd).bytes))
            (round env l ss w)
    round-sent w ready =
        let family = flat_map (family_links w.nodes vs) ms in
        let h : List Call = Call.usleep 1_000_000 ∷ w.trace in
        let w1 : World = record w { links = emptied family w.links; trace = h } in
        let ready1 =
          IsReady-Reshaped w (emptied family w.links) h (Reshaped-emptied family w.links) ready in
        let (b, bytes, got) = brings h in
        let (t, same, e) =
          read_then_serve env w1 path ready1.logfile l m fd ready1.content ready1.node ready1.device
            b bytes got (λ h' d'. (length bytes, all h' d' (b ∷ bytes))) ss ne ready1.ports in
        let quiet : sent_whole d (Call.read fd env.buf_size ∷ device_calls h) ≡ sent env d w.trace =
          append-nil _ ∙ append-nil _ ∙ sym (sent-device_calls env d w.trace all) in
        let stream : sent env d t ≡ sent env d w.trace ++ share d ss (env.received h fd).bytes =
          sent-device_calls env d t all
          ∙ ap (sent_whole d) same
          ∙ sent_whole-share d (b ∷ bytes) ss (Call.read fd env.buf_size ∷ device_calls h) apart
          ∙ rw (quiet, got) refl in
        rw (serial_before_sleep-emptied w ms vs ready.forest ready.live, e)
          (returned (
            IsReady-Reshaped w1 (update w1.links l (some (filled ready1.content (b ∷ bytes)))) t
                (Reshaped-filled w1.links l ready1.content (b ∷ bytes) ready1.device.link_at)
                ready1,
            stream,
          ))

    -- Let a log file be set, the lists of devices and virtuals be well formed and all their links
    -- live, the device with the descriptor `fd` and the ports of its virtuals be open, with
    -- descriptors of the ports that differ from each other and links that differ from the device's.
    -- Let every `write` take all it is given and every `read` from `fd` bring at least one byte. Then
    -- in any number of rounds of the event loop, each of which empties the buffers and sleeps, reads
    -- from the device and finds the virtuals writable, the bytes that reach the descriptor of a
    -- virtual are those that the device sent, each once and in order, and no other descriptor gets
    -- any.
    pub relay-sent :
        (n : ℕ) (w : World)
        → IsReady path ms vs l m fd ss w
        → Returns
            (λ xs u. sent env d u.trace ≡ sent env d w.trace ++ share d ss xs)
            (relay env l fd ss n w)
    unfolding relay
    relay-sent zero w ready = returned (
        sym (append-nil (sent env d w.trace))
        ∙ ap (λ x. sent env d w.trace ++ x) (sym (share-nil d ss)))
    relay-sent (suc n) w ready =
        let h : List Call = Call.usleep 1_000_000 ∷ w.trace in
        let before = sent env d w.trace in
        let arrived = (env.received h fd).bytes in
        Returns-and_then _ (round-sent w ready) (λ r u (ready', now).
          Returns-and_then _ (relay-sent n u ready') (λ xs u' later. returned (
            later
            ∙ ap (λ x. x ++ share d ss xs) now
            ∙ append_assoc before (share d ss arrived) (share d ss xs)
            ∙ ap (λ x. before ++ x) (share-append d ss arrived xs))))
