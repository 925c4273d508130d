-- ===== src/Serial/Relay.antt =====
-- Rounds of the event loop in which a device keeps sending: what src/serial.c has written to a
-- descriptor, as one stream of bytes.
pub mod Streams
pub mod Rounds
use serial_proxy_c.Prelude.{
  ℕ, zero, suc, Bool, List, [], ◌∷◌, ◌++◌, ◌==◌, some, take, if◌then◌else◌,
}
use serial_proxy_c.Machine.Types.{Call, Env, Received}
use serial_proxy_c.Machine.Monad.{M, pure, ◌>>=◌, ◌>>◌, gets}
use serial_proxy_c.Serial.Link.{ae_readable}
use serial_proxy_c.Serial.Transfer.{event_handler}
use serial_proxy_c.Serial.Transfer.Proxy.{Port, serve}
use serial_proxy_c.Serial.Upkeep.{serial_before_sleep}

-- What one call takes for the descriptor `d`, after the calls `t`.
abbrev pub payload : Env → ℕ → List Call → Call → List ℕ
payload env d t (Call.write e bytes) = if d == e then take (env.written t e bytes) bytes else []
payload env d t _ = []

-- All bytes that `write` took for the descriptor `d`, the oldest first.
unfoldable pub sent : Env → ℕ → List Call → List ℕ
sent env d [] = []
sent env d (c ∷ t) = sent env d t ++ payload env d t c

-- One round of the event loop: it goes to sleep, then finds the link `l` readable and the links of
-- some ports writable.
abbrev pub round : Env → ℕ → List Port → M (Unit {0})
round env l ss = do serial_before_sleep; event_handler env (some l) ae_readable; serve env ss

-- So many rounds, in which the descriptor of `l` is `fd`; the result is what `read` brought, the
-- oldest first. A read comes after the call that sleeps.
unfoldable pub relay : Env → (l fd : ℕ) → List Port → ℕ → M (List ℕ)
relay env l fd ss zero = pure []
relay env l fd ss (suc n) = do
  h ← gets (λ w. w.trace)
  round env l ss
  rest ← relay env l fd ss n
  pure ((env.received (Call.usleep 1_000_000 ∷ h) fd).bytes ++ rest)
