-- ===== src/Backend/Host.antt =====
-- hammer/hammeregg_backend/src/net.rs and hammer/hammeregg_backend/src/pion.rs: what a desktop holds
-- while it answers offers, and what it calls.
use hammeregg.Prelude.{
  ℕ, List, [], ◌∷◌, Result, ok, Option, some, none, Bool, true, false, not, ◌&&◌, ◌||◌, nat_eq,
  nat_keys,
}
use hammeregg.Prelude.HashMap
use hammeregg.Prelude.HashMap.{HashMap}
use hammeregg.Prelude.Stateful.{Stateful}
use hammeregg.Core.Packet.{Bytes, HandshakePacket}
use hammeregg.Core.Wire.{Message, Codec}
use hammeregg.Backend.Stream.{Argument}

-- `PeerConnection`, a handle that is 0 when it is null.
abbrev pub PeerConnection : Type 0
PeerConnection = ℕ

-- A call of the Pion library, a store into a stop flag, or an operation on a child process.
pub data Call : Type 0 where
  rtp2rtc_init : PeerConnection → Call
  build_offer : Bytes → ℕ → Call
  signal_offer : PeerConnection → ℕ → Call
  rtp2rtc_start : PeerConnection → Call
  rtp2rtc_stop : PeerConnection → Call
  rtp2rtc_free : PeerConnection → Call
  free_cstring : Bytes → Call
  notify : ℕ → Call
  spawn : List Argument → Call
  kill : ℕ → Call

-- `RemoteConnection`: the flag and the process are known by their numbers.
pub record RemoteConnection : Type 0 where
  pub connection : PeerConnection
  pub stop_notifier : ℕ
  pub video_process : ℕ

-- `PionServer` and the `PionCString` of its thread.
pub record PionServer : Type 0 where
  pub stop_notifier : ℕ
  pub answer_c : Option Bytes

-- `remote_ref`, the servers whose threads have not ended, by their connections, the number of the
-- next flag, the answers given to the socket and the calls, the newest first.
pub record Host : Type 0 where
  pub remote : Option RemoteConnection
  pub servers : HashMap PeerConnection PionServer
  pub next_notifier : ℕ
  pub outbox : List Message
  pub calls : List Call

-- What the desktop calls and does not implement: the encoding, the two keys with their padding,
-- AES-GCM under a key and a nonce, the random generator, the Pion library behind its C interface and
-- the operating system. What these answer depends on the calls before.
pub record Services : Type 1 where
  pub packets : Codec HandshakePacket
  pub Rng : Type 0
  pub from_entropy : List Call → Result Rng
  pub try_fill_bytes : ℕ → Rng → Result Bytes × Rng
  pub home_decrypt : Bytes → Result Bytes
  pub remote_encrypt : Rng → Bytes → Result Bytes
  pub aes_encrypt : Bytes → Bytes → Bytes → Result Bytes
  pub aes_decrypt : Bytes → Bytes → Bytes → Result Bytes
  pub init : List Call → PeerConnection
  pub offer : List Call → Bytes → ℕ → ℕ
  pub signal : List Call → PeerConnection → ℕ → Option Bytes
  pub ports : List Call → PeerConnection → Option (ℕ × ℕ)
  pub spawn_child : List Call → List Argument → Result ℕ

abbrev pub Work : Type 0 → Type 0
Work = Stateful Host

abbrev pub call : Call → Host → Host
call c s = record s { calls = c ∷ s.calls }

-- What is asked of the library depends on the calls before, and is one itself.
abbrev pub ask : {A : Type 0} → (List Call → A) → (A → Call) → Work A
ask answer k s = (ok (answer s.calls), call (k (answer s.calls)) s)

-- The flag was set.
abbrev pub notified : ℕ → List Call → Bool
notified n [] = false
notified n (notify m ∷ calls) = let before = notified n calls in nat_eq n m || before
notified n (_ ∷ calls) = notified n calls

-- `RemoteConnection::drop` as one step; Backend/Stopping has its steps.
abbrev pub drop_remote_connection : RemoteConnection → Host → Host
drop_remote_connection r s =
    elim (not (nat_eq r.connection 0) && not (notified r.stop_notifier s.calls)) [
      | true ↦ call (kill r.video_process) (call (rtp2rtc_stop r.connection) s)
      | false ↦ s
    ]

abbrev pub drop_remote : Option RemoteConnection → Host → Host
drop_remote (some r) s = drop_remote_connection r s
drop_remote none s = s

-- `PionCString::drop`
abbrev pub drop_cstring : Option Bytes → Host → Host
drop_cstring (some text) s = call (free_cstring text) s
drop_cstring none s = s

-- `PionServer::drop` as one step, if `hammer_rtp2rtc_stop` returns; Backend/Stopping has its steps over
-- main.go, where that stop waits for ever.
unfoldable pub drop_server : PeerConnection → PionServer → Host → Host
drop_server connection server s = elim (nat_eq connection 0) [
  | true ↦ call (notify server.stop_notifier) s
  | false ↦
      call (rtp2rtc_free connection)
        (call (rtp2rtc_stop connection) (call (notify server.stop_notifier) s))
]

abbrev pub end_server : PeerConnection → Option PionServer → Host → Host
end_server connection (some server) s =
    record (drop_server connection server (drop_cstring server.answer_c s)) {
      servers = HashMap.remove connection s.servers;
    }
end_server connection none s = s

-- The end of a server's thread, at any of its returns: what it owns is dropped.
unfoldable pub thread_ends : PeerConnection → Host → Host
unfolding drop_server
thread_ends connection s = end_server connection (HashMap.get connection s.servers) s
