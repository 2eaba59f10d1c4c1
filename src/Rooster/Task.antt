-- ===== src/Rooster/Task.antt =====
-- hammer/hammeregg_rooster/src/main.rs: what the tasks of the server share, the map behind its lock
-- and the channels, and how a task reads and changes it between two waits.
use hammeregg.Prelude.{
  ℕ, suc, String, List, ◌∷◌, ◌≡◌, ◌≢◌, arith, Result, ok, err, panic, with_context,
}
use hammeregg.Prelude.HashMap.{HashMap}
use hammeregg.Prelude.Stateful.{Stateful}
pub use hammeregg.Prelude.Stateful.{
  continue, ◌>>=◌, ◌>>◌, pure, lift, raise, gets, modify, lift_inv,
}
use hammeregg.Core.Packet.{HandshakePacket, HandshakeInitPacket}
use hammeregg.Core.Wire.{Message, Codec}
use hammeregg.Rooster.Peers.{Sender, DesktopAndPeers}

-- What has been done with the channels.
pub data Event : Type 0 where
  sent : Sender → Message → Event
  closed : Sender → Event
  receiver_dropped : Sender → Event

-- What the server calls and does not implement: the encoding, and the channels of `futures`. The
-- answer of a channel to `unbounded_send` depends on what was done with the channels before, the
-- newest event first.
pub record Env : Type 0 where
  pub packets : Codec HandshakePacket
  pub init_packets : Codec HandshakeInitPacket
  pub try_send : List Event → Sender → Result (Unit {0})

-- `Desktops`, the number of the next channel, and the events so far.
pub record Shared : Type 0 where
  pub desktops : HashMap String DesktopAndPeers
  pub next_channel : ℕ
  pub log : List Event

abbrev pub Task : Type 0 → Type 0
Task = Stateful Shared

-- `unbounded()`: a channel that is none of the earlier ones.
abbrev pub unbounded : Task Sender
unbounded s = (ok s.next_channel, record s { next_channel = suc s.next_channel })

abbrev record_event : Event → Shared → Shared
record_event e s = record s { log = e ∷ s.log }

module _ ⦃env : Env⦄ where
  -- `tx.unbounded_send(m).context("Couldn't send packet")`
  abbrev after_send : Sender → Message → Result (Unit {0}) → Task (Unit {0})
  after_send tx m (ok _) s = (ok tt, record_event (sent tx m) s)
  after_send tx m (err e) s = (err e, s)
  after_send tx m panic s = (panic, s)

  unfoldable pub send_packet : Sender → Message → Task (Unit {0})
  send_packet tx m s =
      after_send tx m (with_context (env.try_send s.log tx) "Couldn't send packet") s

-- `tx.close_channel()`
abbrev pub close_channel : Sender → Shared → Shared
close_channel tx s = record_event (closed tx) s

-- The end of a task drops the receiving half of its channel.
abbrev pub drop_receiver : Sender → Shared → Shared
drop_receiver tx s = record_event (receiver_dropped tx) s

module _ ⦃env : Env⦄ where
  pub send_packet_inv :
      (tx : Sender) (m : Message) (s t : Shared)
      → send_packet tx m s ≡ (ok tt, t)
      → (env.try_send s.log tx ≡ ok tt) × (t ≡ record s { log = sent tx m ∷ s.log })
  unfolding send_packet
  send_packet_inv tx m s t h = ground arith

  pub send_packet-failure :
      (tx : Sender) (m : Message) (s : Shared)
      → (send_packet tx m s).0 ≢ ok tt
      → (send_packet tx m s).1 ≡ s
  unfolding send_packet
  send_packet-failure tx m s = ground arith
