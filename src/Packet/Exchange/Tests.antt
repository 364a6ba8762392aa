-- ===== src/Packet/Exchange/Tests.antt =====
-- The lives of small packets.
use packet_test.Common.{
  Result, ◌++◌, replicate, ℕ, ◌≡◌, refl, arith, List, [], ◌∷◌, none, some, ok, true, false,
}
use packet_test.Common.Dict.{nat_ord, get}
use packet_test.Socket
use packet_test.Socket.{NonBlockingUdpSocket, IoError}
use packet_test.Packet.Frame.{ack_bytes, done_bytes, frame}
use packet_test.Packet.Kind.{last_part}
use packet_test.Packet.Reassemble.{reassembled}
use packet_test.Packet.Tests.{nat_uuid, answering}
use packet_test.Packet.Buffers.{PacketBuffers, received, finished, acked, send, handle, update}
use packet_test.Packet.Exchange.{packet_life}
use packet_test.Packet.Exchange.Resends.{updates, unacked_life}

abbrev idle : PacketBuffers ℕ
idle = record {
  send_buffer = record { batch_size = 4; packets = [] };
  receive_buffer = record { packets = [] };
}

taken : (bytes : List ℕ) → (Socket.send (answering []) bytes).0 ≡ ok true
unfolding Socket.send
taken bytes = refl

unknown : get 7 idle.receive_buffer.packets ≡ none
unfolding get
unknown = refl

packet_life_example :
    (d : List ℕ) × (a₁ a₂ a₃ b₁ b₂ : PacketBuffers ℕ) × (send idle 7
        ((1 ∷ 2 ∷ []) ∷ (3 ∷ []) ∷ [])
        1
        (answering [])
        100
      ≡ some (ok 7, a₁, (Socket.send (answering []) d).1))
    × (handle idle d (answering []) 110
        ≡ some (
          ok (received (reassembled (1 ∷ 2 ∷ 3 ∷ []))),
          b₁,
          (Socket.send (answering []) (ack_bytes {PacketId = ℕ} 7 0)).1,
        ))
    × (handle a₁ (ack_bytes {PacketId = ℕ} 7 0) (answering []) 120
        ≡ some (ok (acked false), a₂, answering []))
    × (update a₂ 50 (some 3) none (answering []) 150
        ≡ (ok tt, a₃, (Socket.send (answering []) (done_bytes {PacketId = ℕ} 7)).1))
    × (a₃.send_buffer.packets ≡ [])
    × (handle b₁ (done_bytes {PacketId = ℕ} 7) (answering []) 160
        ≡ some (ok (finished true), b₂, answering []))
    × (get 7 b₂.receive_buffer.packets ≡ none)
packet_life_example =
    packet_life idle idle 7 ((1 ∷ 2 ∷ []) ∷ (3 ∷ []) ∷ []) 1 (answering []) (answering [])
      (answering []) (answering []) (answering []) 100 110 120 50 150 160 (some 3) none
      (omega arith) (omega arith) refl unknown
      (taken (frame {PacketId = ℕ} last_part 7 0 (1 ∷ 2 ∷ 3 ∷ [])))
      (taken (ack_bytes {PacketId = ℕ} 7 0)) (omega arith) (taken (done_bytes {PacketId = ℕ} 7))

-- With at most one missed ack allowed, the datagram goes out three times.
unacked_life_example :
    (d : List ℕ) × (a₁ a₂ a₃ : PacketBuffers ℕ) × (s₁ s₂ s₃ : NonBlockingUdpSocket) × (r : Result
      IoError
      (Unit {0}))
    × (send idle 7 ((1 ∷ 2 ∷ []) ∷ []) 1 (answering []) 100 ≡ some (ok 7, a₁, s₁))
    × (updates (150 ∷ 205 ∷ []) 50 1 a₁ s₁ ≡ (a₂, s₂))
    × (s₂.socket.sent ≡ [] ++ replicate 3 (9, d))
    × (update a₂ 50 (some 1) none s₂ 206 ≡ (r, a₃, s₃))
    × (a₃.send_buffer.packets ≡ [])
    × (s₃ ≡ s₂)
unacked_life_example =
    unacked_life idle 7 ((1 ∷ 2 ∷ []) ∷ []) 1 (answering []) 100 50 1 (150 ∷ 205 ∷ []) 206
      (omega arith) (omega arith) refl refl (omega arith, (omega arith, tt)) refl
