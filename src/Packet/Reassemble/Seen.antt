-- ===== src/Packet/Reassemble/Seen.antt =====
-- Which chunks have been received: the drained ones and those whose bit is set.
use packet_test.Common.{
  ℕ, zero, suc, ◌+◌, ◌-◌, ◌*◌, ◌≤◌, ◌<◌, ◌≡◌, refl, arith, List, [], ◌∷◌, none, some, Bool, true,
  false, ltb, ◌==◌, if◌then◌else◌, length, drop, set, get_or, replicate, length-append,
  length-replicate, ◌^◌, Bool-cases, inl, inr,
}
use packet_test.Common.Bytes.{copy_at}
use packet_test.Common.Index.{get_or-drop, get_or-set_self, get_or-set_ne, get_or-pad}
use packet_test.Packet.Reassemble.{
  ReassembledPacket, pending, duplicate, reassembled, grow, first_zero, round_down, take_chunk,
  receive, is_complete, overflows,
}

-- The bit of a chunk; what was drained had been received.
abbrev pub seen_in : ℕ → List Bool → ℕ → Bool
seen_in first bits i = if ltb i first then true else get_or bits (i - first) false

abbrev pub seen : ReassembledPacket → ℕ → Bool
seen r i = seen_in r.first_pending r.received_chunks i

pub first_zero_before :
    (bits : List Bool) (i : ℕ) → i < first_zero bits → get_or bits i false ≡ true
unfolding first_zero
first_zero_before [] i h = absurd (omega arith)
first_zero_before (true ∷ bits) zero h = refl
first_zero_before (true ∷ bits) (suc i) h = first_zero_before bits i (omega arith)
first_zero_before (false ∷ bits) i h = absurd (omega arith)

-- Draining up to the boundary loses nothing.
pub seen_in-drain :
    (first : ℕ) (bits : List Bool) (b i : ℕ)
    → b ≤ first_zero bits
    → seen_in (first + b) (drop b bits) i ≡ seen_in first bits i
seen_in-drain first bits b i h = ground (
  arith,
  first_zero_before bits (i - first),
  get_or-drop b bits (i - (first + b)) (i - first) false,
)

length-grow : (xs : List Bool) (n : ℕ) (v : Bool) → n ≤ length (grow xs n v)
unfolding grow
length-grow xs n v =
    omega
      (arith, length-append xs (replicate (n - length xs) v), length-replicate (n - length xs) v)

get_or-grow : (xs : List Bool) (n i : ℕ) → get_or (grow xs n false) i false ≡ get_or xs i false
unfolding grow
get_or-grow xs n i = get_or-pad xs (n - length xs) i false

-- Setting the bit of a chunk adds that chunk and no other.
pub seen_in-mark :
    (first : ℕ) (bits : List Bool) (i k : ℕ)
    → first ≤ i
    → seen_in first (set (grow bits (i - first + 1) false) (i - first) true) k
      ≡ (if k == i then true else seen_in first bits k)
seen_in-mark first bits i k h =
    let grown = grow bits (i - first + 1) false in
    ground (
      arith,
      length-grow bits (i - first + 1) false,
      get_or-grow bits (i - first + 1) (k - first),
      get_or-set_self grown (i - first) true false,
      get_or-set_ne grown (i - first) (k - first) true false,
    )

-- The bits, the index and the count after a chunk that is new; `last` sets the index.
module _ (r : ReassembledPacket) (last : Bool) (i : ℕ) (chunk : List ℕ) where
  abbrev pub marked : ReassembledPacket
  marked = record r {
    max_index = if last then some i else r.max_index;
    received_chunks =
        set (grow r.received_chunks (i - r.first_pending + 1) false) (i - r.first_pending) true;
  }

  pub receive_drained : i < r.first_pending → receive r last i chunk ≡ none
  unfolding receive
  receive_drained h = ground arith

  pub receive_again :
      r.first_pending ≤ i → seen r i ≡ true → receive r last i chunk ≡ some (duplicate, marked)
  unfolding receive
  receive_again h s =
      ground (arith, get_or-grow r.received_chunks (i - r.first_pending + 1) (i - r.first_pending))

  pub receive_new :
      seen r i ≡ false
      → overflows marked ≡ false
      → receive r last i chunk ≡ some (take_chunk marked i chunk)
  unfolding receive
  receive_new s fine =
      ground (arith, get_or-grow r.received_chunks (i - r.first_pending + 1) (i - r.first_pending))

  pub seen-marked :
      (k : ℕ) → r.first_pending ≤ i → seen marked k ≡ (if k == i then true else seen r k)
  seen-marked k h = seen_in-mark r.first_pending r.received_chunks i k h

pub seen-take_chunk :
    (r : ReassembledPacket) (i : ℕ) (chunk : List ℕ) (k : ℕ)
    → seen (take_chunk r i chunk).1 k ≡ seen r k
unfolding take_chunk
seen-take_chunk r i chunk k =
    let b = round_down (first_zero r.received_chunks) in
    ground (arith, seen_in-drain r.first_pending r.received_chunks b k)

pub pending-le_of_new : (r : ReassembledPacket) (i : ℕ) → seen r i ≡ false → r.first_pending ≤ i
pending-le_of_new r i h = ground arith

-- Where no chunk beyond the `n`-th has come, the zeros begin with the one behind it at the latest.
pub first_zero-le :
    (r : ReassembledPacket) (n : ℕ)
    → ((k : ℕ) → seen r k ≡ true → k ≤ n)
    → r.first_pending ≤ n + 1
    → r.first_pending + first_zero r.received_chunks ≤ n + 1
first_zero-le r n bounded start =
    elim (Bool-cases (ltb (n + 1) (r.first_pending + first_zero r.received_chunks))) [
      | inr within ↦ ground arith
      | inl beyond ↦ absurd (
          ground (
            arith,
            bounded (n + 1),
            first_zero_before r.received_chunks (n + 1 - r.first_pending) (ground arith),
          ))
    ]

-- The sums stay below 2^32 where all the chunks that have come are of a packet of fewer parts.
pub overflows_small :
    (r : ReassembledPacket) (n : ℕ)
    → ((k : ℕ) → seen r k ≡ true → k ≤ n)
    → r.first_pending ≤ n + 1
    → n + 1 < 2 ^ 32
    → r.received_count ≤ n
    → overflows r ≡ false
unfolding overflows
overflows_small r n bounded start small counted = ground (arith, first_zero-le r n bounded start)

-- The two ways of a new chunk.
module _ (r : ReassembledPacket) (i : ℕ) (chunk : List ℕ) where
  abbrev pub payload_after : List ℕ
  payload_after = copy_at (grow r.payload (491 * i + length chunk) 0) (491 * i) chunk

  pub take_chunk_complete :
      is_complete r.received_count r.max_index ≡ true
      → (take_chunk r i chunk).0 ≡ reassembled payload_after
  unfolding take_chunk
  take_chunk_complete e = rw e

  pub take_chunk_pending :
      is_complete r.received_count r.max_index ≡ false
      → let (result, r') = take_chunk r i chunk in
        (result ≡ pending)
        × (r'.received_count ≡ r.received_count + 1)
        × (r'.max_index ≡ r.max_index)
        × (r'.payload ≡ payload_after)
  unfolding take_chunk
  take_chunk_pending e = rw e (refl, refl, refl, refl)

pub first_pending-take_chunk :
    (r : ReassembledPacket) (i : ℕ) (chunk : List ℕ)
    → (take_chunk r i chunk).1.first_pending
      ≡ r.first_pending + round_down (first_zero r.received_chunks)
unfolding take_chunk
first_pending-take_chunk r i chunk = ground arith
