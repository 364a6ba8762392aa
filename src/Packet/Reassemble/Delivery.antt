-- ===== src/Packet/Reassemble/Delivery.antt =====
-- Reassembly of a packet from chunks that come in any order.
use mathlib.Core.Path.{subst}
use packet_test.Common.{
  ap₂, ◌^◌, replicate, ℕ, zero, suc, ◌+◌, ◌*◌, ◌≤◌, ◌<◌, ◌≡◌, ◌≢◌, refl, ap, sym, ◌∙◌, arith, List,
  [], ◌∷◌, ◌++◌, none, some, Bool, true, false, ◌==◌, if◌then◌else◌, length, Bool-cases, inl, inr,
  ==_iff,
}
use packet_test.Packet.Serialize.{Panicking}
use packet_test.Packet.Reassemble.{
  ReassembledPacket, ReceivedPacket, pending, reassembled, new, take_chunk, receive, is_complete,
  round_down, first_zero, overflows,
}
use packet_test.Packet.Reassemble.Seen.{
  seen, marked, receive_new, receive_drained, first_pending-take_chunk, take_chunk_complete,
  take_chunk_pending, seen-marked, seen-take_chunk, pending-le_of_new, overflows_small,
}
use packet_test.Packet.Reassemble.Count.{
  count_below, count_below-le, count_below_full, count_below_mark,
}
use packet_test.Packet.Reassemble.Order.{
  chunk, Placed, Partial, written, written-Placed, whole-Placed,
}

module _ (bytes : List ℕ) (n : ℕ) (enough : 491 * n ≤ length bytes)
    (fits : length bytes ≤ 491 * n + 491) where
  -- One chunk that is new.
  module _ (r : ReassembledPacket) (i : ℕ) (p : Partial bytes n enough fits r) (in_range : i ≤ n)
      (fresh : seen r i ≡ false) where
    abbrev m : ReassembledPacket
    m = marked r (i == n) i (chunk bytes n enough fits i)

    abbrev pub next : ReceivedPacket × ReassembledPacket
    next = take_chunk m i (chunk bytes n enough fits i)

    abbrev count : ℕ
    count = count_below (seen r) (suc n)

    pub seen-next : (k : ℕ) → seen next.1 k ≡ (if k == i then true else seen r k)
    seen-next k =
        seen-take_chunk m i (chunk bytes n enough fits i) k
        ∙ seen-marked r (i == n) i (chunk bytes n enough fits i) k (pending-le_of_new r i fresh)

    pub count-next : count_below (seen next.1) (suc n) ≡ count + 1
    count-next = count_below_mark (seen r) (seen next.1) i (suc n) seen-next fresh (omega arith)

    -- No sum overflows.
    fine : n + 1 < 2 ^ 32 → overflows m ≡ false
    fine small =
        let start = pending-le_of_new r i fresh in
        overflows_small m n
          (λ k s. ground (
            arith,
            s,
            in_range,
            p.bounded k,
            seen-marked r (i == n) i (chunk bytes n enough fits i) k start,
          ))
          (omega arith) small
          (omega (arith, p.counted, count-next, count_below-le (seen next.1) (suc n)))

    pub received : n + 1 < 2 ^ 32 → receive r (i == n) i (chunk bytes n enough fits i) ≡ some next
    received small = receive_new r (i == n) i (chunk bytes n enough fits i) fresh (fine small)

    -- The index of the last chunk is known exactly when that chunk has come.
    last-next : m.max_index ≡ (if seen next.1 n then some n else none)
    last-next = ground (arith, seen-next n, p.last_known)

    complete_iff : is_complete m.received_count m.max_index ≡ (count == n)
    complete_iff = elim (Bool-cases (seen next.1 n)) [
      | inl known ↦ rw (last-next, known, p.counted)
      | inr unknown ↦
          let missing : count ≢ n = λ e.
            cc (
              count_below_full (seen next.1) (suc n) n (omega (arith, count-next)) (omega arith)) in
          let no : (count == n) ≡ false = ground arith in rw (last-next, unknown, no)
    ]

    content-next :
        Placed bytes n enough fits
          (seen next.1)
          (written bytes n enough fits r.payload i p.content.short in_range)
    content-next =
        written-Placed bytes n enough fits r.payload i p.content.short in_range (seen r)
          (seen next.1) seen-next p.content

    abbrev after : List ℕ
    after = written bytes n enough fits r.payload i p.content.short in_range

    pub next_complete : count ≡ n → next.0 ≡ reassembled bytes
    next_complete e =
        let all : (k : ℕ) → k ≤ n → seen next.1 k ≡ true = λ k h.
          count_below_full (seen next.1) (suc n) k (omega (arith, count-next)) (omega arith) in
        take_chunk_complete m i (chunk bytes n enough fits i) (complete_iff ∙ (==_iff count n).1 e)
        ∙ ap reassembled (whole-Placed bytes n enough fits (seen next.1) after all content-next)

    pub next_pending : count ≢ n → (next.0 ≡ pending) × Partial bytes n enough fits next.1
    next_pending e =
        let no : (count == n) ≡ false = ground arith in
        let (result, counted, max, payload) =
          take_chunk_pending m i (chunk bytes n enough fits i) (complete_iff ∙ no) in
        (
          result,
          record {
            bounded = λ k h. elim (Bool-cases (k == i)) [
              | inl same ↦ ground arith
              | inr other ↦ p.bounded k (ground (arith, seen-next k))
            ];
            counted = omega (arith, counted, p.counted, count-next);
            last_known = max ∙ last-next;
            content = subst (Placed bytes n enough fits (seen next.1)) (sym payload) content-next;
          },
        )

-- Lists of numbers without repetition.
abbrev pub NotIn : ℕ → List ℕ → Type 0
NotIn x [] = Unit
NotIn x (y ∷ ys) = (x ≢ y) × NotIn x ys

abbrev pub Distinct : List ℕ → Type 0
Distinct [] = Unit
Distinct (x ∷ xs) = NotIn x xs × Distinct xs

abbrev pub AllUpTo : ℕ → List ℕ → Type 0
AllUpTo n [] = Unit
AllUpTo n (x ∷ xs) = (x ≤ n) × AllUpTo n xs

abbrev AllFresh : (ℕ → Bool) → List ℕ → Type 0
AllFresh has [] = Unit
AllFresh has (x ∷ xs) = (has x ≡ false) × AllFresh has xs

AllFresh-mark :
    (has has' : ℕ → Bool) (i : ℕ) (order : List ℕ)
    → ((k : ℕ) → has' k ≡ (if k == i then true else has k))
    → NotIn i order
    → AllFresh has order
    → AllFresh has' order
AllFresh-mark has has' i [] more apart fresh = tt
AllFresh-mark has has' i (x ∷ order) more apart fresh =
    let differ : i ≢ x = apart.0 in
    (ground (arith, more x, fresh.0), AllFresh-mark has has' i order more apart.1 fresh.1)

AllFresh-none : (order : List ℕ) → AllFresh (seen new) order
unfolding new
AllFresh-none [] = tt
AllFresh-none (x ∷ order) = (ground arith, AllFresh-none order)

count_none : (n : ℕ) → count_below (seen new) n ≡ 0
unfolding count_below new
count_none zero = refl
count_none (suc n) = ground (arith, count_none n)

abbrev pub cons_result :
    ReceivedPacket → Panicking (List ReceivedPacket) → Panicking (List ReceivedPacket)
cons_result x none = none
cons_result x (some xs) = some (x ∷ xs)

module _ (bytes : List ℕ) (n : ℕ) (enough : 491 * n ≤ length bytes)
    (fits : length bytes ≤ 491 * n + 491) where
  -- The answers of `receive` to the packet's chunks, in the order of their arrival.
  unfoldable pub receive_chunks : ReassembledPacket → List ℕ → Panicking (List ReceivedPacket)
  receive_chunks r [] = some []
  receive_chunks r (i ∷ order) = elim (receive r (i == n) i (chunk bytes n enough fits i)) [
    | none ↦ none
    | some (result, r') ↦ cons_result result (receive_chunks r' order)
  ]

  pub one_received :
      (r r' : ReassembledPacket) (result : ReceivedPacket) (i : ℕ) (order : List ℕ)
      → receive r (i == n) i (chunk bytes n enough fits i) ≡ some (result, r')
      → receive_chunks r (i ∷ order) ≡ cons_result result (receive_chunks r' order)
  unfolding receive_chunks
  one_received r r' result i order e = ground (arith, e)

  pub new-Partial : Partial bytes n enough fits new
  unfolding new
  new-Partial = record {
    bounded = λ i h. ground arith;
    counted = sym (count_none (suc n));
    last_known = ground arith;
    content = record {
      short = omega arith;
      placed = λ i j h. ground arith;
      reaches = λ i h. ground arith;
    };
  }

  rest_delivered :
      (order : List ℕ) (r : ReassembledPacket) (i : ℕ)
      → n + 1 < 2 ^ 32
      → Partial bytes n enough fits r
      → Distinct (i ∷ order)
      → AllUpTo n (i ∷ order)
      → AllFresh (seen r) (i ∷ order)
      → count_below (seen r) (suc n) + length order ≡ n
      → receive_chunks r (i ∷ order)
        ≡ some (replicate (length order) pending ++ (reassembled bytes ∷ []))
  unfolding receive_chunks
  rest_delivered [] r i small p apart range fresh total =
      let last = next bytes n enough fits r i p range.0 fresh.0 in
      one_received r last.1 last.0 i [] (received bytes n enough fits r i p range.0 fresh.0 small)
      ∙ ap (λ x. some (x ∷ []))
          (next_complete bytes n enough fits r i p range.0 fresh.0 (omega arith))
  rest_delivered (j ∷ order) r i small p apart range fresh total =
      let step = next bytes n enough fits r i p range.0 fresh.0 in
      let (result, p') = next_pending bytes n enough fits r i p range.0 fresh.0 (omega arith) in
      let more = seen-next bytes n enough fits r i p range.0 fresh.0 in
      one_received r step.1 step.0 i (j ∷ order)
        (received bytes n enough fits r i p range.0 fresh.0 small)
      ∙ ap₂ cons_result result (
          rest_delivered order step.1 j small p' apart.1 range.1
            (AllFresh-mark (seen r) (seen step.1) i (j ∷ order) more apart.0 fresh.1)
            (omega (arith, count-next bytes n enough fits r i p range.0 fresh.0)))

  -- Chunks 0 to `n` of a packet of fewer than 2^32 parts, each once and in any order, are all pending but
  -- the one that comes last, and that one gives back the bytes of the packet. Nothing panics.
  pub any_order_reassembles :
      (i : ℕ) (order : List ℕ)
      → n + 1 < 2 ^ 32
      → Distinct (i ∷ order)
      → AllUpTo n (i ∷ order)
      → length order ≡ n
      → receive_chunks new (i ∷ order) ≡ some (replicate n pending ++ (reassembled bytes ∷ []))
  any_order_reassembles i order small apart range all =
      rest_delivered order new i small new-Partial apart range (AllFresh-none (i ∷ order))
        (omega (arith, all, count_none (suc n)))
      ∙ ap (λ k. some (replicate k pending ++ (reassembled bytes ∷ []))) all

-- Once the bits of the chunks at the front have been drained, which any new chunk does from 256 of them
-- on, a chunk that comes again from among them makes `receive` panic.
pub drained_duplicate_panics :
    (r : ReassembledPacket) (j : ℕ) (c : List ℕ) (last : Bool) (i : ℕ) (c' : List ℕ)
    → i < r.first_pending + round_down (first_zero r.received_chunks)
    → receive (take_chunk r j c).1 last i c' ≡ none
drained_duplicate_panics r j c last i c' h =
    receive_drained (take_chunk r j c).1 last i c'
      (omega (arith, h, first_pending-take_chunk r j c))
