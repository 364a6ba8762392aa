-- ===== src/Packet/Reassemble/Duplicates.antt =====
-- The chunks of a packet in whatever order they come, each as often as it likes.
use mathlib.Core.Path.{subst, fun_ext}
use packet_test.Common.{
  ℕ, suc, ◌+◌, ◌*◌, ◌≤◌, ◌<◌, ◌≡◌, refl, ap, sym, ◌∙◌, arith, List, [], ◌∷◌, some, Bool, true,
  false, ◌==◌, if◌then◌else◌, length, ltb, Bool-cases, inl, inr, ==_iff,
}
use packet_test.Packet.Reassemble.{
  ReassembledPacket, ReceivedPacket, pending, duplicate, reassembled, new, take_chunk, first_zero,
}
use packet_test.Packet.Reassemble.Seen.{
  seen, marked, receive_again, first_pending-take_chunk, seen-marked, seen-take_chunk,
  first_zero_before,
}
use packet_test.Packet.Reassemble.Count.{count_below, count_below_congr, count_below_full}
use packet_test.Packet.Reassemble.Order.{chunk, Partial, Placed}
use packet_test.Packet.Reassemble.Delivery.{
  AllUpTo, next, received, seen-next, count-next, next_complete, next_pending, receive_chunks,
  one_received, cons_result, new-Partial,
}

abbrev pub with_chunk : ℕ → (ℕ → Bool) → ℕ → Bool
with_chunk i has k = if k == i then true else has k

module _ (bytes : List ℕ) (n : ℕ) (enough : 491 * n ≤ length bytes)
    (fits : length bytes ≤ 491 * n + 491) where
  -- What the receiver says of the chunks that come, by those that it has: a chunk that it has is a
  -- duplicate, the last one that it lacks completes the packet, and any other is pending.
  unfoldable pub answers : (ℕ → Bool) → List ℕ → List ReceivedPacket
  answers has [] = []
  answers has (i ∷ order) =
      let later = answers (with_chunk i has) order in
      let again = answers has order in
      if has i
      then duplicate ∷ again
      else (if count_below has (suc n) == n then reassembled bytes else pending) ∷ later

  answers_congr :
      (f g : ℕ → Bool) (order : List ℕ) → ((k : ℕ) → f k ≡ g k) → answers f order ≡ answers g order
  unfolding answers
  answers_congr f g [] same = refl
  answers_congr f g (i ∷ order) same = ground (
    arith,
    same i,
    count_below_congr f g (suc n) same,
    answers_congr f g order same,
    answers_congr (with_chunk i f) (with_chunk i g) order (λ k. ground (arith, same k)),
  )

  -- Nothing of the bits was drained, and every chunk that was seen is one of the packet.
  record Undrained (r : ReassembledPacket) : Type 0 where
    start : r.first_pending ≡ 0
    bounded : (i : ℕ) → seen r i ≡ true → i ≤ n

  -- Either some chunk is missing, or all have come.
  data Progress (r : ReassembledPacket) : Type 0 where
    missing : Partial bytes n enough fits r → Progress r
    complete : ((k : ℕ) → k ≤ n → seen r k ≡ true) → Progress r

  first_zero_le : (r : ReassembledPacket) → Undrained r → first_zero r.received_chunks ≤ n + 1
  first_zero_le r h = elim (Bool-cases (ltb (suc n) (first_zero r.received_chunks))) [
    | inr within ↦ ground arith
    | inl beyond ↦ absurd (
        ground (
          arith,
          h.start,
          h.bounded (suc n),
          first_zero_before r.received_chunks (suc n) (ground arith),
        ))
  ]

  module _ (small : n < 255) (r : ReassembledPacket) (i : ℕ) (h : Undrained r)
      (in_range : i ≤ n) where
    abbrev part : List ℕ
    part = chunk bytes n enough fits i

    abbrev m : ReassembledPacket
    m = marked r (i == n) i part

    marked-Undrained : Undrained m
    marked-Undrained = record {
      start = h.start;
      bounded =
          λ k s. ground (arith, in_range, h.start, h.bounded k, seen-marked r (i == n) i part k);
    }

    -- A chunk that is new drains nothing.
    take_chunk-Undrained : seen r i ≡ false → Undrained (take_chunk m i part).1
    take_chunk-Undrained fresh = record {
      start = ground (
        arith,
        h.start,
        small,
        first_pending-take_chunk m i part,
        first_zero_le m marked-Undrained,
      );
      bounded = λ k s. marked-Undrained.bounded k (sym (seen-take_chunk m i part k) ∙ s);
    }

    -- A chunk that has come before changes nothing that counts.
    module _ (again : seen r i ≡ true) where
      seen_same : seen m ≡ seen r
      seen_same = fun_ext (λ k. ground (arith, again, h.start, seen-marked r (i == n) i part k))

      marked-Progress : Progress r → Progress m
      marked-Progress (complete all) = complete (λ k le. ap (λ f. f k) seen_same ∙ all k le)
      marked-Progress (missing p) = missing (record {
        bounded = marked-Undrained.bounded;
        counted = p.counted ∙ ap (λ f. count_below f (suc n)) (sym seen_same);
        last_known = ground (arith, p.last_known, again, ap (λ f. f n) seen_same);
        content = subst (λ f. Placed bytes n enough fits f r.payload) (sym seen_same) p.content;
      })

    module _ (fresh : seen r i ≡ false) (p : Partial bytes n enough fits r) where
      abbrev after : ReassembledPacket
      after = (next bytes n enough fits r i p in_range fresh).1

      -- The chunk that was missing completes the packet.
      last_chunk :
          count_below (seen r) (suc n) ≡ n
          → ((next bytes n enough fits r i p in_range fresh).0 ≡ reassembled bytes) × Progress after
      last_chunk e = (
        next_complete bytes n enough fits r i p in_range fresh e,
        complete (λ k le.
            count_below_full (seen after) (suc n) k
              (omega (arith, e, count-next bytes n enough fits r i p in_range fresh))
              (omega arith)),
      )

  -- One chunk after another.
  answers_again :
      (has : ℕ → Bool) (i : ℕ) (order : List ℕ)
      → has i ≡ true
      → answers has (i ∷ order) ≡ duplicate ∷ answers has order
  unfolding answers
  answers_again has i order h = rw h refl

  answers_new :
      (has : ℕ → Bool) (i : ℕ) (order : List ℕ)
      → has i ≡ false
      → answers has (i ∷ order)
        ≡ (if count_below has (suc n) == n then reassembled bytes else pending)
          ∷ answers (with_chunk i has) order
  unfolding answers
  answers_new has i order h = rw h refl

  answers_received :
      (order : List ℕ) (r : ReassembledPacket)
      → n < 255
      → Undrained r
      → Progress r
      → AllUpTo n order
      → receive_chunks bytes n enough fits r order ≡ some (answers (seen r) order)
  unfolding receive_chunks answers
  answers_received [] r small h g range = refl
  answers_received (i ∷ order) r small h g range = elim (Bool-cases (seen r i)) [
    | inl again ↦
        let r' = m small r i h range.0 in
        one_received bytes n enough fits r r' duplicate i order
          (receive_again r (i == n) i (chunk bytes n enough fits i) (omega (arith, h.start)) again)
        ∙ ap (cons_result duplicate) (
            answers_received order r' small (marked-Undrained small r i h range.0)
              (marked-Progress small r i h range.0 again g) range.1
            ∙ ap (λ f. some (answers f order)) (seen_same small r i h range.0 again))
        ∙ ap some (sym (answers_again (seen r) i order again))
    | inr fresh ↦ elim g [
      | complete all ↦ absurd (ground (arith, fresh, all i range.0))
      | missing p ↦
          let (said, r') = next bytes n enough fits r i p range.0 fresh in
          let undrained = take_chunk-Undrained small r i h range.0 fresh in
          let step =
            one_received bytes n enough fits r r' said i order
              (received bytes n enough fits r i p range.0 fresh (omega arith)) in
          let later : answers (seen r') order ≡ answers (with_chunk i (seen r)) order =
            answers_congr (seen r') (with_chunk i (seen r)) order
              (seen-next bytes n enough fits r i p range.0 fresh) in
          elim (Bool-cases (count_below (seen r) (suc n) == n)) [
            | inl whole ↦
                let (result, g') = last_chunk small r i h range.0 fresh p ((==_iff _ n).0 whole) in
                ground (
                  arith,
                  step,
                  result,
                  whole,
                  later,
                  answers_received order r' small undrained g' range.1,
                  answers_new (seen r) i order fresh,
                )
            | inr some_missing ↦
                let (result, p') =
                  next_pending bytes n enough fits r i p range.0 fresh
                    (ground (arith, some_missing)) in
                ground (
                  arith,
                  step,
                  result,
                  some_missing,
                  later,
                  answers_received order r' small undrained (missing p') range.1,
                  answers_new (seen r) i order fresh,
                )
          ]
    ]
  ]

  nothing_seen : (k : ℕ) → seen new k ≡ false
  unfolding new
  nothing_seen k = ground arith

  new-Undrained : Undrained new
  unfolding new
  new-Undrained = record { start = refl; bounded = λ k s. ground (arith, s, nothing_seen k) }

  -- For a packet of at most 255 parts, whatever chunks of it come in whatever order, and however often
  -- each, `receive` does not panic, and its answers are those of the plain description: a chunk that
  -- has come before is a duplicate, the one that completes the packet is answered with its bytes, and
  -- any other is pending.
  pub any_arrivals_answered :
      (order : List ℕ)
      → n < 255
      → AllUpTo n order
      → receive_chunks bytes n enough fits new order ≡ some (answers (λ _. false) order)
  any_arrivals_answered order small range =
      answers_received order new small new-Undrained (missing (new-Partial bytes n enough fits))
        range
      ∙ ap some (answers_congr (seen new) (λ _. false) order nothing_seen)
