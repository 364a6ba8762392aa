-- ===== src/Packet/Reassemble/Order.antt =====
-- Reassembly of a packet whose chunks arrive in any order.
use packet_test.Common.{
  ℕ, suc, ◌+◌, ◌-◌, ◌*◌, ◌/◌, ◌≤◌, ◌<◌, ◌≡◌, ◌≢◌, ap, ◌∙◌, arith, List, none, some, Bool, true,
  ◌==◌, if◌then◌else◌, length, take, drop, get_elem?, replicate, length-append, length-replicate,
  length-take, length-drop, Bool-cases, inl, inr, ==_iff, min, ◌⊎◌,
}
use packet_test.Common.Bytes.{copy_at}
use packet_test.Common.Index.{
  get_elem?-append_left, get_elem?-take, get_elem?-drop, get_elem?-ext, get_elem?-copy_at_outside,
  get_elem?-copy_at_inside,
}
use packet_test.Packet.Buffer.Content.{length-copy_at}
use packet_test.Packet.Reassemble.{ReassembledPacket, grow}
use packet_test.Packet.Reassemble.Seen.{seen}
use packet_test.Packet.Reassemble.Count.{count_below}

-- A packet of `n + 1` chunks: all hold 491 bytes but the last, which holds what is left.
module _ (bytes : List ℕ) (n : ℕ) (enough : 491 * n ≤ length bytes)
    (fits : length bytes ≤ 491 * n + 491) where
  abbrev pub chunk : ℕ → List ℕ
  chunk i = take 491 (drop (491 * i) bytes)

  length-chunk : (i : ℕ) → length (chunk i) ≡ min 491 (length bytes - 491 * i)
  length-chunk i =
      omega (arith, length-take 491 (drop (491 * i) bytes), length-drop (491 * i) bytes)

  get_elem?-chunk :
      (i j k : ℕ) → k ≡ 491 * i + j → j < 491 → get_elem? (chunk i) j ≡ get_elem? bytes k
  get_elem?-chunk i j k e h =
      get_elem?-take 491 (drop (491 * i) bytes) j h ∙ get_elem?-drop (491 * i) bytes j k e

  -- The chunks that have been seen are in place, and nothing lies beyond the packet.
  pub record Placed (has : ℕ → Bool) (payload : List ℕ) : Type 0 where
    pub short : length payload ≤ length bytes
    pub placed :
        (i j : ℕ)
        → has i ≡ true
        → 491 * i ≤ j
        → j < 491 * i + 491
        → j < length bytes
        → get_elem? payload j ≡ get_elem? bytes j
    pub reaches : (i : ℕ) → has i ≡ true → 491 * i + length (chunk i) ≤ length payload

  -- The state before the packet is complete.
  pub record Partial (r : ReassembledPacket) : Type 0 where
    pub bounded : (i : ℕ) → seen r i ≡ true → i ≤ n
    pub counted : r.received_count ≡ count_below (seen r) (suc n)
    pub last_known : r.max_index ≡ (if seen r n then some n else none)
    pub content : Placed (seen r) r.payload

  -- The payload after chunk `i` is written into `old`.
  module _ (old : List ℕ) (i : ℕ) (old_short : length old ≤ length bytes) (in_range : i ≤ n) where
    abbrev grown : List ℕ
    grown = grow old (491 * i + length (chunk i)) 0

    abbrev pub written : List ℕ
    written = copy_at grown (491 * i) (chunk i)

    inside : 491 * i ≤ length bytes
    inside = omega arith

    length-grown : length grown ≡ length old + (491 * i + length (chunk i) - length old)
    unfolding grow
    length-grown =
        length-append old (replicate (491 * i + length (chunk i) - length old) 0)
        ∙ ap (λ k. length old + k) (length-replicate (491 * i + length (chunk i) - length old) 0)

    room : 491 * i + length (chunk i) ≤ length grown
    room = omega (arith, length-grown)

    length-written : length written ≡ length old + (491 * i + length (chunk i) - length old)
    length-written = length-copy_at grown (491 * i) (chunk i) room ∙ length-grown

    written_new :
        (j : ℕ)
        → 491 * i ≤ j
        → j < 491 * i + 491
        → j < length bytes
        → get_elem? written j ≡ get_elem? bytes j
    written_new j lo hi h =
        get_elem?-copy_at_inside grown (491 * i) (chunk i) room j (j - 491 * i) (omega arith)
          (omega (arith, length-chunk i))
        ∙ get_elem?-chunk i (j - 491 * i) j (omega arith) (omega arith)

    written_old :
        (j : ℕ)
        → j < length old
        → j < 491 * i ⊎ (491 * i + 491 ≤ j)
        → get_elem? written j ≡ get_elem? old j
    unfolding grow
    written_old j h out =
        get_elem?-copy_at_outside grown (491 * i) (chunk i) room j (away out)
        ∙ get_elem?-append_left old (replicate (491 * i + length (chunk i) - length old) 0) j h
      where
        away : j < 491 * i ⊎ (491 * i + 491 ≤ j) → j < 491 * i ⊎ (491 * i + length (chunk i) ≤ j)
        away (inl lo) = inl lo
        away (inr hi) = inr (omega (arith, length-chunk i))

    -- Writing a chunk puts it in place, and leaves the others where they are.
    pub written-Placed :
        (has has' : ℕ → Bool)
        → ((k : ℕ) → has' k ≡ (if k == i then true else has k))
        → Placed has old
        → Placed has' written
    written-Placed has has' more p = record {
      short = omega (arith, length-written, length-chunk i, p.short, inside);
      placed = λ k j h lo hi in_bytes. elim (Bool-cases (k == i)) [
        | inl same ↦
            let e : k ≡ i = (==_iff k i).0 same in
            written_new j (omega arith) (omega arith) in_bytes
        | inr other ↦
            let before : has k ≡ true = ground (arith, more k) in
            let apart : k ≢ i = ground arith in
            written_old j (omega (arith, p.reaches k before, length-chunk k))
              (chunks_apart k j apart lo hi)
            ∙ p.placed k j before lo hi in_bytes
      ];
      reaches = λ k h. elim (Bool-cases (k == i)) [
        | inl same ↦ let e : k ≡ i = (==_iff k i).0 same in rw e (omega (arith, length-written))
        | inr other ↦
            let before : has k ≡ true = ground (arith, more k) in
            omega (arith, p.reaches k before, length-written)
      ];
    }
      where
        chunks_apart :
            (k j : ℕ) → k ≢ i → 491 * k ≤ j → j < 491 * k + 491 → j < 491 * i ⊎ (491 * i + 491 ≤ j)
        chunks_apart k j apart lo hi = ground arith

  -- With every chunk in place the payload is the packet.
  pub whole-Placed :
      (has : ℕ → Bool) (payload : List ℕ)
      → ((i : ℕ) → i ≤ n → has i ≡ true)
      → Placed has payload
      → payload ≡ bytes
  whole-Placed has payload all p =
      get_elem?-ext payload bytes
        (omega (arith, p.short, p.reaches n (all n (omega arith)), length-chunk n))
        (λ j h. p.placed (j / 491) j (all (j / 491) (omega arith)) (omega arith) (omega arith) h)
