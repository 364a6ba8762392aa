-- ===== src/Packet/Serialize/VecRun.antt =====
-- The run of `VecPacketSerializer`: it ends, and either takes all bytes or stops with full buffers.
use mathlib.Core.Path.{subst}
use packet_test.Common.{
  ℕ, zero, suc, ◌+◌, ◌-◌, ◌*◌, ◌^◌, ◌≤◌, ◌<◌, ◌≡◌, refl, ap, ◌∙◌, sym, List, [], ◌∷◌, ◌++◌, arith,
  some, Result, ok, err, Bool-cases, inl, inr, true, false, ◌==◌, ==_iff, length, take, drop,
  length-append, append_assoc, append-nil, length-drop, length-take, take-append-drop, min,
}
use packet_test.Packet.Kind.{Uuid, part}
use packet_test.Packet.Buffer.{PacketBuffer, append, new_next}
use packet_test.Packet.Buffer.Content.{
  Holds, append-Holds, append_rest, new_next-Holds, Holds-Headed,
}
use packet_test.Packet.Serialize.{
  VecPacketSerializer, Panicking, vec_write_loop, vec_write, vec_serialize_value,
}
use packet_test.Packet.Serialize.Filling.{
  get_last?-snoc, set_last-snoc, Full, Full-snoc, length-Full,
}

abbrev pub state : ℕ → List PacketBuffer → PacketBuffer → VecPacketSerializer
state t init last = record { background_serialization_threshold = t; buf = init ++ (last ∷ []) }

abbrev pub flat : List (List ℕ) → List ℕ
flat [] = []
flat (w ∷ ws) = w ++ flat ws

pub total_kept :
    (k : ℕ) (p q input : List ℕ) → (p ++ (q ++ take k input)) ++ drop k input ≡ (p ++ q) ++ input
total_kept k p q input =
    append_assoc p (q ++ take k input) (drop k input)
    ∙ ap (λ l. p ++ l)
        (append_assoc q (take k input) (drop k input) ∙ ap (λ l. q ++ l) (take-append-drop k input))
    ∙ sym (append_assoc p q input)

-- One round, by what the append leaves of the input.
module _ (f t : ℕ) (init : List PacketBuffer) (last : PacketBuffer) (x : ℕ) (xs : List ℕ) where
  abbrev rest : List ℕ
  rest = (append last (x ∷ xs)).0

  abbrev last' : PacketBuffer
  last' = (append last (x ∷ xs)).1

  round_again :
      (length rest == suc (length xs)) ≡ false
      → vec_write_loop (suc f) (state t init last) (x ∷ xs)
        ≡ vec_write_loop f (state t init last') rest
  unfolding vec_write_loop
  round_again e = ground (arith, get_last?-snoc init last, set_last-snoc init last last', e)

  round_limit :
      (length rest == suc (length xs)) ≡ true
      → (length (init ++ (last ∷ [])) == t) ≡ true
      → vec_write_loop (suc f) (state t init last) (x ∷ xs) ≡ some (err (init ++ (last' ∷ [])))
  unfolding vec_write_loop
  round_limit e l = ground (arith, get_last?-snoc init last, set_last-snoc init last last', e, l)

  round_push :
      (length rest == suc (length xs)) ≡ true
      → (length (init ++ (last ∷ [])) == t) ≡ false
      → vec_write_loop (suc f) (state t init last) (x ∷ xs)
        ≡ vec_write_loop f (state t (init ++ (last' ∷ [])) (new_next last')) rest
  unfolding vec_write_loop
  round_push e l = ground (arith, get_last?-snoc init last, set_last-snoc init last last', e, l)

-- A whole value, by what its first write gives.
module _ (ws : List (List ℕ)) (s : VecPacketSerializer) (w : List ℕ) where
  after_ok :
      {s' : VecPacketSerializer}
      → vec_write_loop (2 * length w + 2) s w ≡ some (ok s')
      → vec_serialize_value s (w ∷ ws) ≡ vec_serialize_value s' ws
  unfolding vec_serialize_value vec_write
  after_ok e = ground arith

  after_err :
      {bufs : List PacketBuffer}
      → vec_write_loop (2 * length w + 2) s w ≡ some (err bufs)
      → vec_serialize_value s (w ∷ ws) ≡ some (err bufs)
  unfolding vec_serialize_value vec_write
  after_err e = ground arith

module _ {PacketId : Type 0} ⦃u : Uuid PacketId⦄ (id : PacketId) (t : ℕ) where
  -- How a run over the bytes `total` can end.
  pub data Outcome (total : List ℕ) (r : Panicking (Result (List PacketBuffer) VecPacketSerializer))
      : Type 0 where
    finished :
        (init : List PacketBuffer) (last : PacketBuffer) (p q : List ℕ)
        → Full id 0 init p
        → Holds last part id (length init) q
        → p ++ q ≡ total
        → (0 < length init → 0 < length q)
        → r ≡ some (ok (state t init last))
        → Outcome total r
    overflowed :
        (bufs : List PacketBuffer) (p left : List ℕ)
        → Full id 0 bufs p
        → p ++ left ≡ total
        → 0 < length left
        → length bufs ≡ t
        → r ≡ some (err bufs)
        → Outcome total r

  -- The buffers of a run, filled with `p` and, in the last one, `q`.
  record Filled (init : List PacketBuffer) (last : PacketBuffer) (p q : List ℕ) : Type 0 where
    before : Full id 0 init p
    within : Holds last part id (length init) q

  append-Filled :
      {init : List PacketBuffer} {last : PacketBuffer} {p q : List ℕ} (input : List ℕ)
      → Filled init last p q
      → Filled init (append last input).1 p (q ++ take (491 - length q) input)
  append-Filled input s = record { before = s.before; within = append-Holds input s.within }

  push-Filled :
      {init : List PacketBuffer} {last : PacketBuffer} {p q : List ℕ}
      → Filled init last p q
      → length q ≡ 491
      → length init + 1 < 2 ^ 32
      → Filled (init ++ (last ∷ [])) (new_next last) (p ++ q) []
  push-Filled {init} {last} {p} {q} s e small = record {
    before = Full-snoc last q (length init) s.before (omega arith) s.within e;
    within =
        subst (λ n. Holds (new_next last) part id n [])
          (omega (arith, length-append init (last ∷ [])))
          (new_next-Holds (Holds-Headed s.within) small);
  }

  room :
      {init : List PacketBuffer} {last : PacketBuffer} {p q : List ℕ}
      → Filled init last p q
      → length q ≤ 491
  room s = omega (arith, s.within.used, s.within.fits)

  retarget :
      {total total' : List ℕ} {r r' : Panicking (Result (List PacketBuffer) VecPacketSerializer)}
      → total ≡ total'
      → r' ≡ r
      → Outcome total r
      → Outcome total' r'
  retarget e d (finished init last p q a b c n x) = finished init last p q a b (c ∙ e) n (d ∙ x)
  retarget e d (overflowed bufs p left a b c n x) = overflowed bufs p left a (b ∙ e) c n (d ∙ x)

  vec_write_loop-Outcome :
      (f : ℕ) (init : List PacketBuffer) (last : PacketBuffer) (p q input : List ℕ)
      → Filled init last p q
      → 2 * length input < f
      → (length q ≡ 491 → 2 * length input + 1 < f)
      → (0 < length init → 0 < length q + length input)
      → length p + length q + length input ≤ 491 * 2 ^ 32
      → Outcome ((p ++ q) ++ input) (vec_write_loop f (state t init last) input)
  unfolding vec_write_loop
  vec_write_loop-Outcome zero init last p q input s fuel fuel' ne small = absurd (omega arith)
  vec_write_loop-Outcome (suc f) init last p q [] s fuel fuel' ne small =
      finished init last p q s.before s.within (sym (append-nil (p ++ q)))
        (λ h. omega (arith, ne h)) refl
  vec_write_loop-Outcome (suc f) init last p q (x ∷ xs) s fuel fuel' ne small =
      let input : List ℕ = x ∷ xs in
      let k = 491 - length q in
      let q' = q ++ take k input in
      let left = append_rest input s.within in
      let s' = append-Filled input s in
      let shorter : length (append last input).0 ≡ length input - k =
        ap length left ∙ length-drop k input in
      let longer : length q' ≡ length q + min k (length input) =
        length-append q (take k input) ∙ ap (λ n. length q + n) (length-take k input) in
      let fits : length q ≤ 491 = room s in
      let kept : (p ++ q') ++ (append last input).0 ≡ (p ++ q) ++ input =
        ap (λ l. (p ++ q') ++ l) left ∙ total_kept k p q input in
      elim (Bool-cases (length q == 491)) [
        | inl full? ↦
            let whole : length q ≡ 491 = (==_iff (length q) 491).0 full? in
            let stuck : (length (append last input).0 == suc (length xs)) ≡ true =
              (==_iff (length (append last input).0) (suc (length xs))).1 (omega arith) in
            elim (Bool-cases (length (init ++ (last ∷ [])) == t)) [
              | inl limit ↦
                  overflowed (init ++ ((append last input).1 ∷ [])) (p ++ q') (append last input).0
                    (Full-snoc (append last input).1 q' (length init) s'.before (omega arith)
                      s'.within (omega arith))
                    kept (omega arith)
                    (omega (
                      arith,
                      length-append init (last ∷ []),
                      length-append init ((append last input).1 ∷ []),
                      (==_iff (length (init ++ (last ∷ []))) t).0 limit,
                    ))
                    (round_limit f t init last x xs stuck limit)
              | inr below ↦
                  retarget (ap (λ l. l ++ (append last input).0) (append-nil (p ++ q')) ∙ kept)
                    (round_push f t init last x xs stuck below)
                    (vec_write_loop-Outcome f (init ++ ((append last input).1 ∷ []))
                      (new_next (append last input).1) (p ++ q') [] (append last input).0
                      (push-Filled s' (omega arith) (omega (arith, length-Full s.before)))
                      (omega (arith, fuel' whole)) (λ e. absurd (omega arith)) (λ _. omega arith)
                      (omega (arith, length-append p q')))
            ]
        | inr part? ↦
            let space : length q < 491 = ground arith in
            let moves : (length (append last input).0 == suc (length xs)) ≡ false = ground arith in
            retarget kept (round_again f t init last x xs moves) (
              vec_write_loop-Outcome f init (append last input).1 p q' (append last input).0 s'
                (omega arith) (λ e. omega arith) (λ h. omega arith) (omega arith))
      ]

  -- The whole value: what rkyv writes, one string of bytes after another.
  pub vec_serialize_value-Outcome :
      (writes : List (List ℕ)) (init : List PacketBuffer) (last : PacketBuffer) (p q : List ℕ)
      → Full id 0 init p
      → Holds last part id (length init) q
      → (0 < length init → 0 < length q)
      → length p + length q + length (flat writes) ≤ 491 * 2 ^ 32
      → Outcome ((p ++ q) ++ flat writes) (vec_serialize_value (state t init last) writes)
  unfolding vec_serialize_value
  vec_serialize_value-Outcome [] init last p q before within ne small =
      finished init last p q before within (sym (append-nil (p ++ q))) ne refl
  vec_serialize_value-Outcome (w ∷ ws) init last p q before within ne small =
      let long = length-append w (flat ws) in
      let regroup : ((p ++ q) ++ w) ++ flat ws ≡ (p ++ q) ++ (w ++ flat ws) =
        append_assoc (p ++ q) w (flat ws) in
      elim (vec_write_loop-Outcome (2 * length w + 2) init last p q w
        (record { before = before; within = within }) (omega arith) (λ _. omega arith)
        (λ h. omega (arith, ne h)) (omega (arith, long))) [
          | finished init' last' p' q' before' within' all ne' e ↦
              retarget (ap (λ l. l ++ flat ws) all ∙ regroup) (after_ok ws (state t init last) w e)
                (vec_serialize_value-Outcome ws init' last' p' q' before' within' ne' (
                  omega (
                    arith,
                    long,
                    ap length all,
                    length-append p' q',
                    length-append (p ++ q) w,
                    length-append p q,
                  )))
          | overflowed bufs p' left before' all more n e ↦
              overflowed bufs p' (left ++ flat ws) before'
                (sym (append_assoc p' left (flat ws)) ∙ ap (λ l. l ++ flat ws) all ∙ regroup)
                (omega (arith, length-append left (flat ws))) n
                (after_err ws (state t init last) w e)
        ]
