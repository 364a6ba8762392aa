-- ===== src/Packet/Serialize/ChannelRun.antt =====
-- The run of `ChannelPacketSerializer` while the receiver stays: it passes over the buffers that were
-- sent before, and writes the rest of the packet behind them.
use mathlib.Core.Path.{subst}
use packet_test.Common.{
  ℕ, zero, suc, ◌+◌, ◌-◌, ◌*◌, ◌^◌, ◌≤◌, ◌<◌, ◌≡◌, refl, ap, ap₂, ◌∙◌, sym, List, [], ◌∷◌, ◌++◌,
  arith, none, some, Result, ok, Bool-cases, inl, inr, true, false, ◌==◌, ==_iff, length, take,
  drop, length-append, append_assoc, append-nil, length-drop, length-take, take-append-drop,
  drop_congr, drop-min, min,
}
use packet_test.Packet.Kind.{Uuid, part}
use packet_test.Packet.Buffer.{PacketBuffer, append, skip, next, copy}
use packet_test.Packet.Buffer.Content.{
  Headed, Holds, append-Holds, append_rest, next-Holds, Holds-Headed, skip-Headed, copy-Holds,
}
use packet_test.Packet.Serialize.{
  ChannelPacketSerializer, ReceiverDropped, Panicking, tx_send, checked_next, pass_full,
  channel_write_loop, channel_write, channel_serialize_value,
}
use packet_test.Packet.Serialize.Filling.{Full, Full-snoc, length-Full}
use packet_test.Packet.Serialize.VecRun.{flat, total_kept}

abbrev pub channel_state : ℕ → PacketBuffer → List PacketBuffer → ChannelPacketSerializer
channel_state k b sent = record { skip = k; buf = b; tx = record { received = sent; room = none } }

module _ (f k : ℕ) (b : PacketBuffer) (sent : List PacketBuffer) (x : ℕ) (xs : List ℕ) where
  round_skip :
      (length (skip b (x ∷ xs)).0 == suc (length xs)) ≡ false
      → channel_write_loop (suc f) (channel_state (suc k) b sent) (x ∷ xs)
        ≡ channel_write_loop f (channel_state (suc k) (skip b (x ∷ xs)).1 sent) (skip b (x ∷ xs)).0
  unfolding channel_write_loop
  round_skip e = ground (arith, e)

  round_skipped :
      (length (skip b (x ∷ xs)).0 == suc (length xs)) ≡ true
      → (skip b (x ∷ xs)).1.len ≡ 512
      → channel_write_loop (suc f) (channel_state (suc k) b sent) (x ∷ xs)
        ≡ channel_write_loop f (channel_state k (next (skip b (x ∷ xs)).1) sent) (skip b (x ∷ xs)).0
  unfolding channel_write_loop pass_full checked_next
  round_skipped e l = ground (arith, e, l)

  round_write :
      (length (append b (x ∷ xs)).0 == suc (length xs)) ≡ false
      → channel_write_loop (suc f) (channel_state 0 b sent) (x ∷ xs)
        ≡ channel_write_loop f (channel_state 0 (append b (x ∷ xs)).1 sent) (append b (x ∷ xs)).0
  unfolding channel_write_loop
  round_write e = ground (arith, e)

  round_sent :
      (length (append b (x ∷ xs)).0 == suc (length xs)) ≡ true
      → (append b (x ∷ xs)).1.len ≡ 512
      → channel_write_loop (suc f) (channel_state 0 b sent) (x ∷ xs)
        ≡ channel_write_loop f
            (channel_state 0
              (next (append b (x ∷ xs)).1)
              (sent ++ (copy (append b (x ∷ xs)).1 ∷ [])))
            (append b (x ∷ xs)).0
  unfolding channel_write_loop pass_full checked_next tx_send
  round_sent e l = ground (arith, e, l)

skip_rest :
    (b : PacketBuffer) (input : List ℕ) (r : ℕ)
    → b.len ≡ 21 + r
    → (skip b input).0 ≡ drop (491 - r) input
unfolding skip
skip_rest b input r e =
    drop-min (512 - b.len) input ∙ drop_congr (512 - b.len) (491 - r) input (omega arith)

len-skip :
    (b : PacketBuffer) (input : List ℕ)
    → (skip b input).1.len ≡ b.len + min (length input) (512 - b.len)
unfolding skip
len-skip b input = refl

-- Two ways to cut one list, with as much in front.
cut_same {ℓ} :
    {A : Type ℓ} (xs ys xs' ys' : List A)
    → length xs ≡ length xs'
    → xs ++ ys ≡ xs' ++ ys'
    → xs ≡ xs'
cut_same [] ys [] ys' l e = refl
cut_same [] ys (x ∷ xs') ys' l e = absurd (omega arith)
cut_same (x ∷ xs) ys [] ys' l e = absurd (omega arith)
cut_same (x ∷ xs) ys (x' ∷ xs') ys' l e = ap₂ ◌∷◌ (cc) (cut_same xs ys xs' ys' (omega arith) (cc))

module _ {PacketId : Type 0} ⦃u : Uuid PacketId⦄ (id : PacketId) (already : List PacketBuffer)
    (p₀ left total : List ℕ) (before : Full id 0 already p₀) (all : p₀ ++ left ≡ total)
    (some_left : 0 < length already → 0 < length left) (small : length total ≤ 491 * 2 ^ 32) where
  -- Where the serializer stands when the bytes `rest` are still to come.
  pub data Phase (s : ChannelPacketSerializer) (rest : List ℕ) : Type 0 where
    skipping :
        (k seq r : ℕ) (b : PacketBuffer) (c : List ℕ)
        → Headed b part id seq
        → b.len ≡ 21 + r
        → r ≤ 491
        → length c ≡ 491 * seq + r
        → seq + suc k ≡ length already
        → c ++ rest ≡ total
        → s ≡ channel_state (suc k) b already
        → Phase s rest
    writing :
        (sent : List PacketBuffer) (b : PacketBuffer) (p q : List ℕ)
        → Full id 0 sent p
        → Holds b part id (length sent) q
        → (0 < length sent → 0 < length q)
        → (p ++ q) ++ rest ≡ total
        → s ≡ channel_state 0 b sent
        → Phase s rest

  abbrev pub Runs : Panicking (Result ReceiverDropped ChannelPacketSerializer) → List ℕ → Type 0
  Runs r rest = (s : ChannelPacketSerializer) × (r ≡ some (ok s)) × Phase s rest

  via :
      {r r' : Panicking (Result ReceiverDropped ChannelPacketSerializer)} {rest : List ℕ}
      → r' ≡ r
      → Runs r rest
      → Runs r' rest
  via e (s, h, ph) = (s, e ∙ h, ph)

  writing_loop-Runs :
      (f : ℕ) (sent : List PacketBuffer) (b : PacketBuffer) (p q input rest : List ℕ)
      → Full id 0 sent p
      → Holds b part id (length sent) q
      → 2 * length input < f
      → (length q ≡ 491 → 2 * length input + 1 < f)
      → (0 < length sent → 0 < length q + length input)
      → ((p ++ q) ++ input) ++ rest ≡ total
      → Runs (channel_write_loop f (channel_state 0 b sent) input) rest
  unfolding channel_write_loop
  writing_loop-Runs zero sent b p q input rest run h fuel fuel' ne cover = absurd (omega arith)
  writing_loop-Runs (suc f) sent b p q [] rest run h fuel fuel' ne cover = (
    channel_state 0 b sent,
    refl,
    writing sent b p q run h (λ l. omega (arith, ne l))
        (ap (λ l. l ++ rest) (sym (append-nil (p ++ q))) ∙ cover) refl,
  )
  writing_loop-Runs (suc f) sent b p q (x ∷ xs) rest run h fuel fuel' ne cover =
      let input : List ℕ = x ∷ xs in
      let k = 491 - length q in
      let q' = q ++ take k input in
      let after = append_rest input h in
      let h' = append-Holds input h in
      let shorter : length (append b input).0 ≡ length input - k =
        ap length after ∙ length-drop k input in
      let longer : length q' ≡ length q + min k (length input) =
        length-append q (take k input) ∙ ap (λ n. length q + n) (length-take k input) in
      let fits : length q ≤ 491 = omega (arith, h.used, h.fits) in
      let kept : (p ++ q') ++ (append b input).0 ≡ (p ++ q) ++ input =
        ap (λ l. (p ++ q') ++ l) after ∙ total_kept k p q input in
      let sizes : length p + (length q + (length input + length rest)) ≡ length total = omega (
        arith,
        ap length cover,
        length-append ((p ++ q) ++ input) rest,
        length-append (p ++ q) input,
        length-append p q,
      ) in
      elim (Bool-cases (length q == 491)) [
        | inl full? ↦
            let whole : length q ≡ 491 = (==_iff (length q) 491).0 full? in
            let stuck : (length (append b input).0 == suc (length xs)) ≡ true =
              (==_iff (length (append b input).0) (suc (length xs))).1 (omega arith) in
            let next_h = next-Holds (Holds-Headed h') (omega (arith, small, length-Full run)) in
            via (round_sent f 0 b sent x xs stuck (omega (arith, h'.used))) (
              writing_loop-Runs f (sent ++ (copy (append b input).1 ∷ [])) (next (append b input).1)
                (p ++ q') [] (append b input).0 rest
                (Full-snoc (copy (append b input).1) q' (length sent) run (omega arith)
                  (copy-Holds h') (omega arith))
                (subst (λ n. Holds (next (append b input).1) part id n [])
                  (omega (arith, length-append sent (copy (append b input).1 ∷ []))) next_h)
                (omega (arith, fuel' whole)) (λ e. absurd (omega arith)) (λ _. omega arith)
                (ap (λ l. (l ++ (append b input).0) ++ rest) (append-nil (p ++ q'))
                  ∙ ap (λ l. l ++ rest) kept
                  ∙ cover))
        | inr part? ↦
            let space : length q < 491 = ground arith in
            let moves : (length (append b input).0 == suc (length xs)) ≡ false = ground arith in
            via (round_write f 0 b sent x xs moves) (
              writing_loop-Runs f sent (append b input).1 p q' (append b input).0 rest run h'
                (omega arith) (λ e. omega arith) (λ l. omega arith)
                (ap (λ l. l ++ rest) kept ∙ cover))
      ]

  skipping_loop-Runs :
      (f k seq r : ℕ) (b : PacketBuffer) (c input rest : List ℕ)
      → Headed b part id seq
      → b.len ≡ 21 + r
      → r ≤ 491
      → length c ≡ 491 * seq + r
      → seq + suc k ≡ length already
      → 2 * length input < f
      → (r ≡ 491 → 2 * length input + 1 < f)
      → (c ++ input) ++ rest ≡ total
      → Runs (channel_write_loop f (channel_state (suc k) b already) input) rest
  unfolding channel_write_loop
  skipping_loop-Runs zero k seq r b c input rest h len fits pos turn fuel fuel' cover =
      absurd (omega arith)
  skipping_loop-Runs (suc f) k seq r b c [] rest h len fits pos turn fuel fuel' cover = (
    channel_state (suc k) b already,
    refl,
    skipping k seq r b c h len fits pos turn (ap (λ l. l ++ rest) (sym (append-nil c)) ∙ cover)
        refl,
  )
  skipping_loop-Runs (suc f) k seq r b c (x ∷ xs) rest h len fits pos turn fuel fuel' cover =
      let input : List ℕ = x ∷ xs in
      let (left', b') = skip b input in
      let room = 491 - r in
      let after : left' ≡ drop room input = skip_rest b input r len in
      let shorter : length left' ≡ length input - room = ap length after ∙ length-drop room input in
      let grown : b'.len ≡ b.len + min (length input) (512 - b.len) = len-skip b input in
      let h' = skip-Headed input h in
      let c' = c ++ take room input in
      let longer : length c' ≡ length c + min room (length input) =
        length-append c (take room input) ∙ ap (λ n. length c + n) (length-take room input) in
      let kept : c' ++ left' ≡ c ++ input =
        ap (λ l. c' ++ l) after
        ∙ append_assoc c (take room input) (drop room input)
        ∙ ap (λ l. c ++ l) (take-append-drop room input) in
      let onward : (c' ++ left') ++ rest ≡ total = ap (λ l. l ++ rest) kept ∙ cover in
      elim (Bool-cases (r == 491)) [
        | inl full? ↦
            let whole : r ≡ 491 = (==_iff r 491).0 full? in
            let stuck : (length left' == suc (length xs)) ≡ true =
              (==_iff (length left') (suc (length xs))).1 (omega arith) in
            let sizes : length p₀ + length left ≡ length total =
              sym (length-append p₀ left) ∙ ap length all in
            let next_h = next-Holds h' (omega (arith, small, length-Full before)) in
            via (round_skipped f k b already x xs stuck (omega arith)) (
              (elim k
                  as (λ m.
                    seq + suc m ≡ length already
                    → Runs (channel_write_loop f (channel_state m (next b') already) left') rest) [
                      | zero ↦ λ e.
                          writing_loop-Runs f already (next b') p₀ [] left' rest before
                            (subst (λ n. Holds (next b') part id n []) (omega arith) next_h)
                            (omega (arith, fuel' whole)) (λ z. absurd (omega arith))
                            (λ _. omega arith)
                            (ap (λ l. (l ++ left') ++ rest)
                                (append-nil p₀
                                  ∙ sym (
                                      cut_same c' (left' ++ rest) p₀ left
                                        (omega (arith, length-Full before))
                                        (sym (append_assoc c' left' rest) ∙ onward ∙ sym all)))
                              ∙ onward)
                      | suc j ↦ λ e.
                          skipping_loop-Runs f j (seq + 1) 0 (next b') c' left' rest
                            (Holds-Headed next_h) next_h.used (omega arith) (omega arith)
                            (omega arith) (omega (arith, fuel' whole)) (λ z. absurd (omega arith))
                            onward
                    ])
                turn)
        | inr part? ↦
            let space : r < 491 = ground arith in
            let moves : (length left' == suc (length xs)) ≡ false = ground arith in
            via (round_skip f k b already x xs moves) (
              skipping_loop-Runs f k seq (r + min room (length input)) b' c' left' rest h'
                (omega arith) (omega arith) (omega arith) turn (omega arith) (λ e. omega arith)
                onward)
      ]

  channel_write-Runs :
      (s : ChannelPacketSerializer) (w rest : List ℕ)
      → Phase s (w ++ rest)
      → Runs (channel_write s w) rest
  unfolding channel_write
  channel_write-Runs s w rest (skipping k seq r b c h len fits pos turn cover e) = rw e (
      skipping_loop-Runs (2 * length w + 2) k seq r b c w rest h len fits pos turn (omega arith)
        (λ _. omega arith) (append_assoc c w rest ∙ cover))
  channel_write-Runs s w rest (writing sent b p q run h ne cover e) = rw e (
      writing_loop-Runs (2 * length w + 2) sent b p q w rest run h (omega arith) (λ _. omega arith)
        (λ l. omega (arith, ne l)) (append_assoc (p ++ q) w rest ∙ cover))

  -- The whole value.
  pub channel_serialize_value-Runs :
      (ws : List (List ℕ)) (s : ChannelPacketSerializer)
      → Phase s (flat ws)
      → Runs (channel_serialize_value s ws) []
  unfolding channel_serialize_value
  channel_serialize_value-Runs [] s ph = (s, refl, ph)
  channel_serialize_value-Runs (w ∷ ws) s ph =
      let (s', e, ph') = channel_write-Runs s w (flat ws) ph in
      via (after_write e) (channel_serialize_value-Runs ws s' ph')
    where
      after_write :
          {s' : ChannelPacketSerializer}
          → channel_write s w ≡ some (ok s')
          → channel_serialize_value s (w ∷ ws) ≡ channel_serialize_value s' ws
      after_write e = ground arith
