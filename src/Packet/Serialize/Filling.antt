-- ===== src/Packet/Serialize/Filling.antt =====
-- How a run of buffers fills up with the bytes written, and the datagrams that it comes to.
use mathlib.Core.Path.{subst}
use packet_test.Common.{
  ℕ, zero, suc, ◌+◌, ◌*◌, ◌≤◌, ◌<◌, ◌≡◌, refl, ap, ap₂, ◌∙◌, sym, List, [], ◌∷◌, ◌++◌, map, arith,
  some, false, leb, le→leb, length, take, drop, length-append, append_assoc, append-nil,
  take-append_left, drop-append_left, if◌then◌else◌,
}
use packet_test.Packet.Kind.{Uuid, part, last_part}
use packet_test.Packet.Frame.{frame}
use packet_test.Packet.Buffer.{PacketBuffer, as_ref}
use packet_test.Packet.Buffer.Content.{Holds}
use packet_test.Packet.Serialize.{get_last?, set_last}
use packet_test.Packet.Queue.{not_acked}

pub get_last?-snoc :
    (xs : List PacketBuffer) (b : PacketBuffer) → get_last? (xs ++ (b ∷ [])) ≡ some b
unfolding get_last?
get_last?-snoc [] b = refl
get_last?-snoc (x ∷ []) b = refl
get_last?-snoc (x ∷ y ∷ xs) b = get_last?-snoc (y ∷ xs) b

pub set_last-snoc :
    (xs : List PacketBuffer) (b v : PacketBuffer) → set_last (xs ++ (b ∷ [])) v ≡ xs ++ (v ∷ [])
unfolding set_last
set_last-snoc [] b v = refl
set_last-snoc (x ∷ []) b v = refl
set_last-snoc (x ∷ y ∷ xs) b v = ap (λ l. x ∷ l) (set_last-snoc (y ∷ xs) b v)

module _ {PacketId : Type 0} ⦃u : Uuid PacketId⦄ where
  -- What a packet looks like on the wire, for every way to produce it: parts with 491 bytes each and
  -- the rest, at most 491 bytes, in the last part. The first number bounds the parts before the last.
  unfoldable pub datagrams : ℕ → PacketId → ℕ → List ℕ → List (List ℕ)
  datagrams zero id seq payload = frame last_part id seq payload ∷ []
  datagrams (suc n) id seq payload =
      let more = datagrams n id (seq + 1) (drop 491 payload) in
      if leb (length payload) 491
      then frame last_part id seq payload ∷ []
      else frame part id seq (take 491 payload) ∷ more

  -- A run of full parts, with the bytes that they hold together.
  pub data Full (id : PacketId) : ℕ → List PacketBuffer → List ℕ → Type 0 where
    nothing : {seq : ℕ} → Full id seq [] []
    full :
        {seq : ℕ} {b : PacketBuffer} {bs : List PacketBuffer} {p q : List ℕ}
        → Holds b part id seq p
        → length p ≡ 491
        → Full id (seq + 1) bs q
        → Full id seq (b ∷ bs) (p ++ q)

  pub length-Full :
      {id : PacketId} {seq : ℕ} {bs : List PacketBuffer} {p : List ℕ}
      → Full id seq bs p
      → length p ≡ 491 * length bs
  length-Full nothing = omega arith
  length-Full (full {p = p} {q = q} h e r) = omega (arith, length-append p q, length-Full r)

  -- One more full part at the end.
  pub Full-snoc :
      {id : PacketId} {seq : ℕ} {bs : List PacketBuffer} {p : List ℕ} (b : PacketBuffer)
      (q : List ℕ) (n : ℕ)
      → Full id seq bs p
      → n ≡ seq + length bs
      → Holds b part id n q
      → length q ≡ 491
      → Full id seq (bs ++ (b ∷ [])) (p ++ q)
  Full-snoc {id} {seq} b q n nothing e h l =
      subst (λ t. Full id seq (b ∷ []) t) (append-nil q)
        (full (subst (λ m. Holds b part id m q) (omega arith) h) l nothing)
  Full-snoc {id} {seq} b q n (full {b = b'} {bs = bs} {p = p} {q = p'} h' l' r) e h l =
      subst (λ t. Full id seq (b' ∷ (bs ++ (b ∷ []))) t) (sym (append_assoc p p' q))
        (full h' l' (Full-snoc b q n r (omega arith) h l))

  datagrams_last :
      (k : ℕ) (id : PacketId) (seq : ℕ) (payload : List ℕ)
      → length payload ≤ 491
      → datagrams k id seq payload ≡ frame last_part id seq payload ∷ []
  unfolding datagrams
  datagrams_last zero id seq payload h = refl
  datagrams_last (suc k) id seq payload h = rw (le→leb (length payload) 491 h)

  datagrams-part :
      (k : ℕ) (id : PacketId) (seq : ℕ) (p q : List ℕ)
      → length p ≡ 491
      → 0 < length q
      → datagrams (suc k) id seq (p ++ q) ≡ frame part id seq p ∷ datagrams k id (seq + 1) q
  unfolding datagrams
  datagrams-part k id seq p q e h =
      let long : leb (length (p ++ q)) 491 ≡ false = ground (arith, length-append p q) in
      rw (long, take-append_left 491 p q (omega arith), drop-append_left 491 p q (omega arith))

  -- Full parts and a last part behind them are the packet on the wire.
  pub Full-datagrams :
      {id : PacketId} {seq : ℕ} {bs : List PacketBuffer} {p : List ℕ} (k : ℕ) (b : PacketBuffer)
      (q : List ℕ) (n : ℕ)
      → Full id seq bs p
      → n ≡ seq + length bs
      → Holds b last_part id n q
      → length bs ≤ k
      → (0 < length bs → 0 < length q)
      → map as_ref (bs ++ (b ∷ [])) ≡ datagrams k id seq (p ++ q)
  Full-datagrams {id} {seq} k b q n nothing e h f l =
      let last : Holds b last_part id seq q =
        subst (λ m. Holds b last_part id m q) (omega arith) h in
      ap (λ t. t ∷ []) last.content
      ∙ sym (datagrams_last k id seq q (omega (arith, h.used, h.fits)))
  Full-datagrams {id} {seq} zero b q n (full h' l' r) e h f l = absurd (omega arith)
  Full-datagrams {id} {seq} (suc k) b q n (full {bs = bs} {p = p} {q = p'} h' l' r) e h f l =
      let more : 0 < length (p' ++ q) = omega (arith, length-append p' q) in
      ap₂ ◌∷◌ h'.content
        (Full-datagrams k b q n r (omega arith) h (omega arith) (λ _. l (omega arith)))
      ∙ sym (datagrams-part k id seq p (p' ++ q) l' more)
      ∙ ap (datagrams (suc k) id seq) (sym (append_assoc p p' q))

  -- None of them is acked.
  pub not_acked-Full :
      {id : PacketId} {seq : ℕ} {bs : List PacketBuffer} {p : List ℕ} (b : PacketBuffer)
      → Full id seq bs p
      → b.acked ≡ false
      → not_acked (bs ++ (b ∷ [])) ≡ bs ++ (b ∷ [])
  unfolding not_acked
  not_acked-Full b nothing h = ground (arith, h)
  not_acked-Full b (full {bs = bs} f e r) h = ground (arith, f.fresh, not_acked-Full b r h)
