-- ===== src/Packet/Buffer/Content.antt =====
-- What a `PacketBuffer` holds: a frame of the wire, and how each operation changes it.
use packet_test.Common.{
  false, ap₂, take-min, drop-min, take_congr, drop_congr, take-take, drop-take, ℕ, zero, suc, ◌+◌,
  ◌-◌, ◌^◌, ◌≤◌, ◌<◌, min, ◌≡◌, refl, ap, ◌∙◌, sym, List, [], ◌∷◌, ◌++◌, arith, length, take, drop,
  length-append, length-take, length-drop, take_all, take-append_left, drop-append_left,
  append_assoc, append-nil,
}
use packet_test.Common.Bytes.{
  to_le_bytes, from_le_bytes, copy_at, length-to_le_bytes, from-to_le_bytes,
}
use packet_test.Packet.Kind.{Uuid, PacketKind, part, last_part, to_byte}
use packet_test.Packet.Frame.{frame, length-frame}
use packet_test.Packet.Buffer.{
  PacketBuffer, append, skip, new, copy, inc_seq_index, next, mark_last, new_next, as_ref, zeroed,
}

pub length-copy_at :
    (dst : List ℕ) (off : ℕ) (src : List ℕ)
    → off + length src ≤ length dst
    → length (copy_at dst off src) ≡ length dst
unfolding copy_at
length-copy_at dst off src h = omega (
  arith,
  length-append (take off dst) (src ++ drop (off + length src) dst),
  length-append src (drop (off + length src) dst),
  length-take off dst,
  length-drop (off + length src) dst,
)

-- A copy just behind a prefix extends that prefix.
take-copy_at :
    (dst : List ℕ) (off n : ℕ) (src : List ℕ)
    → off + length src ≤ length dst
    → n ≡ off + length src
    → take n (copy_at dst off src) ≡ take off dst ++ src
unfolding copy_at
take-copy_at dst off n src h e =
    rw (← append_assoc (take off dst) src (drop (off + length src) dst)) (
      take-append_left n (take off dst ++ src) (drop (off + length src) dst)
        (omega (arith, length-append (take off dst) src, length-take off dst)))

-- A byte written over the first one.
take-copy_at_head :
    (n : ℕ) (c : ℕ) (bs : List ℕ) (b : ℕ) (rest : List ℕ)
    → take n bs ≡ c ∷ rest
    → take n (copy_at bs 0 (b ∷ [])) ≡ b ∷ rest
unfolding copy_at
take-copy_at_head zero c bs b rest h = cc
take-copy_at_head (suc n) c [] b rest h = cc
take-copy_at_head (suc n) c (x ∷ xs) b rest h = cc

len-inc_seq_index : (b : PacketBuffer) → (inc_seq_index b).len ≡ b.len
unfolding inc_seq_index
len-inc_seq_index b = refl

length-zeroed : length zeroed ≡ 512
unfolding zeroed
length-zeroed = refl

-- The bytes in use, before there is a whole header.
record Contains (b : PacketBuffer) (bs : List ℕ) : Type 0 where
  content : as_ref b ≡ bs
  used : b.len ≡ length bs
  size : length b.bytes ≡ 512

append-Contains :
    {b : PacketBuffer} {bs : List ℕ} (input : List ℕ)
    → Contains b bs
    → length bs + length input ≤ 512
    → Contains (append b input).1 (bs ++ input)
unfolding append as_ref
append-Contains {b} {bs} input h fits =
    let n = min (length input) (512 - b.len) in
    let whole : take n input ≡ input = take_all n input (omega (arith, h.used)) in
    let long : length (take n input) ≡ n = omega (arith, length-take n input) in
    record {
      content =
          take-copy_at b.bytes b.len (b.len + n) (take n input)
            (omega (arith, h.size, h.used, long)) (omega (arith, long))
          ∙ ap₂ ◌++◌ h.content whole;
      used = omega (arith, h.used, length-append bs input);
      size =
          length-copy_at b.bytes b.len (take n input) (omega (arith, h.size, h.used, long))
          ∙ h.size;
    }

module _ {PacketId : Type 0} ⦃u : Uuid PacketId⦄ where
  -- The buffer's bytes in use are the frame of a part with this payload.
  pub record Holds (b : PacketBuffer) (kind : PacketKind) (id : PacketId) (seq : ℕ)
      (payload : List ℕ) : Type 0 where
    pub content : as_ref b ≡ frame kind id seq payload
    pub used : b.len ≡ 21 + length payload
    pub fits : b.len ≤ 512
    pub size : length b.bytes ≡ 512
    pub fresh : b.acked ≡ false

  -- The header alone, whatever follows it.
  pub record Headed (b : PacketBuffer) (kind : PacketKind) (id : PacketId) (seq : ℕ) : Type 0 where
    pub header : take 21 b.bytes ≡ frame kind id seq []
    pub size : length b.bytes ≡ 512
    pub fresh : b.acked ≡ false

  frame-append :
      (kind : PacketKind) (id : PacketId) (seq : ℕ) (p q : List ℕ)
      → frame kind id seq p ++ q ≡ frame kind id seq (p ++ q)
  unfolding frame
  frame-append kind id seq p q = simp (
    append_assoc (u.as_bytes id) (to_le_bytes 4 seq ++ p) q,
    append_assoc (to_le_bytes 4 seq) p q,
  )

  pub Headed-Holds :
      {b : PacketBuffer} {kind : PacketKind} {id : PacketId} {seq : ℕ}
      → Headed b kind id seq
      → b.len ≡ 21
      → Holds b kind id seq []
  unfolding as_ref
  Headed-Holds {b} h e = record {
    content = take_congr b.len 21 b.bytes e ∙ h.header;
    used = omega arith;
    fits = omega arith;
    size = h.size;
    fresh = h.fresh;
  }

  pub Holds-Headed :
      {b : PacketBuffer} {kind : PacketKind} {id : PacketId} {seq : ℕ} {payload : List ℕ}
      → Holds b kind id seq payload
      → Headed b kind id seq
  unfolding as_ref
  Holds-Headed {b} {kind} {id} {seq} {payload} h = record {
    header =
        sym (take-take 21 b.len b.bytes (omega (arith, h.used)))
        ∙ ap (take 21) (h.content ∙ sym (frame-append kind id seq [] payload))
        ∙ take-append_left 21 (frame kind id seq []) payload
            (omega (arith, length-frame kind id seq []));
    size = h.size;
    fresh = h.fresh;
  }

  pub append-Holds :
      {b : PacketBuffer} {kind : PacketKind} {id : PacketId} {seq : ℕ} {payload : List ℕ}
      (input : List ℕ)
      → Holds b kind id seq payload
      → Holds (append b input).1 kind id seq (payload ++ take (491 - length payload) input)
  unfolding append as_ref
  append-Holds {b} {kind} {id} {seq} {payload = p} input h =
      let n = min (length input) (512 - b.len) in
      let cut : take n input ≡ take (491 - length p) input =
        take-min (512 - b.len) input
        ∙ take_congr (512 - b.len) (491 - length p) input (omega (arith, h.used)) in
      let long : length (take n input) ≡ n = omega (arith, length-take n input) in
      record {
        content =
            take-copy_at b.bytes b.len (b.len + n) (take n input)
              (omega (arith, h.size, h.fits, long)) (omega (arith, long))
            ∙ ap₂ ◌++◌ h.content cut
            ∙ frame-append kind id seq p (take (491 - length p) input);
        used =
            omega
              (arith, h.used, ap length cut, long, length-append p (take (491 - length p) input));
        fits = omega (arith, h.fits);
        size =
            length-copy_at b.bytes b.len (take n input) (omega (arith, h.size, h.fits, long))
            ∙ h.size;
        fresh = h.fresh;
      }

  pub append_rest :
      {b : PacketBuffer} {kind : PacketKind} {id : PacketId} {seq : ℕ} {payload : List ℕ}
      (input : List ℕ)
      → Holds b kind id seq payload
      → (append b input).0 ≡ drop (491 - length payload) input
  unfolding append
  append_rest {b} {payload = p} input h =
      drop-min (512 - b.len) input
      ∙ drop_congr (512 - b.len) (491 - length p) input (omega (arith, h.used))

  -- The header in two parts: kind and id, then the sequence index.
  id_part : PacketKind → PacketId → List ℕ
  id_part kind id = to_byte kind ∷ u.as_bytes id

  length-id_part : (kind : PacketKind) (id : PacketId) → length (id_part kind id) ≡ 17
  unfolding id_part
  length-id_part kind id = omega (arith, u.length-as_bytes id)

  frame-header :
      (kind : PacketKind) (id : PacketId) (seq : ℕ)
      → frame kind id seq [] ≡ id_part kind id ++ to_le_bytes 4 seq
  unfolding frame id_part
  frame-header kind id seq = rw append-nil

  module _ {b : PacketBuffer} {kind : PacketKind} {id : PacketId} {seq : ℕ}
      (h : Headed b kind id seq) where
    id_part-kept : take 17 b.bytes ≡ id_part kind id
    id_part-kept =
        sym (take-take 17 21 b.bytes (omega arith))
        ∙ ap (take 17) (h.header ∙ frame-header kind id seq)
        ∙ take-append_left 17 (id_part kind id) (to_le_bytes 4 seq)
            (omega (arith, length-id_part kind id))

    seq_index-read : take 4 (drop 17 b.bytes) ≡ to_le_bytes 4 seq
    seq_index-read =
        sym (drop-take 17 4 b.bytes)
        ∙ ap (drop 17) (h.header ∙ frame-header kind id seq)
        ∙ drop-append_left 17 (id_part kind id) (to_le_bytes 4 seq)
            (omega (arith, length-id_part kind id))

    pub inc_seq_index-Headed : seq + 1 < 2 ^ 32 → Headed (inc_seq_index b) kind id (seq + 1)
    unfolding inc_seq_index
    inc_seq_index-Headed small =
        let read : from_le_bytes (take 4 (drop 17 b.bytes)) ≡ seq =
          ap from_le_bytes seq_index-read ∙ from-to_le_bytes 4 seq (omega arith) in
        let width : length (to_le_bytes 4 (from_le_bytes (take 4 (drop 17 b.bytes)) + 1)) ≡ 4 =
          length-to_le_bytes 4 (from_le_bytes (take 4 (drop 17 b.bytes)) + 1) in
        record {
          header =
              take-copy_at b.bytes 17 21
                (to_le_bytes 4 (from_le_bytes (take 4 (drop 17 b.bytes)) + 1))
                (omega (arith, width, h.size)) (omega (arith, width))
              ∙ ap₂ ◌++◌ id_part-kept (ap (λ n. to_le_bytes 4 (n + 1)) read)
              ∙ sym (frame-header kind id (seq + 1));
          size =
              length-copy_at b.bytes 17
                (to_le_bytes 4 (from_le_bytes (take 4 (drop 17 b.bytes)) + 1))
                (omega (arith, width, h.size))
              ∙ h.size;
          fresh = h.fresh;
        }

  -- `next` and `new_next` start the buffer that follows in the sequence.
  pub next-Holds :
      {b : PacketBuffer} {kind : PacketKind} {id : PacketId} {seq : ℕ}
      → Headed b kind id seq
      → seq + 1 < 2 ^ 32
      → Holds (next b) kind id (seq + 1) []
  unfolding next
  next-Holds {b} {kind} {id} {seq} h small =
      let h' : Headed (record b { len = 21 }) kind id seq = record {
        header = h.header;
        size = h.size;
        fresh = h.fresh;
      } in
      Headed-Holds (inc_seq_index-Headed h' small) (len-inc_seq_index (record b { len = 21 }))

  pub new_next-Holds :
      {b : PacketBuffer} {kind : PacketKind} {id : PacketId} {seq : ℕ}
      → Headed b kind id seq
      → seq + 1 < 2 ^ 32
      → Holds (new_next b) kind id (seq + 1) []
  unfolding new_next
  new_next-Holds {b} {kind} {id} {seq} h small =
      let fresh : PacketBuffer = record {
        acked = false;
        len = 21;
        bytes = copy_at zeroed 0 (take 21 b.bytes);
      } in
      let width : length (take 21 b.bytes) ≡ 21 = omega (arith, length-take 21 b.bytes, h.size) in
      let h' : Headed fresh kind id seq = record {
        header =
            take-copy_at zeroed 0 21 (take 21 b.bytes) (omega (arith, width, length-zeroed))
              (omega (arith, width))
            ∙ h.header;
        size =
            length-copy_at zeroed 0 (take 21 b.bytes) (omega (arith, width, length-zeroed))
            ∙ length-zeroed;
        fresh = refl;
      } in
      Headed-Holds (inc_seq_index-Headed h' small) (len-inc_seq_index fresh)

  pub skip-Headed :
      {b : PacketBuffer} {kind : PacketKind} {id : PacketId} {seq : ℕ} (input : List ℕ)
      → Headed b kind id seq
      → Headed (skip b input).1 kind id seq
  unfolding skip
  skip-Headed input h = record { header = h.header; size = h.size; fresh = h.fresh }

  pub new-Holds : (id : PacketId) → Holds (new id) part id 0 []
  unfolding new as_ref id_part append
  new-Holds id =
      let empty : PacketBuffer = record { acked = false; len = 0; bytes = zeroed } in
      let c₀ : Contains empty [] = record { content = refl; used = refl; size = length-zeroed } in
      let c₁ = append-Contains (to_byte part ∷ []) c₀ (omega arith) in
      let c₂ = append-Contains (u.as_bytes id) c₁ (omega (arith, u.length-as_bytes id)) in
      let b₃ =
        (append (append (append empty (to_byte part ∷ [])).1 (u.as_bytes id)).1
          (to_le_bytes 4 0)).1 in
      let c₃ : Contains b₃ (id_part part id ++ to_le_bytes 4 0) =
        append-Contains (to_le_bytes 4 0) c₂
          (omega (arith, length-id_part part id, length-to_le_bytes 4 0)) in
      let used : length (id_part part id ++ to_le_bytes 4 0) ≡ 21 = omega (
        arith,
        length-append (id_part part id) (to_le_bytes 4 0),
        length-id_part part id,
        length-to_le_bytes 4 0,
      ) in
      record {
        content =
            take_congr 21 b₃.len b₃.bytes (omega (arith, c₃.used, used))
            ∙ c₃.content
            ∙ sym (frame-header part id 0);
        used = refl;
        fits = omega arith;
        size = c₃.size;
        fresh = refl;
      }

  pub mark_last-Holds :
      {b : PacketBuffer} {id : PacketId} {seq : ℕ} {payload : List ℕ}
      → Holds b part id seq payload
      → Holds (mark_last b) last_part id seq payload
  unfolding mark_last as_ref frame
  mark_last-Holds {b} {id} {seq} {payload} h = record {
    content = take-copy_at_head b.len (to_byte part) b.bytes (to_byte last_part) _ h.content;
    used = h.used;
    fits = h.fits;
    size = length-copy_at b.bytes 0 (to_byte last_part ∷ []) (omega (arith, h.size)) ∙ h.size;
    fresh = h.fresh;
  }

  pub copy-Holds :
      {b : PacketBuffer} {kind : PacketKind} {id : PacketId} {seq : ℕ} {payload : List ℕ}
      → Holds b kind id seq payload
      → Holds (copy b) kind id seq payload
  unfolding copy as_ref
  copy-Holds {b} {kind} {id} {seq} {payload} h =
      let width : length (take b.len b.bytes) ≡ b.len =
        omega (arith, length-take b.len b.bytes, h.size, h.fits) in
      record {
        content =
            take-copy_at zeroed 0 b.len (take b.len b.bytes)
              (omega (arith, width, h.fits, length-zeroed)) (omega (arith, width))
            ∙ h.content;
        used = h.used;
        fits = h.fits;
        size =
            length-copy_at zeroed 0 (take b.len b.bytes)
              (omega (arith, width, h.fits, length-zeroed))
            ∙ length-zeroed;
        fresh = refl;
      }
