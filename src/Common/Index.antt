-- ===== src/Common/Index.antt =====
-- Lists position by position.
use packet_test.Common.{
  ℕ, zero, suc, ◌+◌, ◌-◌, ◌≤◌, ◌<◌, ◌≡◌, refl, ap, ap₂, ◌∙◌, ◌≢◌, List, [], ◌∷◌, ◌++◌, arith, some,
  ◌⊎◌, inl, inr, length, take, drop, set, get_elem?, get_or, replicate, length-take,
}
use packet_test.Common.Bytes.{copy_at}

module _ {ℓ} {A : Type ℓ} where
  pub get_elem?-append_left :
      (xs ys : List A) (i : ℕ) → i < length xs → get_elem? (xs ++ ys) i ≡ get_elem? xs i
  get_elem?-append_left [] ys i h = absurd (omega arith)
  get_elem?-append_left (x ∷ xs) ys zero h = refl
  get_elem?-append_left (x ∷ xs) ys (suc i) h = get_elem?-append_left xs ys i (omega arith)

  pub get_elem?-append_right :
      (xs ys : List A) (i j : ℕ) → j ≡ length xs + i → get_elem? (xs ++ ys) j ≡ get_elem? ys i
  get_elem?-append_right [] ys i j h = ap (get_elem? ys) (omega arith)
  get_elem?-append_right (x ∷ xs) ys i zero h = absurd (omega arith)
  get_elem?-append_right (x ∷ xs) ys i (suc j) h = get_elem?-append_right xs ys i j (omega arith)

  pub get_elem?-take :
      (n : ℕ) (xs : List A) (i : ℕ) → i < n → get_elem? (take n xs) i ≡ get_elem? xs i
  get_elem?-take zero xs i h = absurd (omega arith)
  get_elem?-take (suc n) [] i h = refl
  get_elem?-take (suc n) (x ∷ xs) zero h = refl
  get_elem?-take (suc n) (x ∷ xs) (suc i) h = get_elem?-take n xs i (omega arith)

  pub get_elem?-drop :
      (n : ℕ) (xs : List A) (i j : ℕ) → j ≡ n + i → get_elem? (drop n xs) i ≡ get_elem? xs j
  get_elem?-drop zero xs i j h = ap (get_elem? xs) (omega arith)
  get_elem?-drop (suc n) [] i j h = refl
  get_elem?-drop (suc n) (x ∷ xs) i zero h = absurd (omega arith)
  get_elem?-drop (suc n) (x ∷ xs) i (suc j) h = get_elem?-drop n xs i j (omega arith)

  -- Lists of one length that agree everywhere are equal.
  pub get_elem?-ext :
      (xs ys : List A)
      → length xs ≡ length ys
      → ((i : ℕ) → i < length ys → get_elem? xs i ≡ get_elem? ys i)
      → xs ≡ ys
  get_elem?-ext [] [] l h = refl
  get_elem?-ext [] (y ∷ ys) l h = absurd (omega arith)
  get_elem?-ext (x ∷ xs) [] l h = absurd (omega arith)
  get_elem?-ext (x ∷ xs) (y ∷ ys) l h =
      let head : some x ≡ some y = h 0 (omega arith) in
      ap₂ ◌∷◌ (cc) (get_elem?-ext xs ys (omega arith) (λ i short. h (suc i) (omega arith)))

  pub get_or-drop :
      (n : ℕ) (xs : List A) (i j : ℕ) (d : A) → j ≡ n + i → get_or (drop n xs) i d ≡ get_or xs j d
  get_or-drop zero xs i j d h = ap (λ k. get_or xs k d) (omega arith)
  get_or-drop (suc n) [] i j d h = refl
  get_or-drop (suc n) (x ∷ xs) i zero d h = absurd (omega arith)
  get_or-drop (suc n) (x ∷ xs) i (suc j) d h = get_or-drop n xs i j d (omega arith)

  pub get_or-set_self :
      (xs : List A) (i : ℕ) (v d : A) → i < length xs → get_or (set xs i v) i d ≡ v
  get_or-set_self [] i v d h = absurd (omega arith)
  get_or-set_self (x ∷ xs) zero v d h = refl
  get_or-set_self (x ∷ xs) (suc i) v d h = get_or-set_self xs i v d (omega arith)

  pub get_or-set_ne :
      (xs : List A) (i j : ℕ) (v d : A) → i ≢ j → get_or (set xs i v) j d ≡ get_or xs j d
  get_or-set_ne [] i j v d h = refl
  get_or-set_ne (x ∷ xs) zero zero v d h = absurd (h refl)
  get_or-set_ne (x ∷ xs) zero (suc j) v d h = refl
  get_or-set_ne (x ∷ xs) (suc i) zero v d h = refl
  get_or-set_ne (x ∷ xs) (suc i) (suc j) v d h = get_or-set_ne xs i j v d (λ e. h (ap suc e))

  get_or-replicate : (m i : ℕ) (d : A) → get_or (replicate m d) i d ≡ d
  get_or-replicate zero i d = refl
  get_or-replicate (suc m) zero d = refl
  get_or-replicate (suc m) (suc i) d = get_or-replicate m i d

  -- Padding with the default shows nowhere.
  pub get_or-pad :
      (xs : List A) (m i : ℕ) (d : A) → get_or (xs ++ replicate m d) i d ≡ get_or xs i d
  get_or-pad [] m i d = get_or-replicate m i d
  get_or-pad (x ∷ xs) m zero d = refl
  get_or-pad (x ∷ xs) m (suc i) d = get_or-pad xs m i d

-- A copy into a longer list, position by position.
module _ (dst : List ℕ) (off : ℕ) (src : List ℕ) (fits : off + length src ≤ length dst) where
  pub get_elem?-copy_at_outside :
      (i : ℕ)
      → i < off ⊎ (off + length src ≤ i)
      → get_elem? (copy_at dst off src) i ≡ get_elem? dst i
  unfolding copy_at
  get_elem?-copy_at_outside i (inl h) =
      get_elem?-append_left (take off dst) (src ++ drop (off + length src) dst) i
        (omega (arith, length-take off dst))
      ∙ get_elem?-take off dst i h
  get_elem?-copy_at_outside i (inr h) =
      get_elem?-append_right (take off dst) (src ++ drop (off + length src) dst) (i - off) i
        (omega (arith, length-take off dst))
      ∙ get_elem?-append_right src (drop (off + length src) dst) (i - off - length src) (i - off)
          (omega arith)
      ∙ get_elem?-drop (off + length src) dst (i - off - length src) i (omega arith)

  pub get_elem?-copy_at_inside :
      (i j : ℕ) → i ≡ off + j → j < length src → get_elem? (copy_at dst off src) i ≡ get_elem? src j
  unfolding copy_at
  get_elem?-copy_at_inside i j e h =
      get_elem?-append_right (take off dst) (src ++ drop (off + length src) dst) j i
        (omega (arith, length-take off dst))
      ∙ get_elem?-append_left src (drop (off + length src) dst) j h
