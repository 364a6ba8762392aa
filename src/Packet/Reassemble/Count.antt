-- ===== src/Packet/Reassemble/Count.antt =====
-- How many numbers below a bound pass a test.
use packet_test.Common.{
  ℕ, zero, suc, ◌+◌, ◌≤◌, ◌<◌, ◌≡◌, arith, Bool, true, false, ◌==◌, if◌then◌else◌, Bool-cases, inl,
  inr,
}

unfoldable pub count_below : (ℕ → Bool) → ℕ → ℕ
count_below test zero = 0
count_below test (suc n) = if test n then suc (count_below test n) else count_below test n

pub count_below-le : (test : ℕ → Bool) (n : ℕ) → count_below test n ≤ n
unfolding count_below
count_below-le test zero = omega arith
count_below-le test (suc n) = ground (arith, count_below-le test n)

pub count_below_full : (test : ℕ → Bool) (n i : ℕ) → count_below test n ≡ n → i < n → test i ≡ true
unfolding count_below
count_below_full test zero i e h = absurd (omega arith)
count_below_full test (suc n) i e h = elim (Bool-cases (test n)) [
  | inl hit ↦ elim (Bool-cases (i == n)) [
    | inl same ↦ let e' : i ≡ n = ground arith in rw e' hit
    | inr other ↦ count_below_full test n i (ground arith) (ground arith)
  ]
  | inr miss ↦ absurd (ground (arith, count_below-le test n))
]

pub count_below_congr :
    (f g : ℕ → Bool) (n : ℕ) → ((k : ℕ) → f k ≡ g k) → count_below f n ≡ count_below g n
unfolding count_below
count_below_congr f g zero h = omega arith
count_below_congr f g (suc n) h = ground (arith, h n, count_below_congr f g n h)

count_below_same :
    (f g : ℕ → Bool) (i n : ℕ)
    → ((k : ℕ) → g k ≡ (if k == i then true else f k))
    → n ≤ i
    → count_below g n ≡ count_below f n
unfolding count_below
count_below_same f g i zero h le = omega arith
count_below_same f g i (suc n) h le = ground (arith, h n, count_below_same f g i n h (omega arith))

pub count_below_mark :
    (f g : ℕ → Bool) (i n : ℕ)
    → ((k : ℕ) → g k ≡ (if k == i then true else f k))
    → f i ≡ false
    → i < n
    → count_below g n ≡ count_below f n + 1
unfolding count_below
count_below_mark f g i zero h e lt = absurd (omega arith)
count_below_mark f g i (suc n) h e lt = elim (Bool-cases (i == n)) [
  | inl same ↦
      let e' : n ≡ i = ground arith in
      let before = count_below_same f g i n h (omega arith) in
      let hit = h n in let miss : f n ≡ false = rw e' e in ground arith
  | inr other ↦ ground (arith, h n, count_below_mark f g i n h e (ground arith))
]
