-- ===== src/Common/Bytes.antt =====
-- Byte strings: slices out of range answered by `none`, little-endian words, and copies into a
-- fixed buffer (`copy_from_slice`).
use packet_test.Common.{
  ℕ, zero, suc, ◌+◌, ◌-◌, ◌*◌, ◌/◌, ◌%◌, ◌^◌, ◌<◌, ◌≡◌, refl, ap, List, [], ◌∷◌, ◌++◌, Option, none,
  some, ◌&&◌, arith, leb, if◌then◌else◌, length, take, drop,
}
use native.Mathlib.Nat.{pow-suc}

-- `buf.get(a..b)` and `buf.get(a..)`.
unfoldable pub get_range : List ℕ → ℕ → ℕ → Option (List ℕ)
get_range buf a b = if leb a b && leb b (length buf) then some (take (b - a) (drop a buf)) else none

unfoldable pub get_from : List ℕ → ℕ → Option (List ℕ)
get_from buf a = if leb a (length buf) then some (drop a buf) else none

-- `to_le_bytes` and `from_le_bytes` of a word of `w` bytes.
unfoldable pub to_le_bytes : ℕ → ℕ → List ℕ
to_le_bytes zero n = []
to_le_bytes (suc w) n = n % 256 ∷ to_le_bytes w (n / 256)

unfoldable pub from_le_bytes : List ℕ → ℕ
from_le_bytes [] = 0
from_le_bytes (b ∷ bs) = b + 256 * from_le_bytes bs

pub length-to_le_bytes : (w n : ℕ) → length (to_le_bytes w n) ≡ w
unfolding to_le_bytes
length-to_le_bytes zero n = refl
length-to_le_bytes (suc w) n = ap suc (length-to_le_bytes w (n / 256))

pub from-to_le_bytes : (w n : ℕ) → n < 256 ^ w → from_le_bytes (to_le_bytes w n) ≡ n
unfolding to_le_bytes from_le_bytes
from-to_le_bytes zero n h = omega arith
from-to_le_bytes (suc w) n h =
    let h' : n < 256 ^ w * 256 = rw (← pow-suc 256 w) h in
    let small : n / 256 < 256 ^ w = omega arith in omega (arith, from-to_le_bytes w (n / 256) small)

-- `dst[off..off + src.len()].copy_from_slice(src)`, where the range lies inside `dst`.
unfoldable pub copy_at : List ℕ → ℕ → List ℕ → List ℕ
copy_at dst off src = take off dst ++ (src ++ drop (off + length src) dst)
