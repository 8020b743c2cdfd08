-- ===== src/Prelude/Words.antt =====
-- Machine words as native numbers, and byte-addressed memory. A `uint32_t` stands in memory as its
-- four bytes, least significant first.
use Prim.Native.Nat.{ℕ, zero, suc, ◌+◌, ◌-◌, ◌*◌, ◌/◌, ◌%◌, ◌^◌, ◌≤◌, ◌<◌}
use mathlib.Core.Path.{◌≡◌, refl, ap}
use mathlib.Core.Logic.{◌⊎◌, inl}
use mathlib.Core.List.{List, [], ◌∷◌}
use native.Mathlib.Omega.{arith}
use tsf4g.Prelude.Tests.{◌==◌, if◌then◌else◌}
use tsf4g.Prelude.Lists.{length, take}

abbrev pub u16_mod : ℕ
u16_mod = 2 ^ 16

abbrev pub u32_mod : ℕ
u32_mod = 2 ^ 32

abbrev pub u64_mod : ℕ
u64_mod = 2 ^ 64

abbrev pub add32 : ℕ → ℕ → ℕ
add32 a b = (a + b) % u32_mod

abbrev pub sub32 : ℕ → ℕ → ℕ
sub32 a b = (a + u32_mod - b) % u32_mod

-- Any address has a byte; what may be touched is a matter of bounds, which are stated apart.
abbrev pub Memory : Type 0
Memory = ℕ → ℕ

unfoldable pub write_byte : Memory → ℕ → ℕ → Memory
write_byte m o b i = if i == o then b else m i

unfoldable pub write_u32 : Memory → ℕ → ℕ → Memory
unfolding write_byte
write_u32 m o v =
    write_byte
      (write_byte (write_byte (write_byte m o (v % 256)) (o + 1) (v / 256 % 256)) (o + 2)
        (v / 65536 % 256))
      (o + 3) (v / 16777216 % 256)

unfoldable pub read_u32 : Memory → ℕ → ℕ
read_u32 m o = m o + 256 * m (o + 1) + 65536 * m (o + 2) + 16777216 * m (o + 3)

-- The `n` bytes from `o` on.
unfoldable pub slice : Memory → ℕ → ℕ → List ℕ
slice m o zero = []
slice m o (suc n) = m o ∷ slice m (o + 1) n

-- `m'` has the bytes of `m` from `lo` up to `hi`.
abbrev pub Agree : ℕ → ℕ → Memory → Memory → Type 0
Agree lo hi m m' = (i : ℕ) → lo ≤ i → i < hi → m' i ≡ m i

pub read-write_self : (m : Memory) (o v : ℕ) → v < u32_mod → read_u32 (write_u32 m o v) o ≡ v
unfolding read_u32 write_u32
read-write_self m o v h = ground arith

-- A word is written to its own four bytes only.
pub write_u32-ne : (m : Memory) (o v i : ℕ) → (i < o) ⊎ (o + 4 ≤ i) → write_u32 m o v i ≡ m i
unfolding write_u32
write_u32-ne m o v i h = ground arith

pub read_u32-Agree :
    {lo hi : ℕ} {m m' : Memory} (o : ℕ)
    → Agree lo hi m m'
    → lo ≤ o
    → o + 4 ≤ hi
    → read_u32 m' o ≡ read_u32 m o
unfolding read_u32
read_u32-Agree o h l r = omega (
  arith,
  h o (omega arith) (omega arith),
  h (o + 1) (omega arith) (omega arith),
  h (o + 2) (omega arith) (omega arith),
  h (o + 3) (omega arith) (omega arith),
)

pub slice-Agree :
    {lo hi : ℕ} {m m' : Memory} (o n : ℕ)
    → Agree lo hi m m'
    → lo ≤ o
    → o + n ≤ hi
    → slice m' o n ≡ slice m o n
unfolding slice
slice-Agree o zero h l r = refl
slice-Agree {lo} {hi} {m} {m'} o (suc n) h l r = ground (
  arith,
  h o (omega arith) (omega arith),
  slice-Agree {lo = lo} {hi = hi} {m = m} {m' = m'} (o + 1) n h (omega arith) (omega arith),
)

pub length-slice : (m : Memory) (o n : ℕ) → length (slice m o n) ≡ n
unfolding slice
length-slice m o zero = refl
length-slice m o (suc n) = ap suc (length-slice m (o + 1) n)

-- The bytes, one after the other from `o` on.
unfoldable pub store_bytes : Memory → ℕ → List ℕ → Memory
store_bytes m o [] = m
store_bytes m o (x ∷ xs) = store_bytes (write_byte m o x) (o + 1) xs

pub store_bytes-ne :
    (m : Memory) (o : ℕ) (xs : List ℕ) (i : ℕ)
    → (i < o) ⊎ (o + length xs ≤ i)
    → store_bytes m o xs i ≡ m i
unfolding store_bytes write_byte
store_bytes-ne m o [] i h = refl
store_bytes-ne m o (x ∷ xs) i h = ground (arith, store_bytes-ne (write_byte m o x) (o + 1) xs i)

pub slice-store_bytes :
    (m : Memory) (o n : ℕ) (xs : List ℕ)
    → n ≤ length xs
    → slice (store_bytes m o xs) o n ≡ take n xs
unfolding store_bytes slice write_byte
slice-store_bytes m o zero xs h = refl
slice-store_bytes m o (suc n) [] h = absurd (omega arith)
slice-store_bytes m o (suc n) (x ∷ xs) h = ground (
  arith,
  store_bytes-ne (write_byte m o x) (o + 1) xs o (inl (omega arith)),
  slice-store_bytes (write_byte m o x) (o + 1) n xs (omega arith),
)
