-- ===== src/Timer/Tick.antt =====
-- Which entries a tick of the timer wheel fires.

use mathlib.Core.Path.{ap₂}
use tsf4g.Prelude.{
  ℕ, ◌+◌, ◌/◌, ◌%◌, ◌≤◌, ◌<◌, ◌≡◌, ◌≢◌, refl, sym, ◌∙◌, ap, subst, ◌⊎◌, inl, inr, arith, Bool-cases,
  ◌==◌,
}
use tsf4g.Timer.{Level, tv1, tv2, tv3, tv4, tv5, unit_of, Slot, index}
use tsf4g.Timer.Place.{IsPlaced, IsSoon, IsDrained, first}
use tsf4g.Timer.Drain.{due}

-- A time that a vector still holds behind the cascades of a tick.
abbrev Ahead : Level → ℕ → ℕ → Type 0
Ahead l j t = (j < t) × (first l (j + 1) ≤ t / unit_of l) × (t / unit_of l < first l (j + 1) + 64)

ahead2 :
    (j t : ℕ)
    → first tv2 j ≤ t / 256
    → t / 256 < first tv2 j + 64
    → (j % 256 ≡ 0 → t / 256 % 64 ≢ j / 256 % 64)
    → Ahead tv2 j t
ahead2 j t from to d = elim (Bool-cases (j % 256 == 0)) [
  | inl e ↦
      let z : j % 256 ≡ 0 = ground arith in let n = d z in (omega arith, omega arith, omega arith)
  | inr e ↦ let z : j % 256 ≢ 0 = ground arith in (omega arith, omega arith, omega arith)
]

ahead3 :
    (j t : ℕ)
    → first tv3 j ≤ t / 16384
    → t / 16384 < first tv3 j + 64
    → (j % 16384 ≡ 0 → t / 16384 % 64 ≢ j / 16384 % 64)
    → Ahead tv3 j t
ahead3 j t from to d = elim (Bool-cases (j % 16384 == 0)) [
  | inl e ↦
      let z : j % 16384 ≡ 0 = ground arith in let n = d z in (omega arith, omega arith, omega arith)
  | inr e ↦ let z : j % 16384 ≢ 0 = ground arith in (omega arith, omega arith, omega arith)
]

ahead4 :
    (j t : ℕ)
    → first tv4 j ≤ t / 1048576
    → t / 1048576 < first tv4 j + 64
    → (j % 1048576 ≡ 0 → t / 1048576 % 64 ≢ j / 1048576 % 64)
    → Ahead tv4 j t
ahead4 j t from to d = elim (Bool-cases (j % 1048576 == 0)) [
  | inl e ↦
      let z : j % 1048576 ≡ 0 = ground arith in
      let n = d z in (omega arith, omega arith, omega arith)
  | inr e ↦ let z : j % 1048576 ≢ 0 = ground arith in (omega arith, omega arith, omega arith)
]

ahead5 :
    (j t : ℕ)
    → first tv5 j ≤ t / 67108864
    → t / 67108864 < first tv5 j + 64
    → (j % 67108864 ≡ 0 → t / 67108864 % 64 ≢ j / 67108864 % 64)
    → Ahead tv5 j t
ahead5 j t from to d = elim (Bool-cases (j % 67108864 == 0)) [
  | inl e ↦
      let z : j % 67108864 ≡ 0 = ground arith in
      let n = d z in (omega arith, omega arith, omega arith)
  | inr e ↦ let z : j % 67108864 ≢ 0 = ground arith in (omega arith, omega arith, omega arith)
]

-- An entry that a higher vector holds behind the cascades of a tick is not due, and is placed for
-- the next tick.
IsLater-next :
    (j i x : ℕ) (l : Level)
    → l ≢ tv1
    → (j % unit_of l ≡ 0 → i ≢ index l j)
    → IsPlaced j (record { level = l; index = i }) x
    → (j < x) × IsPlaced (j + 1) (record { level = l; index = i }) x
IsLater-next j i x tv1 n d p = absurd (n refl)
IsLater-next j i x tv2 n d (t, below, from, to, e) =
    let a = ahead2 j t from to (λ z e'. d z (e ∙ e')) in
    (omega (arith, a.0), (t, below, a.1, a.2, e))
IsLater-next j i x tv3 n d (t, below, from, to, e) =
    let a = ahead3 j t from to (λ z e'. d z (e ∙ e')) in
    (omega (arith, a.0), (t, below, a.1, a.2, e))
IsLater-next j i x tv4 n d (t, below, from, to, e) =
    let a = ahead4 j t from to (λ z e'. d z (e ∙ e')) in
    (omega (arith, a.0), (t, below, a.1, a.2, e))
IsLater-next j i x tv5 n d (t, below, from, to, e) =
    let a = ahead5 j t from to (λ z e'. d z (e ∙ e')) in
    (omega (arith, a.0), (t, below, a.1, a.2, e))

IsSoon-next : (j i x : ℕ) → i ≢ j % 256 → IsSoon j i x → (j < x) × IsSoon (j + 1) i x
IsSoon-next j i x n (inl (from, to, e)) =
    let d : j < x = omega arith in (d, inl (omega arith, omega arith, e))
IsSoon-next j i x n (inr (late, e)) = absurd (n e)

pub IsSoon-due : (j i x : ℕ) → i ≡ j % 256 → IsSoon j i x → x ≤ j
IsSoon-due j i x h (inl (from, to, e)) = omega arith
IsSoon-due j i x h (inr (late, e)) = omega arith

other_slot : (j : ℕ) (t : Slot) → t.level ≡ tv1 → t ≢ due tv1 j → t.index ≢ j % 256
other_slot j t l n e = n (ap₂ (λ l i. record { level = l; index = i }) l (e ∙ omega arith))

level_cases : (l : Level) → (l ≡ tv1) ⊎ (l ≢ tv1)
level_cases tv1 = inl refl
level_cases tv2 = inr (λ e. ground arith)
level_cases tv3 = inr (λ e. ground arith)
level_cases tv4 = inr (λ e. ground arith)
level_cases tv5 = inr (λ e. ground arith)

-- Behind the cascades of a tick an entry that is not in the slot of the tick is not due, and is
-- placed for the next tick.
pub next_lem :
    (j x : ℕ) (t : Slot)
    → IsPlaced j t x
    → (IsDrained j (due t.level j) → t.index ≢ index t.level j)
    → t ≢ due tv1 j
    → (j < x) × IsPlaced (j + 1) t x
next_lem j x t p d n = elim (level_cases t.level) [
  | inl e ↦
      let at1 : t ≡ record { level = tv1; index = t.index } =
        ap (λ l. record { level = l; index = t.index }) e in
      let (a, b) =
        IsSoon-next j t.index x (other_slot j t e n) (subst (λ s. IsPlaced j s x) at1 p) in
      (a, subst (λ s. IsPlaced (j + 1) s x) (sym at1) b)
  | inr l ↦ IsLater-next j t.index x t.level l (λ z. d (l, z, refl)) p
]
