-- ===== src/Timer/Drain.antt =====
-- The cascades of a tick: which slots they drain.

use tsf4g.Prelude.{
  ℕ, ◌≡◌, ◌≢◌, refl, sym, ◌∙◌, ap, subst, inl, inr, List, [], ◌∷◌, arith, ◌%◌, ◌==◌, true, false,
  Bool-cases,
}
use tsf4g.Timer.{
  Level, tv1, tv2, tv3, tv4, tv5, unit_of, Timer, Slot, index, cascade, cascade_from, cascade_all,
}
use tsf4g.Timer.Place.{IsEarly, IsDrained}
use tsf4g.Timer.Cascade.{
  IsWheel, IsCleared, Moved, unmoved, then-Moved, cascade-Moved, cascade-IsCleared,
}

abbrev after : Level → Timer → Timer
after l w = cascade w l (index l w.jiffies)

cascade_from-next :
    (l : Level) (ls : List Level) (w : Timer)
    → (index l w.jiffies == 0) ≡ true
    → cascade_from (l ∷ ls) w ≡ cascade_from ls (after l w)
unfolding cascade_from
cascade_from-next l ls w e = rw (cascade_from, e) refl

cascade_from-last :
    (l : Level) (ls : List Level) (w : Timer)
    → (index l w.jiffies == 0) ≡ false
    → cascade_from (l ∷ ls) w ≡ after l w
unfolding cascade_from
cascade_from-last l ls w e = rw (cascade_from, e) refl

after-Moved : {j : ℕ} (l : Level) (w : Timer) → IsEarly j → IsWheel j w → Moved j w (after l w)
after-Moved l w h k = cascade-Moved w (record { level = l; index = index l w.jiffies }) h k

cascade_from-Moved :
    {j : ℕ} (ls : List Level) (w : Timer) → IsEarly j → IsWheel j w → Moved j w (cascade_from ls w)
cascade_from-Moved [] w h k = unfold cascade_from in unmoved k
cascade_from-Moved {j} (l ∷ ls) w h k =
    let m = after-Moved l w h k in
    elim (Bool-cases (index l w.jiffies == 0)) [
      | inl e ↦
          subst (Moved j w) (sym (cascade_from-next l ls w e))
            (then-Moved m (cascade_from-Moved ls (after l w) h m.wheel))
      | inr e ↦ subst (Moved j w) (sym (cascade_from-last l ls w e)) m
    ]

-- The levels of a list that the cascades come to.
data Reached (j : ℕ) : List Level → Level → Type 0 where
  here : {l : Level} {ls : List Level} → Reached j (l ∷ ls) l
  there : {l m : Level} {ls : List Level} → index m j ≡ 0 → Reached j ls l → Reached j (m ∷ ls) l

abbrev pub due : Level → ℕ → Slot
due l j = record { level = l; index = index l j }

after-IsCleared :
    {j : ℕ} (l : Level) (w : Timer)
    → IsEarly j
    → IsWheel j w
    → IsDrained j (due l j)
    → IsCleared (after l w) (due l j)
after-IsCleared {j} l w h k d =
    subst (λ i. IsCleared (cascade w l (index l i)) (due l j)) (sym k.time)
      (cascade-IsCleared w (due l j) h k d)

cascade_from-IsCleared :
    {j : ℕ} {l : Level} {ls : List Level} (w : Timer)
    → IsEarly j
    → IsWheel j w
    → IsDrained j (due l j)
    → Reached j ls l
    → IsCleared (cascade_from ls w) (due l j)
cascade_from-IsCleared {j} w h k d (here {l} {ls}) =
    let m = after-Moved l w h k in
    let c = after-IsCleared l w h k d in
    elim (Bool-cases (index l w.jiffies == 0)) [
      | inl e ↦
          subst (λ w. IsCleared w (due l j)) (sym (cascade_from-next l ls w e))
            ((cascade_from-Moved ls (after l w) h m.wheel).still (due l j) d c)
      | inr e ↦ subst (λ w. IsCleared w (due l j)) (sym (cascade_from-last l ls w e)) c
    ]
cascade_from-IsCleared {j} w h k d (there {l} {m} {ls} z r) =
    let a = after-Moved m w h k in
    let e : (index m w.jiffies == 0) ≡ true =
      ap (λ i. index m i == 0) k.time ∙ (ground (arith, z)) in
    subst (λ w. IsCleared w (due l j)) (sym (cascade_from-next m ls w e))
      (cascade_from-IsCleared (after m w) h a.wheel d r)

abbrev upper : List Level
upper = tv2 ∷ tv3 ∷ tv4 ∷ tv5 ∷ []

reached : (j : ℕ) (l : Level) → l ≢ tv1 → j % unit_of l ≡ 0 → Reached j upper l
reached j tv1 n e = absurd (n refl)
reached j tv2 n e = here
reached j tv3 n e = there (omega arith) here
reached j tv4 n e = there (omega arith) (there (omega arith) here)
reached j tv5 n e = there (omega arith) (there (omega arith) (there (omega arith) here))

round : (j : ℕ) (l : Level) → l ≢ tv1 → j % unit_of l ≡ 0 → index tv1 j ≡ 0
round j tv1 n e = absurd (n refl)
round j tv2 n e = omega arith
round j tv3 n e = omega arith
round j tv4 n e = omega arith
round j tv5 n e = omega arith

cascade_all-round :
    (w : Timer) → (index tv1 w.jiffies == 0) ≡ true → cascade_all w ≡ cascade_from upper w
unfolding cascade_all
cascade_all-round w e = rw (cascade_all, e) refl

cascade_all-between : (w : Timer) → (index tv1 w.jiffies == 0) ≡ false → cascade_all w ≡ w
unfolding cascade_all
cascade_all-between w e = rw (cascade_all, e) refl

pub cascade_all-Moved : {j : ℕ} (w : Timer) → IsEarly j → IsWheel j w → Moved j w (cascade_all w)
cascade_all-Moved {j} w h k = elim (Bool-cases (index tv1 w.jiffies == 0)) [
  | inl e ↦ subst (Moved j w) (sym (cascade_all-round w e)) (cascade_from-Moved upper w h k)
  | inr e ↦ subst (Moved j w) (sym (cascade_all-between w e)) (unmoved k)
]

-- After the cascades of a tick, each slot of a higher vector that comes up is empty.
pub cascade_all-IsCleared :
    {j : ℕ} (w : Timer) (l : Level)
    → IsEarly j
    → IsWheel j w
    → IsDrained j (due l j)
    → IsCleared (cascade_all w) (due l j)
cascade_all-IsCleared {j} w l h k (n, z, i) =
    let e : (index tv1 w.jiffies == 0) ≡ true =
      ap (λ i. index tv1 i == 0) k.time ∙ ground (arith, round j l n z) in
    subst (λ w. IsCleared w (due l j)) (sym (cascade_all-round w e))
      (cascade_from-IsCleared w h k (n, z, i) (reached j l n z))
