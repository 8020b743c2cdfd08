-- ===== src/Timer/Slots.antt =====
-- The lists of a timer wheel: what a slot holds after it is set.
use mathlib.Core.List.{Memᴰ}
use mathlib.Core.List.Memᴰ.{head, tail, cases_cons}
use mathlib.Core.Path.{ap₂}
use tsf4g.Prelude.{
  ℕ, ◌≡◌, ◌≢◌, refl, sym, ap, subst, ◌⊎◌, inl, inr, List, ◌∷◌, arith, ◌==◌, if◌then◌else◌, true,
  ◌&&◌, Bool-cases,
}
use tsf4g.Timer.{Entry, Level, tv1, tv2, tv3, tv4, tv5, same, Timer, Slot, put_slot, push, place}

same-eq : (l m : Level) → same l m ≡ true → l ≡ m
same-eq tv1 m h = ground arith
same-eq tv2 m h = ground arith
same-eq tv3 m h = ground arith
same-eq tv4 m h = ground arith
same-eq tv5 m h = ground arith

abbrev pub at : Timer → Slot → List Entry
at w s = w.vec s.level s.index

same_slot : (s t : Slot) → (same s.level t.level && (s.index == t.index)) ≡ true → s ≡ t
same_slot s t h =
    let l : s.level ≡ t.level = same-eq s.level t.level (ground arith) in
    let i : s.index ≡ t.index = ground arith in ap₂ (λ l i. record { level = l; index = i }) l i

same_self : (s : Slot) → (same s.level s.level && (s.index == s.index)) ≡ true
same_self s = ground arith

pub put_slot-cases :
    (v : Level → ℕ → List Entry) (s : Slot) (xs : List Entry) (t : Slot)
    → ((s ≡ t) × (put_slot v s.level s.index xs t.level t.index ≡ xs))
      ⊎ (put_slot v s.level s.index xs t.level t.index ≡ v t.level t.index)
put_slot-cases v s xs t = elim (Bool-cases (same s.level t.level && (s.index == t.index))) [
  | inr other ↦ inr (ap (λ b. if b then xs else v t.level t.index) other)
  | inl here ↦ inl (same_slot s t here, ap (λ b. if b then xs else v t.level t.index) here)
]

pub put_slot-same :
    (v : Level → ℕ → List Entry) (s : Slot) (xs : List Entry)
    → put_slot v s.level s.index xs s.level s.index ≡ xs
put_slot-same v s xs = ap (λ b. if b then xs else v s.level s.index) (same_self s)

pub at-push :
    (w : Timer) (e x : Entry) (t : Slot)
    → Memᴰ x (at (push w e) t)
    → ((x ≡ e) × (place w.jiffies e.expires ≡ t)) ⊎ Memᴰ x (at w t)
unfolding push
at-push w e x t m =
    let s = place w.jiffies e.expires in
    elim (put_slot-cases w.vec s (e ∷ at w s) t) [
      | inr other ↦ inr (subst (Memᴰ x) other m)
      | inl (here, set) ↦ elim (cases_cons (subst (Memᴰ x) set m)) [
        | inl eq ↦ inl (eq, here)
        | inr m' ↦ inr (subst (λ t. Memᴰ x (at w t)) here m')
      ]
    ]

pub push-keeps : (w : Timer) (e x : Entry) (t : Slot) → Memᴰ x (at w t) → Memᴰ x (at (push w e) t)
unfolding push
push-keeps w e x t m =
    let s = place w.jiffies e.expires in
    elim (put_slot-cases w.vec s (e ∷ at w s) t) [
      | inr other ↦ subst (Memᴰ x) (sym other) m
      | inl (here, set) ↦
          subst (Memᴰ x) (sym set) (tail (subst (λ t. Memᴰ x (at w t)) (sym here) m))
    ]

pub push-adds : (w : Timer) (e : Entry) → Memᴰ e (at (push w e) (place w.jiffies e.expires))
unfolding push
push-adds w e =
    let s = place w.jiffies e.expires in
    subst (Memᴰ e) (sym (put_slot-same w.vec s (e ∷ at w s))) (head refl)

pub slot_cases : (s t : Slot) → (s ≡ t) ⊎ (s ≢ t)
slot_cases s t = elim (Bool-cases (same s.level t.level && (s.index == t.index))) [
  | inl here ↦ inl (same_slot s t here)
  | inr other ↦ inr (λ e.
      let own = same_self s in
      let is_same : (same s.level t.level && (s.index == t.index)) ≡ true =
        subst (λ u. (same s.level u.level && (s.index == u.index)) ≡ true) e own in
      ground (arith, is_same, other))
]
