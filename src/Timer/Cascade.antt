-- ===== src/Timer/Cascade.antt =====
-- What `cascade` and the pushes of a list of entries do to a timer wheel.
use mathlib.Core.List.{Memᴰ}
use mathlib.Core.List.Memᴰ.{head, tail, not-nil}
use tsf4g.Prelude.{ℕ, ◌≡◌, refl, sym, ◌∙◌, ap, subst, ◌⊎◌, inl, inr, List, [], ◌∷◌}
use tsf4g.Timer.{Entry, Timer, init, Slot, put_slot, push, push_all, place, cascade}
use tsf4g.Timer.Place.{IsPlaced, IsEarly, place-IsPlaced, IsDrained, place-IsDrained}
use tsf4g.Timer.Slots.{at, at-push, push-keeps, push-adds, put_slot-cases, put_slot-same}

pub push_all-time : (w : Timer) (es : List Entry) → (push_all w es).jiffies ≡ w.jiffies
unfolding push_all push
push_all-time w [] = refl
push_all-time w (e ∷ es) = push_all-time (push w e) es

abbrev pub PutAt : Timer → Entry → Slot → Type 0
PutAt w x t = place w.jiffies x.expires ≡ t

pub at-push_all :
    (w : Timer) (es : List Entry) (x : Entry) (t : Slot)
    → Memᴰ x (at (push_all w es) t)
    → (Memᴰ x es × PutAt w x t) ⊎ Memᴰ x (at w t)
unfolding push_all push
at-push_all w [] x t m = inr m
at-push_all w (e ∷ es) x t m = elim (at-push_all (push w e) es x t m) [
  | inl (m', p) ↦ inl (tail m', p)
  | inr m' ↦ elim (at-push w e x t m') [
    | inl (eq, p) ↦ inl (head eq, ap (λ y. place w.jiffies y.expires) eq ∙ p)
    | inr m'' ↦ inr m''
  ]
]

pub push_all-keeps :
    (w : Timer) (es : List Entry) (x : Entry) (t : Slot)
    → Memᴰ x (at w t)
    → Memᴰ x (at (push_all w es) t)
unfolding push_all
push_all-keeps w [] x t m = m
push_all-keeps w (e ∷ es) x t m = push_all-keeps (push w e) es x t (push-keeps w e x t m)

abbrev pub IsIn : Timer → Entry → Type 0
IsIn w x = (t : Slot) × Memᴰ x (at w t)

pub push_all-adds :
    (w : Timer) (es : List Entry) (x : Entry)
    → Memᴰ x es
    → Memᴰ x (at (push_all w es) (place w.jiffies x.expires))
unfolding push_all push
push_all-adds w [] x m = absurd (not-nil m)
push_all-adds w (e ∷ es) x (head eq) =
    let s = place w.jiffies x.expires in
    push_all-keeps (push w e) es x s
      (subst (λ y. Memᴰ y (at (push w e) (place w.jiffies y.expires))) (sym eq) (push-adds w e))
push_all-adds w (e ∷ es) x (tail m) = push_all-adds (push w e) es x m

-- A wheel at a time, with its entries where they belong.
pub record IsWheel (j : ℕ) (w : Timer) : Type 0 where
  pub time : w.jiffies ≡ j
  pub placed : (t : Slot) (x : Entry) → Memᴰ x (at w t) → IsPlaced j t x.expires

pub init-IsWheel : IsWheel 0 init
unfolding init
init-IsWheel = record { time = refl; placed = λ t x m. absurd (not-nil m) }

pub push_all-IsWheel :
    {j : ℕ} (w : Timer) (es : List Entry) → IsEarly j → IsWheel j w → IsWheel j (push_all w es)
push_all-IsWheel {j} w es h k = record {
  time = push_all-time w es ∙ k.time;
  placed = λ t x m. elim (at-push_all w es x t m) [
    | inl (m', p) ↦
        subst (λ s. IsPlaced j s x.expires) (ap (λ i. place i x.expires) (sym k.time) ∙ p)
          (place-IsPlaced j x.expires h)
    | inr m' ↦ k.placed t x m'
  ];
}

-- A push puts an entry where it belongs and leaves the others.
pub push-IsWheel : {j : ℕ} (w : Timer) (e : Entry) → IsEarly j → IsWheel j w → IsWheel j (push w e)
unfolding push_all
push-IsWheel w e h k = push_all-IsWheel w (e ∷ []) h k

abbrev emptied : Timer → Slot → Timer
emptied w s = record w { vec = put_slot w.vec s.level s.index [] }

at-emptied :
    (w : Timer) (s : Slot) (x : Entry) (t : Slot) → Memᴰ x (at (emptied w s) t) → Memᴰ x (at w t)
at-emptied w s x t m = elim (put_slot-cases w.vec s [] t) [
  | inl (here, set) ↦ absurd (not-nil (subst (Memᴰ x) set m))
  | inr other ↦ subst (Memᴰ x) other m
]

emptied-at : (w : Timer) (s : Slot) (x : Entry) → Memᴰ x (at (emptied w s) s) → ⊥
emptied-at w s x m = not-nil (subst (Memᴰ x) (put_slot-same w.vec s []) m)

emptied-keeps :
    (w : Timer) (s : Slot) (x : Entry) (t : Slot)
    → Memᴰ x (at w t)
    → Memᴰ x (at w s) ⊎ Memᴰ x (at (emptied w s) t)
emptied-keeps w s x t m = elim (put_slot-cases w.vec s [] t) [
  | inl (here, set) ↦ inl (subst (λ u. Memᴰ x (at w u)) (sym here) m)
  | inr other ↦ inr (subst (Memᴰ x) (sym other) m)
]

abbrev pub IsCleared : Timer → Slot → Type 0
IsCleared w t = (x : Entry) → Memᴰ x (at w t) → ⊥

-- The same entries, moved about in the wheel; slots that the tick has drained stay empty.
pub record Moved (j : ℕ) (w w' : Timer) : Type 0 where
  pub wheel : IsWheel j w'
  pub keeps : (x : Entry) → IsIn w x → IsIn w' x
  pub only : (x : Entry) → IsIn w' x → IsIn w x
  pub still : (t : Slot) → IsDrained j t → IsCleared w t → IsCleared w' t

pub unmoved : {j : ℕ} {w : Timer} → IsWheel j w → Moved j w w
unmoved k = record { wheel = k; keeps = λ x m. m; only = λ x m. m; still = λ t d c. c }

pub then-Moved : {j : ℕ} {w w' w'' : Timer} → Moved j w w' → Moved j w' w'' → Moved j w w''
then-Moved a b = record {
  wheel = b.wheel;
  keeps = λ x m. b.keeps x (a.keeps x m);
  only = λ x m. a.only x (b.only x m);
  still = λ t d c. b.still t d (a.still t d c);
}

emptied-IsWheel : {j : ℕ} (w : Timer) (s : Slot) → IsWheel j w → IsWheel j (emptied w s)
emptied-IsWheel w s k = record {
  time = k.time;
  placed = λ t x m. k.placed t x (at-emptied w s x t m);
}

at-cascade :
    (w : Timer) (s : Slot) (x : Entry) (t : Slot)
    → Memᴰ x (at (cascade w s.level s.index) t)
    → (Memᴰ x (at w s) × PutAt w x t) ⊎ Memᴰ x (at (emptied w s) t)
unfolding cascade
at-cascade w s x t m = at-push_all (emptied w s) (at w s) x t m

not_put :
    {j : ℕ} (w : Timer) (x : Entry) (t : Slot)
    → IsEarly j
    → w.jiffies ≡ j
    → IsDrained j t
    → PutAt w x t
    → ⊥
not_put {j} w x t h e d p =
    place-IsDrained j x.expires h (subst (IsDrained j) (sym p ∙ ap (λ i. place i x.expires) e) d)

-- A cascade empties its slot, if a tick drains it, and loses no entry.
pub cascade-IsCleared :
    {j : ℕ} (w : Timer) (s : Slot)
    → IsEarly j
    → IsWheel j w
    → IsDrained j s
    → IsCleared (cascade w s.level s.index) s
cascade-IsCleared w s h k d x m = elim (at-cascade w s x s m) [
  | inl (m', p) ↦ not_put w x s h k.time d p
  | inr m' ↦ emptied-at w s x m'
]

pub cascade-Moved :
    {j : ℕ} (w : Timer) (s : Slot) → IsEarly j → IsWheel j w → Moved j w (cascade w s.level s.index)
unfolding cascade
cascade-Moved w s h k = record {
  wheel = push_all-IsWheel (emptied w s) (at w s) h (emptied-IsWheel w s k);
  keeps = λ x m. elim (emptied-keeps w s x m.0 m.1) [
    | inl m' ↦ (place w.jiffies x.expires, push_all-adds (emptied w s) (at w s) x m')
    | inr m' ↦ (m.0, push_all-keeps (emptied w s) (at w s) x m.0 m')
  ];
  only = λ x m. elim (at-cascade w s x m.0 m.1) [
    | inl (m', p) ↦ (s, m')
    | inr m' ↦ (m.0, at-emptied w s x m.0 m')
  ];
  still = λ t d c x m. elim (at-cascade w s x t m) [
    | inl (m', p) ↦ not_put w x t h k.time d p
    | inr m' ↦ c x (at-emptied w s x t m')
  ];
}
