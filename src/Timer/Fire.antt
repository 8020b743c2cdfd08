-- ===== src/Timer/Fire.antt =====
-- The loop of a tick over the slot that is due.
use mathlib.Core.List.{Memᴰ}
use mathlib.Core.List.Memᴰ.{head, tail, cases_cons, not-nil}
use tsf4g.Prelude.{
  ℕ, zero, suc, ◌<◌, ◌≡◌, ◌≢◌, refl, sym, ◌∙◌, ap, subst, ◌⊎◌, inl, inr, List, [], ◌∷◌, arith,
  length, some,
}
use tsf4g.Timer.{Entry, tv1, Slot, Timer, place, fire, put_slot, push, push_all}
use tsf4g.Timer.Slots.{at, put_slot-cases, put_slot-same}
use tsf4g.Timer.Cascade.{
  IsIn, IsCleared, PutAt, at-push_all, push_all-keeps, push_all-adds, push_all-time,
}

push-elsewhere :
    (w : Timer) (y : Entry) (s : Slot) → place w.jiffies y.expires ≢ s → at (push w y) s ≡ at w s
unfolding push
push-elsewhere w y s n =
    let p = place w.jiffies y.expires in
    elim (put_slot-cases w.vec p (y ∷ at w p) s) [
      | inl (here, set) ↦ absurd (n here)
      | inr other ↦ other
    ]

push_all-elsewhere :
    (w : Timer) (ys : List Entry) (s : Slot)
    → ((y : Entry) → Memᴰ y ys → place w.jiffies y.expires ≢ s)
    → at (push_all w ys) s ≡ at w s
unfolding push_all push
push_all-elsewhere w [] s n = refl
push_all-elsewhere w (y ∷ ys) s n =
    push_all-elsewhere (push w y) ys s (λ z m. n z (tail m))
    ∙ push-elsewhere w y s (n y (head refl))

module _ (armed : Entry → ℕ → List Entry) (i : ℕ) where
  abbrev pub swept : Slot
  swept = record { level = tv1; index = i }

  abbrev pub IsArmed : ℕ → List Entry → Entry → Type 0
  IsArmed j es y = (e : Entry) × Memᴰ e es × Memᴰ y (armed e j)

  -- No callback pushes an entry into the slot that the loop takes from.
  abbrev pub IsElsewhere : ℕ → Type 0
  IsElsewhere j = (e y : Entry) → Memᴰ y (armed e j) → place j y.expires ≢ swept

  -- What the loop leaves, if it fires `es`.
  pub record Fired (w : Timer) (es : List Entry) (w' : Timer) : Type 0 where
    pub time : w'.jiffies ≡ w.jiffies
    pub cleared : IsCleared w' swept
    pub keeps : (x : Entry) (t : Slot) → t ≢ swept → Memᴰ x (at w t) → Memᴰ x (at w' t)
    pub adds : (y : Entry) → IsArmed w.jiffies es y → IsIn w' y
    pub only :
        (x : Entry) (t : Slot)
        → Memᴰ x (at w' t)
        → (Memᴰ x (at w t) × (t ≢ swept)) ⊎ (IsArmed w.jiffies es x × PutAt w x t)

  abbrev popped : Timer → List Entry → Timer
  popped w es = record w { vec = put_slot w.vec tv1 i es }

  abbrev called : Timer → Entry → List Entry → Timer
  called w e es = push_all (popped w es) (armed e w.jiffies)

  fire-cons :
      (fuel : ℕ) (w w' : Timer) (e : Entry) (es : List Entry)
      → at w swept ≡ e ∷ es
      → fire fuel armed i (called w e es) ≡ some (w', es)
      → fire (suc fuel) armed i w ≡ some (w', e ∷ es)
  unfolding fire
  fire-cons fuel w w' e es here rest = rw (fire, here, rest) refl

  fire-nil : (fuel : ℕ) (w : Timer) → at w swept ≡ [] → fire (suc fuel) armed i w ≡ some (w, [])
  unfolding fire
  fire-nil fuel w here = rw (fire, here) refl

  Fired-none : (w : Timer) → at w swept ≡ [] → Fired w [] w
  Fired-none w here = record {
    time = refl;
    cleared = λ x m. not-nil (subst (Memᴰ x) here m);
    keeps = λ x t n m. m;
    adds = λ y a. absurd (not-nil a.1);
    only = λ x t m. inl (m, λ e. not-nil (subst (Memᴰ x) (ap (at w) e ∙ here) m));
  }

  at-popped : (w : Timer) (es : List Entry) (t : Slot) → t ≢ swept → at (popped w es) t ≡ at w t
  at-popped w es t n = elim (put_slot-cases w.vec swept es t) [
    | inl (here, set) ↦ absurd (n (sym here))
    | inr other ↦ other
  ]

  called-time : (w : Timer) (e : Entry) (es : List Entry) → (called w e es).jiffies ≡ w.jiffies
  called-time w e es = push_all-time (popped w es) (armed e w.jiffies)

  called-at :
      (w : Timer) (e : Entry) (es : List Entry)
      → IsElsewhere w.jiffies
      → at (called w e es) swept ≡ es
  called-at w e es n =
      push_all-elsewhere (popped w es) (armed e w.jiffies) swept (n e)
      ∙ put_slot-same w.vec swept es

  Fired-cons :
      (w w' : Timer) (e : Entry) (es : List Entry)
      → IsElsewhere w.jiffies
      → Fired (called w e es) es w'
      → Fired w (e ∷ es) w'
  Fired-cons w w' e es n f =
      let same = called-time w e es in
      let ys = armed e w.jiffies in
      record {
        time = f.time ∙ same;
        cleared = f.cleared;
        keeps = λ x t d m.
            f.keeps x t d
              (push_all-keeps (popped w es) ys x t (subst (Memᴰ x) (sym (at-popped w es t d)) m));
        adds = λ y a. elim (cases_cons a.1) [
          | inl eq ↦
              let t = place w.jiffies y.expires in
              let b : Memᴰ y ys = subst (λ e. Memᴰ y (armed e w.jiffies)) eq a.2 in
              (t, f.keeps y t (n e y b) (push_all-adds (popped w es) ys y b))
          | inr m ↦ f.adds y (a.0, m, subst (λ j. Memᴰ y (armed a.0 j)) (sym same) a.2)
        ];
        only = λ x t m. elim (f.only x t m) [
          | inr ((e', m', a), p) ↦ inr (
            (e', tail m', subst (λ j. Memᴰ x (armed e' j)) same a),
            ap (λ j. place j x.expires) (sym same) ∙ p,
          )
          | inl (m1, d) ↦ elim (at-push_all (popped w es) ys x t m1) [
            | inl (a, p) ↦ inr ((e, head refl, a), p)
            | inr m2 ↦ inl (subst (Memᴰ x) (at-popped w es t d) m2, d)
          ]
        ];
      }

  -- The loop ends: it fires the entries of the slot, each once and in order, if no callback pushes
  -- one into the slot.
  pub fire_lem :
      (fuel : ℕ) (es : List Entry) (w : Timer)
      → at w swept ≡ es
      → length es < fuel
      → IsElsewhere w.jiffies
      → (w' : Timer) × (fire fuel armed i w ≡ some (w', es)) × Fired w es w'
  fire_lem zero es w here h n = absurd (omega arith)
  fire_lem (suc fuel) [] w here h n = (w, fire-nil fuel w here, Fired-none w here)
  fire_lem (suc fuel) (e ∷ es) w here h n =
      let (w', rest, f) =
        fire_lem fuel es (called w e es) (called-at w e es n) (omega arith)
          (subst IsElsewhere (sym (called-time w e es)) n) in
      (w', fire-cons fuel w w' e es here rest, Fired-cons w w' e es n f)
