-- ===== src/Timer/Expire.antt =====
-- `tlibc_timer_tick`: which entries it fires, and which it leaves.
use mathlib.Core.List.{Memᴰ}
use tsf4g.Prelude.{
  ℕ, ◌+◌, ◌%◌, ◌≤◌, ◌<◌, ◌≡◌, ◌≢◌, refl, sym, ◌∙◌, ap, subst, ◌⊎◌, inl, inr, List, arith, u64_mod,
  length, some, none,
}
use tsf4g.Timer.{Entry, tv1, Slot, index, Timer, place, cascade_all, fire, tick, Ticked, code_of}
use tsf4g.Timer.Place.{IsPlaced, IsEarly, IsDrained, place-IsPlaced}
use tsf4g.Timer.Slots.{at, slot_cases}
use tsf4g.Timer.Cascade.{IsWheel, IsIn, Moved}
use tsf4g.Timer.Drain.{cascade_all-Moved, cascade_all-IsCleared, due}
use tsf4g.Timer.Fire.{IsArmed, IsElsewhere, Fired, fire_lem}
use tsf4g.Timer.Tick.{next_lem, IsSoon-due}

-- What a tick at `j` does to a wheel: it fires what is due, and it keeps the rest and what the
-- callbacks push.
pub record Expired (j : ℕ) (armed : Entry → ℕ → List Entry) (w : Timer) (t : Ticked) : Type 0 where
  pub wheel : IsWheel (j + 1) t.self
  pub fired_due : (x : Entry) → Memᴰ x t.fired → IsIn w x × (x.expires ≤ j)
  pub due_fired : (x : Entry) → IsIn w x → x.expires ≤ j → Memᴰ x t.fired
  pub kept : (x : Entry) → IsIn w x → j < x.expires → IsIn t.self x
  pub added : (x : Entry) → IsArmed armed (index tv1 j) (j + 1) t.fired x → IsIn t.self x
  pub only :
      (x : Entry)
      → IsIn t.self x
      → (IsIn w x × (j < x.expires)) ⊎ IsArmed armed (index tv1 j) (j + 1) t.fired x
  pub code : t.ret ≡ code_of t.fired

abbrev pub advance : Timer → Timer
advance w = record w { jiffies = (w.jiffies + 1) % u64_mod }

tick-fire :
    (fuel : ℕ) (armed : Entry → ℕ → List Entry) (w w' : Timer) (es : List Entry)
    → fire fuel armed (index tv1 w.jiffies) (advance (cascade_all w)) ≡ some (w', es)
    → tick fuel armed w
      ≡ some (record {
        ret = code_of ((cascade_all w).vec tv1 (index tv1 w.jiffies));
        self = w';
        fired = es;
      })
unfolding tick
tick-fire fuel armed w w' es e = rw (tick, e) refl

tick-fire_at :
    (fuel : ℕ) (armed : Entry → ℕ → List Entry) (w w' : Timer) (es : List Entry) (i : ℕ)
    → index tv1 w.jiffies ≡ i
    → fire fuel armed i (advance (cascade_all w)) ≡ some (w', es)
    → tick fuel armed w
      ≡ some (record { ret = code_of ((cascade_all w).vec tv1 i); self = w'; fired = es })
tick-fire_at fuel armed w w' es i e =
    subst
      (λ i.
        fire fuel armed i (advance (cascade_all w)) ≡ some (w', es)
        → tick fuel armed w
          ≡ some (record { ret = code_of ((cascade_all w).vec tv1 i); self = w'; fired = es }))
      e (tick-fire fuel armed w w' es)

pub tick-none :
    (fuel : ℕ) (armed : Entry → ℕ → List Entry) (w : Timer)
    → fire fuel armed (index tv1 w.jiffies) (advance (cascade_all w)) ≡ none
    → tick fuel armed w ≡ none
unfolding tick
tick-none fuel armed w e = rw (tick, e) refl

module _ {j : ℕ} (w : Timer) (early : IsEarly (j + 1)) (k : IsWheel j w) where
  moved : Moved j w (cascade_all w)
  moved = cascade_all-Moved w (omega arith) k

  not_drained :
      (x : Entry) (t : Slot)
      → Memᴰ x (at (cascade_all w) t)
      → IsDrained j (due t.level j)
      → t.index ≢ index t.level j
  not_drained x t m d e =
      let here : t ≡ due t.level j = ap (λ i. record { level = t.level; index = i }) e in
      cascade_all-IsCleared w t.level (omega arith) k d x
        (subst (λ s. Memᴰ x (at (cascade_all w) s)) here m)

  ahead :
      (x : Entry) (t : Slot)
      → Memᴰ x (at (cascade_all w) t)
      → t ≢ due tv1 j
      → (j < x.expires) × IsPlaced (j + 1) t x.expires
  ahead x t m n = next_lem j x.expires t (moved.wheel.placed t x m) (not_drained x t m) n

  now : (x : Entry) → Memᴰ x (at (cascade_all w) (due tv1 j)) → x.expires ≤ j
  now x m = IsSoon-due j (index tv1 j) x.expires (omega arith) (moved.wheel.placed (due tv1 j) x m)

  pub next_time : (advance (cascade_all w)).jiffies ≡ j + 1
  next_time = ap (λ i. (i + 1) % u64_mod) moved.wheel.time ∙ omega arith

  pub due-at : (x : Entry) → IsIn w x → x.expires ≤ j → Memᴰ x (at (cascade_all w) (due tv1 j))
  due-at x m h =
      let (t, m') = moved.keeps x m in
      elim (slot_cases t (due tv1 j)) [
        | inl here ↦ subst (λ s. Memᴰ x (at (cascade_all w) s)) here m'
        | inr other ↦ absurd (omega (arith, h, (ahead x t m' other).0))
      ]

  module _ (armed : Entry → ℕ → List Entry) (w' : Timer)
      (f : Fired armed
        (index tv1 j)
        (advance (cascade_all w))
        (at (cascade_all w) (due tv1 j))
        w') where
    left :
        (x : Entry) (t : Slot)
        → Memᴰ x (at w' t)
        → ((j < x.expires) × IsPlaced (j + 1) t x.expires × IsIn w x)
          ⊎ (IsArmed armed (index tv1 j) (j + 1) (at (cascade_all w) (due tv1 j)) x
              × IsPlaced (j + 1) t x.expires)
    left x t m = elim (f.only x t m) [
      | inl (m1, n) ↦ let (a, b) = ahead x t m1 n in inl (a, b, moved.only x (t, m1))
      | inr ((e, m', a), p) ↦ inr (
        (e, m', subst (λ i. Memᴰ x (armed e i)) next_time a),
        subst (λ s. IsPlaced (j + 1) s x.expires) (ap (λ i. place i x.expires) (sym next_time) ∙ p)
            (place-IsPlaced (j + 1) x.expires early),
      )
    ]

    expired : Expired j armed w (record {
      ret = code_of (at (cascade_all w) (due tv1 j));
      self = w';
      fired = at (cascade_all w) (due tv1 j);
    })
    expired = record {
      wheel = record {
        time = f.time ∙ next_time;
        placed = λ t x m. elim (left x t m) [ inl a ↦ a.1 | inr a ↦ a.1 ];
      };
      fired_due = λ x m. (moved.only x (due tv1 j, m), now x m);
      due_fired = due-at;
      kept = λ x m h.
          let (t, m') = moved.keeps x m in
          elim (slot_cases t (due tv1 j)) [
            | inl here ↦
                absurd
                  (omega (arith, h, now x (subst (λ s. Memᴰ x (at (cascade_all w) s)) here m')))
            | inr other ↦ (t, f.keeps x t other m')
          ];
      added = λ x a. f.adds x (a.0, a.1, subst (λ i. Memᴰ x (armed a.0 i)) (sym next_time) a.2);
      only = λ x m. elim (left x m.0 m.1) [ inl a ↦ inl (a.2, a.0) | inr a ↦ inr a.0 ];
      code = refl;
    }

  -- If no callback pushes an entry into the slot that the tick takes from, the tick returns. It
  -- fires the entries of the wheel that are due and no others; those that expire later stay, those
  -- that the callbacks push are added, and each is placed for the next tick.
  pub tick_lem :
      (fuel : ℕ) (armed : Entry → ℕ → List Entry)
      → IsElsewhere armed (index tv1 j) (j + 1)
      → length (at (cascade_all w) (due tv1 j)) < fuel
      → (t : Ticked) × (tick fuel armed w ≡ some t) × Expired j armed w t
  tick_lem fuel armed n h =
      let i = index tv1 j in
      let (w', run, f) =
        fire_lem armed i fuel (at (cascade_all w) (due tv1 j)) (advance (cascade_all w)) refl h
          (subst (IsElsewhere armed i) (sym next_time) n) in
      (
        record {
          ret = code_of (at (cascade_all w) (due tv1 j));
          self = w';
          fired = at (cascade_all w) (due tv1 j);
        },
        tick-fire_at fuel armed w w' (at (cascade_all w) (due tv1 j)) i (ap (index tv1) k.time) run,
        expired armed w' f,
      )
