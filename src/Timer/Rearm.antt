-- ===== src/Timer/Rearm.antt =====
-- A callback that pushes its entry again, to expire 255 ticks after the `jiffies` that it sees.
use mathlib.Core.List.{Memᴰ}
use mathlib.Core.List.Memᴰ.{not-nil, head, tail, cases_cons}
use tsf4g.Prelude.{
  ℕ, zero, suc, ◌+◌, ◌≤◌, ◌≡◌, refl, ◌∙◌, ap, subst, List, [], ◌∷◌, arith, none, inl, inr, ◌≢◌, ◌⊎◌,
  sym,
}
use tsf4g.Timer.{
  Entry, tv1, Slot, index, Timer, place, fire, tick, push, push_all, put_slot, cascade_all,
}
use tsf4g.Timer.Place.{IsEarly, place-near1}
use tsf4g.Timer.Slots.{at, put_slot-same}
use tsf4g.Timer.Cascade.{IsWheel, IsIn}
use tsf4g.Timer.Drain.{due}
use tsf4g.Timer.Expire.{due-at, advance, next_time, tick-none}

abbrev pub rearm : Entry → ℕ → List Entry
rearm e i = record { name = e.name; expires = i + 255 } ∷ []

at-push_own :
    (w : Timer) (y : Entry) (s : Slot)
    → place w.jiffies y.expires ≡ s
    → at (push w y) s ≡ y ∷ at w s
unfolding push
at-push_own w y s e =
    subst (λ s. at (push w y) s ≡ y ∷ at w s) e
      (put_slot-same w.vec (place w.jiffies y.expires) (y ∷ at w (place w.jiffies y.expires)))

-- What is left when the callback of the front entry has pushed some entries.
abbrev called : Timer → List Entry → List Entry → ℕ → Timer
called w ys es i = push_all (record w { vec = put_slot w.vec tv1 i es }) ys

comes_back : (j : ℕ) → place (j + 1) (j + 1 + 255) ≡ due tv1 j
comes_back j =
    place-near1 (j + 1) (j + 1 + 255) (omega arith) (omega arith)
    ∙ ap (λ i. record { level = tv1; index = i }) (omega arith)

called-at :
    (j : ℕ) (w : Timer) (e : Entry) (es : List Entry)
    → w.jiffies ≡ j + 1
    → at (called w (rearm e w.jiffies) es (index tv1 j)) (due tv1 j)
      ≡ record { name = e.name; expires = w.jiffies + 255 } ∷ es
unfolding push_all
called-at j w e es time =
    at-push_own (record w { vec = put_slot w.vec tv1 (index tv1 j) es })
      (record { name = e.name; expires = w.jiffies + 255 }) (due tv1 j)
      (ap (λ i. place i (i + 255)) time ∙ comes_back j)
    ∙ ap (λ l. record { name = e.name; expires = w.jiffies + 255 } ∷ l)
        (put_slot-same w.vec (due tv1 j) es)

-- Each callback pushes its entry again, or nothing; that of entries called `name` does push.
abbrev pub Rearms : ℕ → (Entry → ℕ → List Entry) → Type 0
Rearms name armed =
    (e : Entry) (i : ℕ) → (armed e i ≡ rearm e i) ⊎ ((armed e i ≡ []) × (e.name ≢ name))

fire-none :
    (name : ℕ) (armed : Entry → ℕ → List Entry)
    → Rearms name armed
    → (fuel j : ℕ) (w : Timer) (es : List Entry) (y : Entry) → w.jiffies ≡ j + 1
    → at w (due tv1 j) ≡ es
    → Memᴰ y es
    → y.name ≡ name
    → fire fuel armed (index tv1 j) w ≡ none
unfolding fire push_all push
fire-none name armed again zero j w es y time here m n = refl
fire-none name armed again (suc fuel) j w [] y time here m n = absurd (not-nil m)
fire-none name armed again (suc fuel) j w (e ∷ es) y time here m n =
    let back : Entry = record { name = e.name; expires = w.jiffies + 255 } in
    elim (again e w.jiffies) [
      | inl pushes ↦
          let next = called w (rearm e w.jiffies) es (index tv1 j) in
          let slot = called-at j w e es time in
          let rest : fire fuel armed (index tv1 j) next ≡ none = elim (cases_cons m) [
            | inl same ↦
                fire-none name armed again fuel j next (back ∷ es) back time slot (head refl)
                  (ap (λ (x : Entry). x.name) (sym same) ∙ n)
            | inr behind ↦
                fire-none name armed again fuel j next (back ∷ es) y time slot (tail behind) n
          ] in
          rw (fire, here, pushes, rest) refl
      | inr (nothing, other) ↦
          let next = called w [] es (index tv1 j) in
          let behind : Memᴰ y es = elim (cases_cons m) [
            | inl same ↦ absurd (other (ap (λ (x : Entry). x.name) (sym same) ∙ n))
            | inr behind ↦ behind
          ] in
          let rest : fire fuel armed (index tv1 j) next ≡ none =
            fire-none name armed again fuel j next es y time (put_slot-same w.vec (due tv1 j) es)
              behind n in
          rw (fire, here, nothing, rest) refl
    ]

-- Suppose that the callback of an entry pushes it again, to expire 255 ticks after the `jiffies` that
-- the callback sees, and that each other callback pushes its entry so, too, or pushes nothing. A tick
-- at which the entry is due then does not end: its loop is not over after any number of calls of
-- callbacks. The entry is in the wheel, and the time is early.
pub tick-rearm :
    {j : ℕ} (w : Timer) (x : Entry) (armed : Entry → ℕ → List Entry) (fuel : ℕ)
    → IsEarly (j + 1)
    → IsWheel j w
    → IsIn w x
    → x.expires ≤ j
    → Rearms x.name armed
    → tick fuel armed w ≡ none
tick-rearm {j} w x armed fuel h k m d again = tick-none fuel armed w (
    ap (λ i. fire fuel armed (index tv1 i) (advance (cascade_all w))) k.time
    ∙ fire-none x.name armed again fuel j (advance (cascade_all w)) (at (cascade_all w) (due tv1 j))
        x (next_time w h k) refl (due-at w h k x m d) refl)
