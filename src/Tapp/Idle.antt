-- ===== src/Tapp/Idle.antt =====
-- How often an idle server sleeps.
use tsf4g.Prelude.{
  ℕ, zero, suc, ◌+◌, ◌*◌, ◌%◌, ◌<◌, ◌≡◌, refl, sym, ◌∙◌, ap, inl, inr, true, false, List, arith,
  Bool-cases, leb, u32_mod,
}
use tsf4g.Errors.{would_block, is_noerror, is_would_block}
use tsf4g.Tapp.{Tapp, Work, Usleep, call_all, Turn, goes_on, rest_a_while, turn, loop_from}
use tsf4g.Tapp.Rounds.{loop_from-turn}

-- No function has anything to do, `usleep` succeeds, and no signal to terminate comes. `naps` is how
-- often `usleep` was called.
pub record IsIdle {W : Type 0} (funcs : List (Work W)) (usleep : Usleep W) (naps : Tapp W → ℕ)
    : Type 0 where
  pub nothing : (s : Tapp W) → (call_all funcs would_block s).0 ≡ would_block
  pub awake : (s : Tapp W) → naps (call_all funcs would_block s).1 ≡ naps s
  pub sleeps : (s : Tapp W) → (usleep s).1 ≡ false
  pub counted : (s : Tapp W) → naps (usleep s).0 ≡ suc (naps s)
  pub undisturbed :
      (s : Tapp W) → s.sigterm ≡ false → (call_all funcs would_block s).1.sigterm ≡ false
  pub sound_asleep : (s : Tapp W) → s.sigterm ≡ false → (usleep s).0.sigterm ≡ false

none_over : (m : ℕ) → 0 + m ≡ m
none_over m = omega arith

suc_over : (n m : ℕ) → n + suc m ≡ suc n + m
suc_over n m = omega arith

module _ {W : Type 0} (funcs : List (Work W)) (usleep : Usleep W) (naps : Tapp W → ℕ)
    (i : IsIdle funcs usleep naps) (limit : ℕ) (positive : 0 < limit)
    (small : limit < u32_mod) where
  -- What a turn adds.
  abbrev Adds : ℕ → Tapp W → Turn W → Type 0
  Adds count s o =
      (count' : ℕ) × (t : Tapp W) × (o ≡ goes_on count' t)
      × (count' < limit)
      × (naps t * limit + count' ≡ suc (naps s * limit + count))
      × (s.sigterm ≡ false → t.sigterm ≡ false)

  turn-Adds :
      (count : ℕ) (s : Tapp W) → count < limit → Adds count s (turn funcs usleep limit count s)
  unfolding turn rest_a_while
  turn-Adds count s h =
      let p = call_all funcs would_block s in
      let w = (usleep p.1).0 in
      let same_count : (count + 1) % u32_mod ≡ count + 1 = omega arith in
      let busy : is_noerror p.0 ≡ false = ap is_noerror (i.nothing s) in
      let idle : is_would_block p.0 ≡ true = ap is_would_block (i.nothing s) in
      elim (Bool-cases (leb limit (count + 1))) [
        | inl b ↦ (
          0,
          w,
          rw (turn, busy, idle, rest_a_while, same_count, b, i.sleeps p.1) refl,
          positive,
          let full : limit ≡ suc count = ground arith in
              rw (i.counted p.1, i.awake s) (omega (arith, full)),
          λ h. i.sound_asleep p.1 (i.undisturbed s h),
        )
        | inr b ↦ (
          count + 1,
          p.1,
          rw (turn, busy, idle, rest_a_while, same_count, b) refl,
          ground arith,
          rw (i.awake s) (omega arith),
          λ h. i.undisturbed s h,
        )
      ]

  -- While no function has anything to do, `usleep` does not fail and no signal to terminate comes,
  -- the loop makes any number of turns, and sleeps once in as many turns as the limit says: after
  -- `n` turns it is the loop at some state, with some idle count below the limit, and the sleeps
  -- since the start times the limit, and the idle count, come to `n`. The flag to terminate is not
  -- set at the start, nor after the turns. The limit is positive and less than 2^32.
  pub loop_from-naps :
      (n : ℕ) (s : Tapp W)
      → s.sigterm ≡ false
      → (count : ℕ) × (t : Tapp W) × (t.sigterm ≡ false)
        × (count < limit)
        × (naps t * limit + count ≡ naps s * limit + n)
        × ((fuel : ℕ)
            → loop_from (n + fuel) funcs usleep limit 0 s
              ≡ loop_from fuel funcs usleep limit count t)
  loop_from-naps zero s h = (
    0,
    s,
    h,
    positive,
    omega arith,
    λ fuel. ap (λ m. loop_from m funcs usleep limit 0 s) (none_over fuel),
  )
  loop_from-naps (suc n) s h =
      let (count, t, flag, below, sum, goes) = loop_from-naps n s h in
      let (count', u, went, below', more, keeps) = turn-Adds count t below in
      (
        count',
        u,
        keeps flag,
        below',
        omega (arith, sum, more),
        λ fuel.
            ap (λ m. loop_from m funcs usleep limit 0 s) (sym (suc_over n fuel))
            ∙ goes (suc fuel)
            ∙ loop_from-turn funcs usleep limit fuel count t (goes_on count' u) flag went,
      )
