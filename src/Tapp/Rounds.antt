-- ===== src/Tapp/Rounds.antt =====
-- What a turn of the loop of tapp does with its functions, and what follows it.
use mathlib.Core.List.{Memᴰ}
use mathlib.Core.List.Memᴰ.{head, tail, cases_cons, not-nil}
use tsf4g.Prelude.{
  if_cases, ℕ, suc, ◌≡◌, refl, sym, ◌∙◌, ap, subst, inl, inr, Bool, true, false, ◌||◌, Option, some,
  List, [], ◌∷◌, ◌++◌, if◌then◌else◌, Bool-cases,
}
use tsf4g.Errors.{ErrorCode, noerror, is_noerror, is_would_block}
use tsf4g.Tapp.{Tapp, Work, Usleep, call_all, Turn, goes_on, returns, turn, loop_from}

-- The functions are called in order, and answer with codes: of success, of nothing to do, or, only
-- as the last one, of a failure.
pub data Called {W : Type 0} : List (Work W) → List ErrorCode → Tapp W → Tapp W → Type 0 where
  all_called : {s : Tapp W} → Called [] [] s s
  goes :
      {f : Work W} {fs : List (Work W)} {cs : List ErrorCode} {s t : Tapp W}
      → (is_noerror (f s).0 || is_would_block (f s).0) ≡ true
      → Called fs cs (f s).1 t
      → Called (f ∷ fs) ((f s).0 ∷ cs) s t
  breaks :
      {f : Work W} {fs : List (Work W)} {s : Tapp W}
      → (is_noerror (f s).0 || is_would_block (f s).0) ≡ false
      → Called (f ∷ fs) ((f s).0 ∷ []) s (f s).1

abbrev pub is_soft : ErrorCode → Bool
is_soft c = is_noerror c || is_would_block c

-- What the codes of a round come to, if there was `ret` before it.
pub data Verdict (ret : ErrorCode) (cs : List ErrorCode) : ErrorCode → Type 0 where
  fails :
      (ds : List ErrorCode) {code : ErrorCode}
      → is_soft code ≡ false
      → cs ≡ ds ++ code ∷ []
      → Verdict ret cs code
  works :
      (c : ErrorCode)
      → Memᴰ c cs
      → is_noerror c ≡ true
      → ((d : ErrorCode) → Memᴰ d cs → is_soft d ≡ true)
      → Verdict ret cs noerror
  idles : ((d : ErrorCode) → Memᴰ d cs → is_would_block d ≡ true) → Verdict ret cs ret

soft_right : (a b : Bool) → b ≡ true → (a || b) ≡ true
soft_right true b h = refl
soft_right false b h = h

at_front :
    (P : ErrorCode → Type 0) (c : ErrorCode) (cs : List ErrorCode)
    → P c
    → ((d : ErrorCode) → Memᴰ d cs → P d)
    → (d : ErrorCode) → Memᴰ d (c ∷ cs)
    → P d
at_front P c cs p h d m = elim (cases_cons m) [ inl e ↦ subst P (sym e) p | inr m' ↦ h d m' ]

-- A code of success in front.
after_success :
    {ret c : ErrorCode} {cs : List ErrorCode} {code : ErrorCode}
    → is_noerror c ≡ true
    → Verdict noerror cs code
    → Verdict ret (c ∷ cs) code
after_success {c = c} n (fails ds f e) = fails (c ∷ ds) f (ap (λ l. c ∷ l) e)
after_success {c = c} {cs = cs} n (works d m k soft) =
    works d (tail m) k (at_front (λ d. is_soft d ≡ true) c cs (rw n refl) soft)
after_success {c = c} {cs = cs} n (idles h) = works c (head refl) n (
    at_front (λ d. is_soft d ≡ true) c cs (rw n refl)
      (λ d m. soft_right (is_noerror d) (is_would_block d) (h d m)))

-- A code of nothing to do in front.
after_nothing :
    {ret c : ErrorCode} {cs : List ErrorCode} {code : ErrorCode}
    → is_would_block c ≡ true
    → Verdict ret cs code
    → Verdict ret (c ∷ cs) code
after_nothing {c = c} n (fails ds f e) = fails (c ∷ ds) f (ap (λ l. c ∷ l) e)
after_nothing {c = c} {cs = cs} n (works d m k soft) =
    works d (tail m) k
      (at_front (λ d. is_soft d ≡ true) c cs (soft_right (is_noerror c) (is_would_block c) n) soft)
after_nothing {c = c} {cs = cs} n (idles h) =
    idles (at_front (λ d. is_would_block d ≡ true) c cs n h)

-- A round of calls and its code.
abbrev pub Round : {W : Type 0} → List (Work W) → ErrorCode → Tapp W → ErrorCode × Tapp W → Type 0
Round fs ret s r = (cs : List ErrorCode) × Called fs cs s r.1 × Verdict ret cs r.0

-- A round calls the functions in order up to the first that fails, if one does; its code is that of
-- the failure; or else success, if any function had success; or else that there is nothing to do.
pub call_all-Round :
    {W : Type 0} (fs : List (Work W)) (ret : ErrorCode) (s : Tapp W)
    → Round fs ret s (call_all fs ret s)
unfolding call_all
call_all-Round [] ret s = ([], all_called, idles (λ d m. absurd (not-nil m)))
call_all-Round (f ∷ fs) ret s =
    if_cases (Round (f ∷ fs) ret s) (is_soft (f s).0)
      (λ b. elim (Bool-cases (is_noerror (f s).0)) [
        | inl n ↦
            let (cs, called, v) = call_all-Round fs noerror (f s).1 in
            rw n ((f s).0 ∷ cs, goes b called, after_success n v)
        | inr n ↦
            let (cs, called, v) = call_all-Round fs ret (f s).1 in
            rw n (
              (f s).0 ∷ cs,
              goes b called,
              after_nothing (subst (λ a. (a || is_would_block (f s).0) ≡ true) n b) v,
            )
      ])
      (λ b. ((f s).0 ∷ [], breaks b, fails [] b refl))

module _ {W : Type 0} (funcs : List (Work W)) (usleep : Usleep W) (idle_limit : ℕ) where
  -- What follows a turn.
  abbrev pub behind : ℕ → Turn W → Option (ErrorCode × Tapp W)
  behind fuel (goes_on count t) = loop_from fuel funcs usleep idle_limit count t
  behind fuel (returns ret t) = some (ret, record t { sigterm = true })

  pub loop_from-turn :
      (fuel count : ℕ) (s : Tapp W) (o : Turn W)
      → s.sigterm ≡ false
      → turn funcs usleep idle_limit count s ≡ o
      → loop_from (suc fuel) funcs usleep idle_limit count s ≡ behind fuel o
  unfolding loop_from
  loop_from-turn fuel count s o h e =
      ap
        (λ b.
          if b
          then some (noerror, record s { sigterm = true })
          else behind fuel (turn funcs usleep idle_limit count s))
        h
      ∙ ap (behind fuel) e
