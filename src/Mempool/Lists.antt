-- ===== src/Mempool/Lists.antt =====
-- A list of ids, one of which is taken out.
use mathlib.Core.List.{Memᴰ}
use mathlib.Core.List.Memᴰ.{head, tail, cases_cons, not-nil, append_cases}
use tsf4g.Prelude.{
  ℕ, ◌≡◌, ◌≢◌, refl, sym, subst, inl, inr, List, [], ◌∷◌, ◌++◌, arith, false, Bool-cases, ◌==◌,
  if◌then◌else◌,
}
use tsf4g.Mempool.{unlink_id}
use tsf4g.Mempool.Handles.{Distinct}

pub unlink_id-other : (i j : ℕ) (l : List ℕ) → i ≢ j → Memᴰ j l → Memᴰ j (unlink_id i l)
unfolding unlink_id
unlink_id-other i j [] n m = m
unlink_id-other i j (x ∷ l) n (head e) =
    let b : (x == i) ≡ false = ground arith in
    subst (λ b. Memᴰ j (if b then l else x ∷ unlink_id i l)) (sym b) (head e)
unlink_id-other i j (x ∷ l) n (tail m) = elim (Bool-cases (x == i)) [
  | inl b ↦ subst (λ b. Memᴰ j (if b then l else x ∷ unlink_id i l)) (sym b) m
  | inr b ↦
      subst (λ b. Memᴰ j (if b then l else x ∷ unlink_id i l)) (sym b)
        (tail (unlink_id-other i j l n m))
]

pub unlink_id-within : (i j : ℕ) (l : List ℕ) → Memᴰ j (unlink_id i l) → Memᴰ j l
unfolding unlink_id
unlink_id-within i j [] m = m
unlink_id-within i j (x ∷ l) m = elim (Bool-cases (x == i)) [
  | inl b ↦ tail (subst (λ b. Memᴰ j (if b then l else x ∷ unlink_id i l)) b m)
  | inr b ↦ elim (cases_cons (subst (λ b. Memᴰ j (if b then l else x ∷ unlink_id i l)) b m)) [
    | inl e ↦ head e
    | inr m' ↦ tail (unlink_id-within i j l m')
  ]
]

pub unlink_id-gone : (i : ℕ) (l : List ℕ) → Distinct l → Memᴰ i (unlink_id i l) → ⊥
unfolding unlink_id
unlink_id-gone i [] d m = not-nil m
unlink_id-gone i (x ∷ l) d m = elim (Bool-cases (x == i)) [
  | inl b ↦
      let e : x ≡ i = ground arith in
      d.0 (
        subst (λ y. Memᴰ y l) (sym e)
          (subst (λ b. Memᴰ i (if b then l else x ∷ unlink_id i l)) b m))
  | inr b ↦ elim (cases_cons (subst (λ b. Memᴰ i (if b then l else x ∷ unlink_id i l)) b m)) [
    | inl e ↦ absurd (ground arith)
    | inr m' ↦ unlink_id-gone i l d.1 m'
  ]
]

-- A relation that holds between each entry and those behind it.
abbrev pub Before : (ℕ → ℕ → Type 0) → List ℕ → Type 0
Before R [] = Unit {0}
Before R (x ∷ l) = ((j : ℕ) → Memᴰ j l → R x j) × Before R l

pub unlink_id-Before :
    (R : ℕ → ℕ → Type 0) (i : ℕ) (l : List ℕ) → Before R l → Before R (unlink_id i l)
unfolding unlink_id
unlink_id-Before R i [] b = b
unlink_id-Before R i (x ∷ l) b = elim (Bool-cases (x == i)) [
  | inl c ↦ subst (λ c. Before R (if c then l else x ∷ unlink_id i l)) (sym c) b.1
  | inr c ↦
      subst (λ c. Before R (if c then l else x ∷ unlink_id i l)) (sym c)
        ((λ j m. b.0 j (unlink_id-within i j l m)), unlink_id-Before R i l b.1)
]

pub unlink_id-Distinct : (i : ℕ) (l : List ℕ) → Distinct l → Distinct (unlink_id i l)
unfolding unlink_id
unlink_id-Distinct i [] d = d
unlink_id-Distinct i (x ∷ l) d = elim (Bool-cases (x == i)) [
  | inl c ↦ subst (λ c. Distinct (if c then l else x ∷ unlink_id i l)) (sym c) d.1
  | inr c ↦
      subst (λ c. Distinct (if c then l else x ∷ unlink_id i l)) (sym c)
        ((λ m. d.0 (unlink_id-within i x l m)), unlink_id-Distinct i l d.1)
]

-- The relation for the same entries.
pub Before-map :
    (R S : ℕ → ℕ → Type 0) (l : List ℕ)
    → ((i j : ℕ) → Memᴰ i l → Memᴰ j l → R i j → S i j)
    → Before R l
    → Before S l
Before-map R S [] h b = tt
Before-map R S (x ∷ l) h b = (
  (λ j m. h x j (head refl) (tail m) (b.0 j m)),
  Before-map R S l (λ i j m n. h i j (tail m) (tail n)) b.1,
)

pub Before-snoc :
    (R : ℕ → ℕ → Type 0) (l : List ℕ) (x : ℕ)
    → ((j : ℕ) → Memᴰ j l → R j x)
    → Before R l
    → Before R (l ++ x ∷ [])
Before-snoc R [] x h b = ((λ j m. absurd (not-nil m)), tt)
Before-snoc R (y ∷ l) x h b = (
  (λ j m. elim (append_cases l m) [
    | inl m' ↦ b.0 j m'
    | inr m' ↦ elim (cases_cons m') [
      | inl e ↦ subst (R y) (sym e) (h y (head refl))
      | inr none_left ↦ absurd (not-nil none_left)
    ]
  ]),
  Before-snoc R l x (λ j m. h j (tail m)) b.1,
)

pub Distinct-snoc : (l : List ℕ) (x : ℕ) → (Memᴰ x l → ⊥) → Distinct l → Distinct (l ++ x ∷ [])
Distinct-snoc [] x n d = ((λ m. not-nil m), tt)
Distinct-snoc (y ∷ l) x n d = (
  (λ m. elim (append_cases l m) [
    | inl m' ↦ d.0 m'
    | inr m' ↦ elim (cases_cons m') [ inl e ↦ n (head (sym e)) | inr none_left ↦ not-nil none_left ]
  ]),
  Distinct-snoc l x (λ m. n (tail m)) d.1,
)
