-- ===== src/Mempool/Handles.antt =====
-- How long a handle, the id and the serial number of a unit, is good for.
use mathlib.Core.List.{Memᴰ}
use mathlib.Core.List.Memᴰ.{head, tail, cases_cons, not-nil}
use tsf4g.Prelude.{
  ℕ, zero, suc, ◌+◌, ◌%◌, ◌≤◌, ◌<◌, ◌≡◌, ◌≢◌, refl, sym, ◌∙◌, ap, subst, ◌⊎◌, inl, inr, List, [],
  ◌∷◌, arith, Option, none, some, some-injective, true, false, not, ◌&&◌, Bool-cases, ◌==◌,
  if◌then◌else◌, u64_mod,
}
use tsf4g.Mempool.{Mempool, invalid_id, ids_from, init, set_sn, alloc_first, alloc, free, ptr_test}

-- The uses that the callers make of a pool: a unit is taken if there is one and the serial numbers
-- are not used up, and a unit that is in use is freed.
pub data Step (p : Mempool) : Mempool → Type 0 where
  allocates : {id : ℕ} {q : Mempool} → p.sn ≢ invalid_id → alloc p ≡ some (id, q) → Step p q
  frees : (id : ℕ) → p.entry_sn id ≢ invalid_id → Step p (free p id)

pub data Steps (p : Mempool) : Mempool → Type 0 where
  stay : Steps p p
  step : {q r : Mempool} → Steps p q → Step q r → Steps p r

abbrev pub Distinct : List ℕ → Type 0
Distinct [] = Unit {0}
Distinct (x ∷ xs) = (Memᴰ x xs → ⊥) × Distinct xs

-- Serial numbers are less than the next one; unused units have none, and are listed once.
pub record IsMempool (p : Mempool) : Type 0 where
  pub bounded : p.sn ≤ invalid_id
  pub older : (i : ℕ) → p.entry_sn i ≢ invalid_id → p.entry_sn i < p.sn
  pub unused : (i : ℕ) → Memᴰ i p.unused_list → p.entry_sn i ≡ invalid_id
  pub distinct : Distinct p.unused_list

set_sn-cases :
    (v : ℕ → ℕ) (i n j : ℕ) → ((i ≡ j) × (set_sn v i n j ≡ n)) ⊎ ((i ≢ j) × (set_sn v i n j ≡ v j))
set_sn-cases v i n j = elim (Bool-cases (i == j)) [
  | inl h ↦ inl (ground arith, ap (λ t. if t then n else v j) h)
  | inr h ↦ inr (ground arith, ap (λ t. if t then n else v j) h)
]

pub alloc_first-IsMempool :
    (p : Mempool) (id : ℕ) (rest : List ℕ)
    → p.sn ≢ invalid_id
    → p.unused_list ≡ id ∷ rest
    → IsMempool p
    → IsMempool (alloc_first p id rest)
unfolding alloc_first
alloc_first-IsMempool p id rest n e k =
    let d : Distinct (id ∷ rest) = subst Distinct e k.distinct in
    let next : (p.sn + 1) % u64_mod ≡ p.sn + 1 = omega (arith, k.bounded) in
    record {
      bounded = omega (arith, k.bounded, next, n);
      older = λ i m. elim (set_sn-cases p.entry_sn id p.sn i) [
        | inl (here, set) ↦ omega (arith, set, next)
        | inr (other, set) ↦ omega (arith, set, next, k.older i (λ z. m (set ∙ z)))
      ];
      unused = λ i m. elim (set_sn-cases p.entry_sn id p.sn i) [
        | inl (here, set) ↦ absurd (d.0 (subst (λ j. Memᴰ j rest) (sym here) m))
        | inr (other, set) ↦ set ∙ k.unused i (subst (Memᴰ i) (sym e) (tail m))
      ];
      distinct = d.1;
    }

pub free-IsMempool :
    (p : Mempool) (id : ℕ) → p.entry_sn id ≢ invalid_id → IsMempool p → IsMempool (free p id)
unfolding free
free-IsMempool p id n k = record {
  bounded = k.bounded;
  older = λ i m. elim (set_sn-cases p.entry_sn id invalid_id i) [
    | inl (here, set) ↦ absurd (m set)
    | inr (other, set) ↦ omega (arith, set, k.older i (λ z. m (set ∙ z)))
  ];
  unused = λ i m. elim (set_sn-cases p.entry_sn id invalid_id i) [
    | inl (here, set) ↦ set
    | inr (other, set) ↦ elim (cases_cons m) [
      | inl e ↦ absurd (other (sym e))
      | inr m' ↦ set ∙ k.unused i m'
    ]
  ];
  distinct = (λ m. n (k.unused id m), k.distinct);
}

-- What `alloc` does, if it gives a unit.
record Allocated (p : Mempool) (id : ℕ) (q : Mempool) : Type 0 where
  rest : List ℕ
  first : p.unused_list ≡ id ∷ rest
  after : alloc_first p id rest ≡ q

taken :
    (p : Mempool) (u : List ℕ) (id : ℕ) (q : Mempool)
    → p.unused_list ≡ u
    → (elim u as (λ x. Option (ℕ × Mempool)) [
      | [] ↦ none
      | i ∷ rest ↦ some (i, alloc_first p i rest)
    ])
      ≡ some (id, q)
    → Allocated p id q
taken p [] id q e h = absurd (ground arith)
taken p (i ∷ rest) id q e h =
    let same = some-injective _ _ h in
    let own : i ≡ id = ap (λ r. r.0) same in
    record {
      rest = rest;
      first = e ∙ ap (λ i. i ∷ rest) own;
      after = ap (λ i. alloc_first p i rest) (sym own) ∙ ap (λ r. r.1) same;
    }

alloc-Allocated : (p : Mempool) {id : ℕ} {q : Mempool} → alloc p ≡ some (id, q) → Allocated p id q
unfolding alloc
alloc-Allocated p {id} {q} h = taken p p.unused_list id q refl h

Step-IsMempool : {p q : Mempool} → Step p q → IsMempool p → IsMempool q
Step-IsMempool {p} (allocates {id} n h) k =
    let a = alloc-Allocated p h in
    subst IsMempool a.after (alloc_first-IsMempool p id a.rest n a.first k)
Step-IsMempool {p} (frees id n) k = free-IsMempool p id n k

-- The invariant of the pool holds after any uses of it.
pub Steps-IsMempool : {p q : Mempool} → Steps p q → IsMempool p → IsMempool q
Steps-IsMempool stay k = k
Steps-IsMempool (step s t) k = Step-IsMempool t (Steps-IsMempool s k)

above : (n i j : ℕ) → Memᴰ j (ids_from n i) → i ≤ j
unfolding ids_from
above zero i j m = absurd (not-nil m)
above (suc n) i j (head e) = omega arith
above (suc n) i j (tail m) = omega (arith, above n (suc i) j m)

ids_from-Distinct : (n i : ℕ) → Distinct (ids_from n i)
unfolding ids_from
ids_from-Distinct zero i = tt
ids_from-Distinct (suc n) i = (λ m. omega (arith, above n (suc i) i m), ids_from-Distinct n (suc i))

pub init-IsMempool : (n : ℕ) → IsMempool (init n)
unfolding init
init-IsMempool n = record {
  bounded = omega arith;
  older = λ i m. absurd (m refl);
  unused = λ i m. refl;
  distinct = ids_from-Distinct n 0;
}

-- A serial number that the unit does not have and never gets.
record IsStale (p : Mempool) (id sno : ℕ) : Type 0 where
  past : sno < p.sn
  other : p.entry_sn id ≢ sno
  valid : sno ≢ invalid_id

alloc_first-IsStale :
    (p : Mempool) (i : ℕ) (rest : List ℕ) (id sno : ℕ)
    → p.sn ≢ invalid_id
    → IsMempool p
    → IsStale p id sno
    → IsStale (alloc_first p i rest) id sno
unfolding alloc_first
alloc_first-IsStale p i rest id sno n k s =
    let next : (p.sn + 1) % u64_mod ≡ p.sn + 1 = omega (arith, k.bounded) in
    record {
      past = omega (arith, next, s.past);
      other = λ e. elim (set_sn-cases p.entry_sn i p.sn id) [
        | inl (here, set) ↦ omega (arith, set, e, s.past)
        | inr (away, set) ↦ s.other (sym set ∙ e)
      ];
      valid = s.valid;
    }

free-IsStale : (p : Mempool) (i id sno : ℕ) → IsStale p id sno → IsStale (free p i) id sno
unfolding free
free-IsStale p i id sno s = record {
  past = s.past;
  other = λ e. elim (set_sn-cases p.entry_sn i invalid_id id) [
    | inl (here, set) ↦ s.valid (sym e ∙ set)
    | inr (away, set) ↦ s.other (sym set ∙ e)
  ];
  valid = s.valid;
}

Steps-IsStale :
    {p q : Mempool} {id sno : ℕ} → Steps p q → IsMempool p → IsStale p id sno → IsStale q id sno
Steps-IsStale stay k s = s
Steps-IsStale {id = id} {sno} (step {q} t (allocates {id = i} n h)) k s =
    let a = alloc-Allocated q h in
    subst (λ r. IsStale r id sno) a.after
      (alloc_first-IsStale q i a.rest id sno n (Steps-IsMempool t k) (Steps-IsStale t k s))
Steps-IsStale {id = id} {sno} (step {q} t (frees i n)) k s =
    free-IsStale q i id sno (Steps-IsStale t k s)

pub ptr_test-live :
    (p : Mempool) (id sno : ℕ)
    → ptr_test p id sno ≡ true
    → (p.entry_sn id ≢ invalid_id) × (p.entry_sn id ≡ sno)
unfolding ptr_test
ptr_test-live p id sno h = ground arith

IsStale-ptr_test : (p : Mempool) (id sno : ℕ) → IsStale p id sno → ptr_test p id sno ≡ false
unfolding ptr_test
IsStale-ptr_test p id sno s = ground (arith, s.other)

-- The handle of a unit that is freed never passes the test again, whatever units are taken and
-- freed afterwards.
pub ptr_test-free :
    {p q : Mempool} (id sno : ℕ)
    → IsMempool p
    → ptr_test p id sno ≡ true
    → Steps (free p id) q
    → ptr_test q id sno ≡ false
unfolding free
ptr_test-free {p} {q} id sno k h t =
    let (live, own) = ptr_test-live p id sno h in
    let before = k.older id live in
    let gone : IsStale (free p id) id sno = record {
      past = omega (arith, before, own);
      other = λ e. elim (set_sn-cases p.entry_sn id invalid_id id) [
        | inl (here, set) ↦ live (own ∙ sym e ∙ set)
        | inr (away, set) ↦ away refl
      ];
      valid = λ e. live (own ∙ e);
    } in
    IsStale-ptr_test q id sno (Steps-IsStale t (free-IsMempool p id live k) gone)

-- A use of the pool that does not free the unit with this id.
pub data Spares (p : Mempool) (id : ℕ) : Mempool → Type 0 where
  takes_other : {i : ℕ} {q : Mempool} → p.sn ≢ invalid_id → alloc p ≡ some (i, q) → Spares p id q
  frees_other : (i : ℕ) → i ≢ id → p.entry_sn i ≢ invalid_id → Spares p id (free p i)

pub alloc_first-sn :
    (p : Mempool) (i : ℕ) (rest : List ℕ) (id : ℕ)
    → i ≢ id
    → (alloc_first p i rest).entry_sn id ≡ p.entry_sn id
unfolding alloc_first
alloc_first-sn p i rest id n = elim (set_sn-cases p.entry_sn i p.sn id) [
  | inl (here, set) ↦ absurd (n here)
  | inr (away, set) ↦ set
]

pub free-sn : (p : Mempool) (i id : ℕ) → i ≢ id → (free p i).entry_sn id ≡ p.entry_sn id
unfolding free
free-sn p i id n = elim (set_sn-cases p.entry_sn i invalid_id id) [
  | inl (here, set) ↦ absurd (n here)
  | inr (away, set) ↦ set
]

ptr_test-sn :
    (p q : Mempool) (id sno : ℕ)
    → q.entry_sn id ≡ p.entry_sn id
    → ptr_test q id sno ≡ ptr_test p id sno
unfolding ptr_test
ptr_test-sn p q id sno e = ap (λ n. not (n == invalid_id) && (n == sno)) e

-- The handle of a unit that is in use passes the test until the unit is freed: no other use of the
-- pool takes the unit again or changes its number.
pub ptr_test-Spares :
    {p q : Mempool} (id sno : ℕ)
    → IsMempool p
    → ptr_test p id sno ≡ true
    → Spares p id q
    → ptr_test q id sno ≡ true
ptr_test-Spares {p} id sno k h (takes_other {i} n e) =
    let a = alloc-Allocated p e in
    let (live, own) = ptr_test-live p id sno h in
    let away : i ≢ id =
      λ same. live (k.unused id (subst (Memᴰ id) (sym a.first) (head (sym same)))) in
    subst (λ r. ptr_test r id sno ≡ true) a.after
      (ptr_test-sn p (alloc_first p i a.rest) id sno (alloc_first-sn p i a.rest id away) ∙ h)
ptr_test-Spares {p} id sno k h (frees_other i n m) =
    ptr_test-sn p (free p i) id sno (free-sn p i id n) ∙ h

pub free-own : (p : Mempool) (id : ℕ) → (free p id).entry_sn id ≡ invalid_id
unfolding free
free-own p id = elim (set_sn-cases p.entry_sn id invalid_id id) [
  | inl (here, set) ↦ set
  | inr (away, set) ↦ absurd (away refl)
]

pub alloc_first-own :
    (p : Mempool) (id : ℕ) (rest : List ℕ) → (alloc_first p id rest).entry_sn id ≡ p.sn
unfolding alloc_first
alloc_first-own p id rest = elim (set_sn-cases p.entry_sn id p.sn id) [
  | inl (here, set) ↦ set
  | inr (away, set) ↦ absurd (away refl)
]
