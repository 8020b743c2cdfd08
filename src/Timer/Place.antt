-- ===== src/Timer/Place.antt =====
-- Where the entries of a timer wheel stand.
use tsf4g.Prelude.{
  ℕ, suc, ◌+◌, ◌-◌, ◌/◌, ◌%◌, ◌≤◌, ◌<◌, ◌≡◌, ◌≢◌, refl, sym, subst, ◌⊎◌, inl, inr, arith, u64_mod,
  lt_or_le,
}
use tsf4g.Timer.{Level, tv1, tv2, tv3, tv4, tv5, unit_of, max_tval, Slot, slot_of, place, index}

-- The first slot of a vector that is not cascaded yet when `jiffies` is `j`.
abbrev pub first : Level → ℕ → ℕ
first l j = (j + (unit_of l - 1)) / unit_of l

-- An entry that a higher vector holds: its time, which is that of its expiry or before, is one of
-- the 64 slots from the first on.
abbrev pub IsLater : Level → ℕ → ℕ → ℕ → Type 0
IsLater l j i x =
    (t : ℕ) × (t ≤ x)
    × (first l j ≤ t / unit_of l)
    × (t / unit_of l < first l j + 64)
    × (i ≡ t / unit_of l % 64)

-- An entry of the first vector: due within its ticks, or overdue in the slot of the next tick.
abbrev pub IsSoon : ℕ → ℕ → ℕ → Type 0
IsSoon j i x = ((j ≤ x) × (x < j + 256) × (i ≡ x % 256)) ⊎ ((x < j) × (i ≡ j % 256))

abbrev pub IsPlaced : ℕ → Slot → ℕ → Type 0
IsPlaced j s x = elim s.level [
  | tv1 ↦ IsSoon j s.index x
  | tv2 ↦ IsLater tv2 j s.index x
  | tv3 ↦ IsLater tv3 j s.index x
  | tv4 ↦ IsLater tv4 j s.index x
  | tv5 ↦ IsLater tv5 j s.index x
]

-- Far enough from the wrap of `jiffies` that a clipped time does not wrap.
abbrev pub IsEarly : ℕ → Type 0
IsEarly j = j + 0x100000000 < u64_mod

soon : (j x : ℕ) → j ≤ x → x < j + 256 → IsPlaced j (slot_of tv1 x) x
soon j x h k = inl (h, k, omega arith)

overdue : (j x : ℕ) → x ≤ j → IsPlaced j (slot_of tv1 j) x
overdue j x h = ground arith

later2 : (j x : ℕ) → j + 256 ≤ x → x < j + 16384 → IsPlaced j (slot_of tv2 x) x
later2 j x h k = (x, omega arith, omega arith, omega arith, refl)

later3 : (j x : ℕ) → j + 16384 ≤ x → x < j + 1048576 → IsPlaced j (slot_of tv3 x) x
later3 j x h k = (x, omega arith, omega arith, omega arith, refl)

later4 : (j x : ℕ) → j + 1048576 ≤ x → x < j + 67108864 → IsPlaced j (slot_of tv4 x) x
later4 j x h k = (x, omega arith, omega arith, omega arith, refl)

later5 : (j x t : ℕ) → j + 67108864 ≤ t → t ≤ j + 0xffffffff → t ≤ x → IsPlaced j (slot_of tv5 t) x
later5 j x t h k l = (t, l, omega arith, omega arith, refl)

-- A time, by the distance to it.
data Distance (j x : ℕ) : Slot → Type 0 where
  past : x ≤ j → Distance j x (slot_of tv1 j)
  near1 : j ≤ x → x < j + 256 → Distance j x (slot_of tv1 x)
  near2 : j + 256 ≤ x → x < j + 16384 → Distance j x (slot_of tv2 x)
  near3 : j + 16384 ≤ x → x < j + 1048576 → Distance j x (slot_of tv3 x)
  near4 : j + 1048576 ≤ x → x < j + 67108864 → Distance j x (slot_of tv4 x)
  near5 : j + 67108864 ≤ x → x ≤ j + 0xffffffff → Distance j x (slot_of tv5 x)
  far : j + 0xffffffff < x → Distance j x (slot_of tv5 (j + 0xffffffff))

module _ (j x : ℕ) where
  place-past : x ≤ j → place j x ≡ slot_of tv1 j
  unfolding place
  place-past h = ground arith

  pub place-near1 : j < x → x < j + 256 → place j x ≡ slot_of tv1 x
  unfolding place
  place-near1 h k = ground arith

  place-near2 : j + 256 ≤ x → x < j + 16384 → place j x ≡ slot_of tv2 x
  unfolding place
  place-near2 h k = ground arith

  place-near3 : j + 16384 ≤ x → x < j + 1048576 → place j x ≡ slot_of tv3 x
  unfolding place
  place-near3 h k = ground arith

  place-near4 : j + 1048576 ≤ x → x < j + 67108864 → place j x ≡ slot_of tv4 x
  unfolding place
  place-near4 h k = ground arith

  place-near5 : j + 67108864 ≤ x → x ≤ j + 0xffffffff → place j x ≡ slot_of tv5 x
  unfolding place
  place-near5 h k = ground arith

  place-far : IsEarly j → j + 0xffffffff < x → place j x ≡ slot_of tv5 (j + 0xffffffff)
  unfolding place
  place-far e h = let m : (max_tval + j) % u64_mod ≡ j + 0xffffffff = omega arith in ground arith

place-Distance : (j x : ℕ) → IsEarly j → Distance j x (place j x)
place-Distance j x h = elim (lt_or_le x (suc j)) [
  | inl below1 ↦ subst (Distance j x) (sym (place-past j x (omega arith))) (past (omega arith))
  | inr above1 ↦ elim (lt_or_le x (j + 256)) [
    | inl below2 ↦
        subst (Distance j x) (sym (place-near1 j x (omega arith) (omega arith)))
          (near1 (omega arith) (omega arith))
    | inr above2 ↦ elim (lt_or_le x (j + 16384)) [
      | inl below3 ↦
          subst (Distance j x) (sym (place-near2 j x (omega arith) (omega arith)))
            (near2 (omega arith) (omega arith))
      | inr above3 ↦ elim (lt_or_le x (j + 1048576)) [
        | inl below4 ↦
            subst (Distance j x) (sym (place-near3 j x (omega arith) (omega arith)))
              (near3 (omega arith) (omega arith))
        | inr above4 ↦ elim (lt_or_le x (j + 67108864)) [
          | inl below5 ↦
              subst (Distance j x) (sym (place-near4 j x (omega arith) (omega arith)))
                (near4 (omega arith) (omega arith))
          | inr above5 ↦ elim (lt_or_le x (j + 0x100000000)) [
            | inl below6 ↦
                subst (Distance j x) (sym (place-near5 j x (omega arith) (omega arith)))
                  (near5 (omega arith) (omega arith))
            | inr above6 ↦
                subst (Distance j x) (sym (place-far j x h (omega arith))) (far (omega arith))
          ]
        ]
      ]
    ]
  ]
]

-- An entry is put where the wheel finds it.
pub place-IsPlaced : (j x : ℕ) → IsEarly j → IsPlaced j (place j x) x
place-IsPlaced j x h = placed (place-Distance j x h)
  where
    placed : {s : Slot} → Distance j x s → IsPlaced j s x
    placed (past h) = overdue j x h
    placed (near1 h k) = soon j x h k
    placed (near2 h k) = later2 j x h k
    placed (near3 h k) = later3 j x h k
    placed (near4 h k) = later4 j x h k
    placed (near5 h k) = later5 j x x h k (omega arith)
    placed (far h) = later5 j x (j + 0xffffffff) (omega arith) (omega arith) (omega arith)

-- The slots of the higher vectors that a tick at `j` takes its entries from.
abbrev pub IsDrained : ℕ → Slot → Type 0
IsDrained j s = (s.level ≢ tv1) × (j % unit_of s.level ≡ 0) × (s.index ≡ index s.level j)

-- No entry is put where the tick that is under way has taken the entries from.
pub place-IsDrained : (j x : ℕ) → IsEarly j → IsDrained j (place j x) → ⊥
place-IsDrained j x h = avoided (place-Distance j x h)
  where
    avoided : {s : Slot} → Distance j x s → IsDrained j s → ⊥
    avoided (past h) d = d.0 refl
    avoided (near1 h k) d = d.0 refl
    avoided (near2 h k) (n, m, e) = omega arith
    avoided (near3 h k) (n, m, e) = omega arith
    avoided (near4 h k) (n, m, e) = omega arith
    avoided (near5 h k) (n, m, e) = omega arith
    avoided (far h) (n, m, e) = omega arith
