-- ===== src/Tbus/Read.antt =====
-- The receiver's calls: which packets `tbus_read_begin` hands out, and that any of the offsets
-- behind them is one to go on from.
use Prim.Native.Nat.{min}
use tsf4g.Prelude.{
  ℕ, zero, suc, ◌+◌, ◌-◌, ◌≤◌, ◌<◌, ◌≡◌, refl, sym, ◌∙◌, ap, subst, ◌⊎◌, inl, inr, List, [], ◌∷◌,
  ◌++◌, some, arith, Memory, length, u32_mod,
}
use tsf4g.Tbus.{Tbus, Iovec, Reading, scan, header_size, read_begin, read_lower, read_upper}
use tsf4g.Tbus.Chain.{Chain, Chain-le}
use tsf4g.Tbus.Position.{
  Ends, IsFree, Only, IsStable, Extends, Position-stable, Held-stable, Position-extends,
  Held-extends, Position, Held, low, high, ahead, behind, IsBounded,
}
use tsf4g.Tbus.Peek.{iov_of, stop_at, peeked, peek_lem}

-- The entries are the first of the packets `ps`, and behind each number of them stands an offset
-- from which the others can be read; `k` is the one behind them all.
abbrev pub Handed : Tbus → ℕ → List (List ℕ) → List Iovec → Type 0
Handed tb k ps [] = Position tb k ps
Handed tb k [] (v ∷ vs) = ⊥
Handed tb k (p ∷ ps) (v ∷ vs) =
    Position tb (v.base - header_size) (p ∷ ps)
    × (header_size ≤ v.base)
    × (v.base + v.len ≤ tb.size)
    × Held tb v p
    × Handed tb k ps vs

-- Entries and stop of a scan of `xs` from `ch` to the end of the ring, and then of `ys`.
abbrev upper_iov : ℕ → ℕ → List (List ℕ) → List (List ℕ) → List Iovec
upper_iov ch num [] ys = iov_of 0 num ys
upper_iov ch zero (x ∷ xs) ys = []
upper_iov ch (suc num) (x ∷ xs) ys =
    record { base = ch + header_size; len = length x }
    ∷ upper_iov (ch + (header_size + length x)) num xs ys

abbrev upper_stop : ℕ → ℕ → ℕ → List (List ℕ) → List (List ℕ) → ℕ
upper_stop ch tail num [] ys = stop_at 0 tail num ys
upper_stop ch tail zero (x ∷ xs) ys = ch
upper_stop ch tail (suc num) (x ∷ xs) ys = upper_stop (ch + (header_size + length x)) tail num xs ys

length-iov_of : (ch num : ℕ) (ps : List (List ℕ)) → length (iov_of ch num ps) ≡ min num (length ps)
length-iov_of ch num [] = omega arith
length-iov_of ch zero (p ∷ ps) = omega arith
length-iov_of ch (suc num) (p ∷ ps) =
    omega (arith, length-iov_of (ch + (header_size + length p)) num ps)

length-upper_iov :
    (ch num : ℕ) (xs ys : List (List ℕ))
    → length (upper_iov ch num xs ys) ≡ min num (length (xs ++ ys))
length-upper_iov ch num [] ys = length-iov_of 0 num ys
length-upper_iov ch zero (x ∷ xs) ys = omega arith
length-upper_iov ch (suc num) (x ∷ xs) ys =
    omega (arith, length-upper_iov (ch + (header_size + length x)) num xs ys)

upper_stop-nil :
    (ch tail num : ℕ) (xs ys : List (List ℕ)) → xs ++ ys ≡ [] → upper_stop ch tail num xs ys ≡ tail
upper_stop-nil ch tail num [] [] e = refl
upper_stop-nil ch tail num [] (y ∷ ys) e = cc
upper_stop-nil ch tail num (x ∷ xs) ys e = cc

module _ (tb : Tbus) (b : IsBounded tb) where
  lower-Handed :
      (ch num : ℕ) (ps : List (List ℕ))
      → (tb.head_offset ≤ ch) ⊎ (tb.tail_offset < tb.head_offset)
      → Chain tb.buff ch tb.tail_offset ps
      → Handed tb (stop_at ch tb.tail_offset num ps) ps (iov_of ch num ps)
  lower-Handed ch num [] h c =
      ahead (omega arith)
        (subst (λ x. (tb.head_offset ≤ x) ⊎ (tb.tail_offset < tb.head_offset)) c h) refl
  lower-Handed ch zero (p ∷ ps) h c = ahead (Chain-le tb.buff ch tb.tail_offset (p ∷ ps) c) h c
  lower-Handed ch (suc num) (p ∷ ps) h c =
      let le = Chain-le tb.buff (ch + (header_size + length p)) tb.tail_offset ps c.3 in
      let ti = b.tail_in in
      let a : Position tb ch (p ∷ ps) = ahead (omega arith) h c in
      (
        subst (λ x. Position tb x (p ∷ ps)) (omega arith) a,
        omega arith,
        omega arith,
        low (omega arith) (omega arith) c.2,
        lower-Handed (ch + (header_size + length p)) num ps (omega arith) c.3,
      )

  upper-Handed :
      (ch p num : ℕ) (xs ys : List (List ℕ))
      → tb.tail_offset < tb.head_offset
      → tb.head_offset ≤ ch
      → Chain tb.buff ch p xs
      → Ends tb.buff p tb.size
      → Chain tb.buff 0 tb.tail_offset ys
      → Handed tb (upper_stop ch tb.tail_offset num xs ys) (xs ++ ys) (upper_iov ch num xs ys)
  upper-Handed ch p num [] ys t h c e d = lower-Handed 0 num ys (inr t) d
  upper-Handed ch p zero (x ∷ xs) ys t h c e d = behind t h p (x ∷ xs) ys refl c e d
  upper-Handed ch p (suc num) (x ∷ xs) ys t h c e d =
      let le = Chain-le tb.buff (ch + (header_size + length x)) p xs c.3 in
      let a : Position tb ch (x ∷ xs ++ ys) = behind t h p (x ∷ xs) ys refl c e d in
      (
        subst (λ y. Position tb y (x ∷ xs ++ ys)) (omega arith) a,
        omega arith,
        omega arith,
        high t (omega arith) c.2,
        upper-Handed (ch + (header_size + length x)) p num xs ys t (omega arith) c.3 e d,
      )

-- The scan to the end of the ring has either read all of `xs`, and `ys` follows, or it stopped on
-- the way.
data Crossed (ch limit tail num : ℕ) (xs ys : List (List ℕ)) : Type 0 where
  across :
      stop_at ch limit num xs ≡ limit
      → upper_iov ch num xs ys ≡ iov_of ch num xs ++ iov_of 0 (num - length (iov_of ch num xs)) ys
      → upper_stop ch tail num xs ys ≡ stop_at 0 tail (num - length (iov_of ch num xs)) ys
      → Crossed ch limit tail num xs ys
  short :
      stop_at ch limit num xs < limit
      → upper_iov ch num xs ys ≡ iov_of ch num xs
      → upper_stop ch tail num xs ys ≡ stop_at ch limit num xs
      → Crossed ch limit tail num xs ys

Crossed-total :
    (m : Memory) (ch p limit tail num : ℕ) (xs ys : List (List ℕ))
    → Chain m ch p xs
    → p ≤ limit
    → Crossed ch limit tail num xs ys
Crossed-total m ch p limit tail num [] ys c h =
    across refl (ap (λ n. iov_of 0 n ys) (omega arith))
      (ap (λ n. stop_at 0 tail n ys) (omega arith))
Crossed-total m ch p limit tail zero (x ∷ xs) ys c h =
    short (omega (arith, Chain-le m (ch + (header_size + length x)) p xs c.3)) refl refl
Crossed-total m ch p limit tail (suc num) (x ∷ xs) ys c h =
    elim (Crossed-total m (ch + (header_size + length x)) p limit tail num xs ys c.3 h) [
      | across s i u ↦
          across s
            (rw (minus num) (ap (λ vs. record { base = ch + header_size; len = length x } ∷ vs) i))
            (rw (minus num) u)
      | short s i u ↦
          short s (ap (λ vs. record { base = ch + header_size; len = length x } ∷ vs) i) u
    ]
  where
    minus :
        (n : ℕ)
        → suc n - suc (length (iov_of (ch + (header_size + length x)) num xs))
          ≡ n - length (iov_of (ch + (header_size + length x)) num xs)
    minus n = omega arith

stop_at-le :
    (m : Memory) (ch limit num : ℕ) (ps : List (List ℕ))
    → Chain m ch limit ps
    → stop_at ch limit num ps ≤ limit
stop_at-le m ch limit num [] c = omega arith
stop_at-le m ch limit zero (p ∷ ps) c = Chain-le m ch limit (p ∷ ps) c
stop_at-le m ch limit (suc num) (p ∷ ps) c =
    stop_at-le m (ch + (header_size + length p)) limit num ps c.3

scan_lem :
    (m : Memory) (ch p limit num : ℕ) (ps : List (List ℕ))
    → Chain m ch p ps
    → Ends m p limit
    → scan m ch limit num ≡ some (peeked ch limit num ps)
scan_lem m ch p limit num ps c e =
    peek_lem (suc (limit - ch)) m ch p limit num ps (omega (arith, Chain-le m ch p ps c)) c e

module _ (tb : Tbus) (b : IsBounded tb) (num : ℕ) where
  -- The scan of the packets up to the tail, at the end of a reading that has `seg0`.
  read_lower_lem :
      (seg0 : List Iovec) (ch : ℕ) (n : ℕ) (ps : List (List ℕ))
      → Chain tb.buff ch tb.tail_offset ps
      → read_lower tb seg0 (peeked ch tb.tail_offset n ps)
        ≡ record { head = stop_at ch tb.tail_offset n ps; iov = seg0 ++ iov_of ch n ps }
  unfolding read_lower
  read_lower_lem seg0 ch n ps c =
      let le = stop_at-le tb.buff ch tb.tail_offset n ps c in
      let small : stop_at ch tb.tail_offset n ps < u32_mod = omega (arith, b.tail_in, b.small) in
      ap (λ h. record { head = h; iov = seg0 ++ iov_of ch n ps }) (omega arith)

  read_lower_ahead :
      (ps : List (List ℕ))
      → tb.head_offset ≤ tb.tail_offset
      → Chain tb.buff tb.head_offset tb.tail_offset ps
      → read_begin tb num
        ≡ some (record {
          head = stop_at tb.head_offset tb.tail_offset num ps;
          iov = iov_of tb.head_offset num ps;
        })
  unfolding read_begin
  read_lower_ahead ps h c = ground (
    arith,
    scan_lem tb.buff tb.head_offset tb.tail_offset tb.tail_offset num ps c
        (omega arith, inl (omega arith)),
    read_lower_lem [] tb.head_offset num ps c,
  )

  read_upper_behind :
      (p : ℕ) (xs ys : List (List ℕ))
      → tb.tail_offset < tb.head_offset
      → Chain tb.buff tb.head_offset p xs
      → Ends tb.buff p tb.size
      → Chain tb.buff 0 tb.tail_offset ys
      → read_begin tb num
        ≡ some (record {
          head = upper_stop tb.head_offset tb.tail_offset num xs ys;
          iov = upper_iov tb.head_offset num xs ys;
        })
  unfolding read_begin read_upper
  read_upper_behind p xs ys t c e d =
      let seg0 = iov_of tb.head_offset num xs in
      elim (Crossed-total tb.buff tb.head_offset p tb.size tb.tail_offset num xs ys c e.0) [
        | across s i u ↦ ground (
          arith,
          scan_lem tb.buff tb.head_offset p tb.size num xs c e,
          scan_lem tb.buff 0 tb.tail_offset tb.tail_offset (num - length seg0) ys d
              (omega arith, inl (omega arith)),
          read_lower_lem seg0 0 (num - length seg0) ys d,
        )
        | short s i u ↦
            ground (arith, b.small, scan_lem tb.buff tb.head_offset p tb.size num xs c e)
      ]

  -- `tbus_read_begin` returns, and hands out the first packets that its position has to read.
  pub read_begin_lem :
      (ps : List (List ℕ))
      → Position tb tb.head_offset ps
      → (r : Reading) × (read_begin tb num ≡ some r)
        × Handed tb r.head ps r.iov
        × (length r.iov ≡ min num (length ps))
        × (ps ≡ [] → r.head ≡ tb.tail_offset)
  read_begin_lem ps (ahead h k c) = (
    record {
      head = stop_at tb.head_offset tb.tail_offset num ps;
      iov = iov_of tb.head_offset num ps;
    },
    read_lower_ahead ps h c,
    lower-Handed tb b tb.head_offset num ps k c,
    length-iov_of tb.head_offset num ps,
    λ z. rw z,
  )
  read_begin_lem ps (behind t h p xs ys q c e d) = (
    record {
      head = upper_stop tb.head_offset tb.tail_offset num xs ys;
      iov = upper_iov tb.head_offset num xs ys;
    },
    read_upper_behind p xs ys t c e d,
    subst
        (λ zs.
          Handed tb (upper_stop tb.head_offset tb.tail_offset num xs ys) zs
            (upper_iov tb.head_offset num xs ys))
        (sym q) (upper-Handed tb b tb.head_offset p num xs ys t h c e d),
    rw q (length-upper_iov tb.head_offset num xs ys),
    λ z. upper_stop-nil tb.head_offset tb.tail_offset num xs ys (sym q ∙ z),
  )

-- A lent reading is left alone by the sender's calls, and a new packet stands behind what it holds.
Handed-fill :
    (k : ℕ) (ps : List (List ℕ)) (vs : List Iovec) (tb : Tbus) (m : Memory) (lo hi : ℕ)
    → IsFree tb lo hi
    → Only lo hi tb.buff m
    → Handed tb k ps vs
    → Handed (record tb { buff = m }) k ps vs
Handed-fill k ps [] tb m lo hi f o h = (Position-stable k ps).fill tb m lo hi f o h
Handed-fill k [] (v ∷ vs) tb m lo hi f o h = h
Handed-fill k (p ∷ ps) (v ∷ vs) tb m lo hi f o h = (
  (Position-stable (v.base - header_size) (p ∷ ps)).fill tb m lo hi f o h.0,
  h.1,
  h.2,
  (Held-stable v p).fill tb m lo hi f o h.3,
  Handed-fill k ps vs tb m lo hi f o h.4,
)

Handed-wrap :
    (k : ℕ) (ps : List (List ℕ)) (vs : List Iovec) (tb : Tbus)
    → 0 < tb.head_offset
    → tb.head_offset ≤ tb.tail_offset
    → Ends tb.buff tb.tail_offset tb.size
    → Handed tb k ps vs
    → Handed (record tb { tail_offset = 0 }) k ps vs
Handed-wrap k ps [] tb z f e h = (Position-stable k ps).wrap tb z f e h
Handed-wrap k [] (v ∷ vs) tb z f e h = h
Handed-wrap k (p ∷ ps) (v ∷ vs) tb z f e h = (
  (Position-stable (v.base - header_size) (p ∷ ps)).wrap tb z f e h.0,
  h.1,
  h.2,
  (Held-stable v p).wrap tb z f e h.3,
  Handed-wrap k ps vs tb z f e h.4,
)

pub Handed-stable :
    (k : ℕ) (ps : List (List ℕ)) (vs : List Iovec) → IsStable (λ tb. Handed tb k ps vs)
Handed-stable k ps vs = record { fill = Handed-fill k ps vs; wrap = Handed-wrap k ps vs }

pub Handed-extends :
    (k : ℕ) (ps : List (List ℕ)) (vs : List Iovec) (p : List ℕ)
    → Extends (λ tb. Handed tb k ps vs) p (λ tb. Handed tb k (ps ++ p ∷ []) vs)
Handed-extends k ps [] p tb hi f n h = Position-extends k ps p tb hi f n h
Handed-extends k [] (v ∷ vs) p tb hi f n h = absurd h
Handed-extends k (q ∷ ps) (v ∷ vs) p tb hi f n h = (
  Position-extends (v.base - header_size) (q ∷ ps) p tb hi f n h.0,
  h.1,
  h.2,
  Held-extends v q p tb hi f n h.3,
  Handed-extends k ps vs p tb hi f n h.4,
)
