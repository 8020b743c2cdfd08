-- ===== src/Tbus/Peek.antt =====
-- `peek`: it ends, stays in bounds whatever the memory holds, and finds the packets of a chain.
use tsf4g.Prelude.{
  ℕ, zero, suc, ◌+◌, ◌-◌, ◌≤◌, ◌<◌, ◌≡◌, sym, subst, List, [], ◌∷◌, Option, some, none, arith,
  Memory, length,
}
use tsf4g.Tbus.{entry, Iovec, Peeked, peek, header_size, header_len}
use tsf4g.Tbus.Chain.{Chain, Chain-le}
use tsf4g.Tbus.Position.{Ends}

-- The entries that a scan of packets from `ch` writes, with room for `num`, and where it stops.
abbrev pub iov_of : ℕ → ℕ → List (List ℕ) → List Iovec
iov_of ch num [] = []
iov_of ch zero (p ∷ ps) = []
iov_of ch (suc num) (p ∷ ps) =
    record { base = ch + header_size; len = length p }
    ∷ iov_of (ch + (header_size + length p)) num ps

abbrev pub stop_at : ℕ → ℕ → ℕ → List (List ℕ) → ℕ
stop_at ch limit num [] = limit
stop_at ch limit zero (p ∷ ps) = ch
stop_at ch limit (suc num) (p ∷ ps) = stop_at (ch + (header_size + length p)) limit num ps

abbrev pub peeked : ℕ → ℕ → ℕ → List (List ℕ) → Peeked
peeked ch limit num ps = record { ret = some (stop_at ch limit num ps); iov = iov_of ch num ps }

peek_done :
    (fuel : ℕ) (m : Memory) (ch limit num : ℕ)
    → Ends m ch limit
    → peek (suc fuel) m ch limit num ≡ some (record { ret = some limit; iov = [] })
unfolding peek
peek_done fuel m ch limit num e = ground arith

-- On a chain `peek` finds the packets in order, as many as there is room for.
pub peek_lem :
    (fuel : ℕ) (m : Memory) (ch p limit num : ℕ) (ps : List (List ℕ))
    → limit < ch + fuel
    → Chain m ch p ps
    → Ends m p limit
    → peek fuel m ch limit num ≡ some (peeked ch limit num ps)
unfolding peek
peek_lem zero m ch p limit num ps f c e = absurd (omega (arith, Chain-le m ch p ps c))
peek_lem (suc fuel) m ch p limit num [] f c e =
    subst (λ x. peek (suc fuel) m x limit num ≡ some (peeked ch limit num [])) (sym c)
      (peek_done fuel m p limit num e)
peek_lem (suc fuel) m ch p limit zero (x ∷ xs) f c e =
    ground (arith, Chain-le m (ch + (header_size + length x)) p xs c.3)
peek_lem (suc fuel) m ch p limit (suc num) (x ∷ xs) f c e = ground (
  arith,
  Chain-le m (ch + (header_size + length x)) p xs c.3,
  peek_lem fuel m (ch + (header_size + length x)) p limit num xs (omega arith) c.3 e,
)

-- Every entry lies between `lo` and `hi`, its header too.
abbrev pub IovIn : ℕ → ℕ → List Iovec → Type 0
IovIn lo hi [] = Unit {0}
IovIn lo hi (v ∷ vs) = (lo + header_size ≤ v.base) × (v.base + v.len ≤ hi) × IovIn lo hi vs

IovIn-mono : (lo lo' hi : ℕ) (vs : List Iovec) → lo' ≤ lo → IovIn lo hi vs → IovIn lo' hi vs
IovIn-mono lo lo' hi [] h b = tt
IovIn-mono lo lo' hi (v ∷ vs) h b = (omega arith, b.1, IovIn-mono lo lo' hi vs h b.2)

abbrev pub RetIn : ℕ → ℕ → Option ℕ → Type 0
RetIn lo hi none = Unit {0}
RetIn lo hi (some r) = (lo ≤ r) × (r ≤ hi)

-- A scan from `lo` to `hi` that has returned, in bounds, with `num` entries at most.
abbrev pub IsSound : ℕ → ℕ → ℕ → Option Peeked → Type 0
IsSound lo hi num none = ⊥
IsSound lo hi num (some p) = IovIn lo hi p.iov × (length p.iov ≤ num) × RetIn lo hi p.ret

entry-IsSound :
    (lo lo' hi num : ℕ) (v : Iovec) (r : Option Peeked)
    → lo + header_size ≤ v.base
    → v.base + v.len ≤ hi
    → lo ≤ lo'
    → 0 < num
    → IsSound lo' hi (num - 1) r
    → IsSound lo hi num (entry v r)
entry-IsSound lo lo' hi num v none a b c n s = s
entry-IsSound lo lo' hi num v (some p) a b c n s =
    ((a, b, IovIn-mono lo' lo hi p.iov c s.0), omega arith, RetIn-mono p.ret s.2)
  where
    RetIn-mono : (r : Option ℕ) → RetIn lo' hi r → RetIn lo hi r
    RetIn-mono none h = tt
    RetIn-mono (some x) h = (omega arith, h.1)

-- Whatever the memory holds, `peek` returns, and hands out nothing outside its bounds.
pub peek-IsSound :
    (fuel : ℕ) (m : Memory) (ch limit num : ℕ)
    → limit - ch < fuel
    → ch ≤ limit
    → IsSound ch limit num (peek fuel m ch limit num)
unfolding peek
peek-IsSound zero m ch limit num f h = absurd (omega arith)
peek-IsSound (suc fuel) m ch limit num f h =
    let next = ch + (header_size + header_len m ch) in
    ground (
      arith,
      peek-IsSound fuel m next limit (num - 1),
      entry-IsSound ch next limit num (record { base = ch + header_size; len = header_len m ch })
          (peek fuel m next limit (num - 1)),
    )
