-- ===== src/Tbus/Release.antt =====
-- `tbus_read_end`: going on from an offset behind packets that were read.
use tsf4g.Prelude.{
  ℕ, zero, suc, ◌-◌, ◌≤◌, ◌<◌, ◌≡◌, refl, ap, inl, List, [], ◌∷◌, ◌++◌, arith, Memory, length,
  slice, u32_mod, take, drop, map,
}
use tsf4g.Tbus.{Tbus, Iovec, header_size, read_end, packet2offset}
use tsf4g.Tbus.Chain.{Chain-le}
use tsf4g.Tbus.Position.{
  IsBounded, Position, ahead, behind, IsFree, to_end, to_head, Held, low, high,
}
use tsf4g.Tbus.Read.{Handed}

-- Where a receiver goes on that has used the first `n` of the entries: at the header of the next,
-- or, if it used them all, where the reading stopped.
unfoldable pub resume : ℕ → List Iovec → ℕ → ℕ
resume head [] n = head
resume head (v ∷ vs) zero = packet2offset v.base
resume head (v ∷ vs) (suc n) = resume head vs n

-- The bytes of the entries.
abbrev pub packets : Memory → List Iovec → List (List ℕ)
packets m vs = map (λ v. slice m v.base v.len) vs

pub length-packets : (m : Memory) (vs : List Iovec) → length (packets m vs) ≡ length vs
length-packets m [] = refl
length-packets m (v ∷ vs) = ap suc (length-packets m vs)

Held-slice : (tb : Tbus) (v : Iovec) (p : List ℕ) → Held tb v p → slice tb.buff v.base v.len ≡ p
Held-slice tb v p (low h k s) = s
Held-slice tb v p (high t h s) = s

packet2offset_lem : (x : ℕ) → header_size ≤ x → x < u32_mod → packet2offset x ≡ x - header_size
unfolding packet2offset
packet2offset_lem x h s = omega arith

-- The entries are the packets in order, and behind any number of them stand the others.
pub resume-Position :
    (tb : Tbus) (k : ℕ) (ps : List (List ℕ)) (vs : List Iovec) (n : ℕ)
    → IsBounded tb
    → Handed tb k ps vs
    → n ≤ length vs
    → (rest : List (List ℕ)) × (ps ≡ packets tb.buff (take n vs) ++ rest)
      × Position tb (resume k vs n) rest
unfolding resume
resume-Position tb k ps [] zero b h l = (ps, refl, h)
resume-Position tb k ps [] (suc n) b h l = absurd (omega arith)
resume-Position tb k [] (v ∷ vs) n b h l = absurd h
resume-Position tb k (p ∷ ps) (v ∷ vs) zero b h l =
    (p ∷ ps, refl, rw (packet2offset_lem v.base h.1 (omega (arith, b.small))) h.0)
resume-Position tb k (p ∷ ps) (v ∷ vs) (suc n) b h l =
    let (rest, e, r) = resume-Position tb k ps vs n b h.4 (omega arith) in
    (rest, cc (Held-slice tb v p h.3, e), r)

pub resume-drop :
    (tb : Tbus) (k : ℕ) (ps : List (List ℕ)) (vs : List Iovec) (n : ℕ)
    → IsBounded tb
    → Handed tb k ps vs
    → n ≤ length vs
    → Position tb (resume k vs n) (drop n ps)
unfolding resume
resume-drop tb k ps [] zero b h l = h
resume-drop tb k ps [] (suc n) b h l = absurd (omega arith)
resume-drop tb k [] (v ∷ vs) n b h l = absurd h
resume-drop tb k (p ∷ ps) (v ∷ vs) zero b h l =
    rw (packet2offset_lem v.base h.1 (omega (arith, b.small))) h.0
resume-drop tb k (p ∷ ps) (v ∷ vs) (suc n) b h l = resume-drop tb k ps vs n b h.4 (omega arith)

pub packets-Handed :
    (tb : Tbus) (k : ℕ) (ps : List (List ℕ)) (vs : List Iovec)
    → Handed tb k ps vs
    → packets tb.buff vs ≡ take (length vs) ps
packets-Handed tb k ps [] h = refl
packets-Handed tb k [] (v ∷ vs) h = absurd h
packets-Handed tb k (p ∷ ps) (v ∷ vs) h = cc (Held-slice tb v p h.3, packets-Handed tb k ps vs h.4)

-- The receiver may move its head to any position.
pub read_end-Position :
    (tb : Tbus) (q : ℕ) (ps : List (List ℕ)) → Position tb q ps → Position (read_end tb q) q ps
unfolding read_end
read_end-Position tb q ps (ahead h k c) = ahead h (inl (omega arith)) c
read_end-Position tb q ps (behind t h p xs ys e c s d) =
    behind (omega arith) (omega arith) p xs ys e c s d

pub read_end-queue :
    (tb : Tbus) (q : ℕ) (ps : List (List ℕ))
    → Position tb q ps
    → Position (read_end tb q) (read_end tb q).head_offset ps
unfolding read_end
read_end-queue tb q ps k = read_end-Position tb q ps k

pub read_end-IsBounded :
    (tb : Tbus) (q : ℕ) (ps : List (List ℕ))
    → IsBounded tb
    → Position tb q ps
    → IsBounded (read_end tb q)
unfolding read_end
read_end-IsBounded tb q ps b (ahead h k c) = omega (arith, b.tail_in, b.packet_header, b.small)
read_end-IsBounded tb q ps b (behind t h p xs ys e c s d) =
    omega (arith, b.tail_in, b.packet_header, b.small, Chain-le tb.buff q p xs c)

-- It takes no byte from the sender.
pub read_end-IsFree :
    (tb : Tbus) (q lo hi : ℕ) (ps : List (List ℕ))
    → IsBounded tb
    → Position tb q ps
    → IsFree tb lo hi
    → IsFree (read_end tb q) lo hi
unfolding read_end
read_end-IsFree tb q lo hi ps b (ahead h k c) (to_end f l r) = to_end h l r
read_end-IsFree tb q lo hi ps b (ahead h k c) (to_head f l r) =
    to_end h l (omega (arith, b.head_in))
read_end-IsFree tb q lo hi ps b (behind t h p xs ys e c s d) (to_end f l r) = absurd (omega arith)
read_end-IsFree tb q lo hi ps b (behind t h p xs ys e c s d) (to_head f l r) =
    to_head (omega arith) l (omega arith)
