-- ===== src/Tbus/Position.antt =====
-- The packets that a receiver at a given offset has still to read, and what a sender may write
-- without disturbing them.
use tsf4g.Prelude.{
  ℕ, ◌+◌, ◌≤◌, ◌<◌, ◌≡◌, refl, sym, ◌∙◌, ap, ◌⊎◌, inl, inr, List, [], ◌∷◌, ◌++◌, append-nil,
  append_assoc, arith, Memory, Agree, u32_mod, read_u32-Agree, slice, slice-Agree,
}
use tsf4g.Tbus.{Iovec, Tbus, cmd_ignore, header_size, header_cmd}
use tsf4g.Tbus.Chain.{Chain, Chain-le, Chain-append, Chain-Agree}

-- The offsets lie in the ring, and the sizes are as `tbus_init` makes them.
pub record IsBounded (tb : Tbus) : Type 0 where
  pub head_in : tb.head_offset ≤ tb.size
  pub tail_in : tb.tail_offset ≤ tb.size
  pub packet_header : header_size ≤ tb.packet_size
  pub small : tb.size < u32_mod

-- A scan up to `limit` that has come to `p` goes to `limit`: no header fits, or it says so.
abbrev pub Ends : Memory → ℕ → ℕ → Type 0
Ends m p limit =
    (p ≤ limit)
    × ((limit < p + header_size) ⊎ ((p + header_size ≤ limit) × (header_cmd m p ≡ cmd_ignore)))

-- A receiver at `q`, at or past the head, has the packets to read: up to the tail, or up to where
-- the sender turned back and then from the start of the ring.
pub data Position (tb : Tbus) (q : ℕ) (ps : List (List ℕ)) : Type 0 where
  ahead :
      q ≤ tb.tail_offset
      → (tb.head_offset ≤ q) ⊎ (tb.tail_offset < tb.head_offset)
      → Chain tb.buff q tb.tail_offset ps
      → Position tb q ps
  behind :
      tb.tail_offset < tb.head_offset
      → tb.head_offset ≤ q
      → (p : ℕ) (xs ys : List (List ℕ)) → ps ≡ xs ++ ys
      → Chain tb.buff q p xs
      → Ends tb.buff p tb.size
      → Chain tb.buff 0 tb.tail_offset ys
      → Position tb q ps

-- The bytes that the sender may write: from the tail to the end of the ring, or to the head.
pub data IsFree (tb : Tbus) (lo hi : ℕ) : Type 0 where
  to_end : tb.head_offset ≤ tb.tail_offset → tb.tail_offset ≤ lo → hi ≤ tb.size → IsFree tb lo hi
  to_head :
      tb.tail_offset < tb.head_offset → tb.tail_offset ≤ lo → hi < tb.head_offset → IsFree tb lo hi

pub IsFree-within :
    (tb : Tbus) (lo hi lo' hi' : ℕ) → IsFree tb lo hi → lo ≤ lo' → hi' ≤ hi → IsFree tb lo' hi'
IsFree-within tb lo hi lo' hi' (to_end a l r) h k = to_end a (omega arith) (omega arith)
IsFree-within tb lo hi lo' hi' (to_head a l r) h k = to_head a (omega arith) (omega arith)

pub IsFree-buff :
    (tb : Tbus) (m : Memory) (lo hi : ℕ) → IsFree tb lo hi → IsFree (record tb { buff = m }) lo hi
IsFree-buff tb m lo hi (to_end a l r) = to_end a l r
IsFree-buff tb m lo hi (to_head a l r) = to_head a l r

-- `m'` differs from `m` at most from `lo` up to `hi`.
abbrev pub Only : ℕ → ℕ → Memory → Memory → Type 0
Only lo hi m m' = (i : ℕ) → (i < lo) ⊎ (hi ≤ i) → m' i ≡ m i

Only-below : {lo hi : ℕ} {m m' : Memory} (a b : ℕ) → Only lo hi m m' → b ≤ lo → Agree a b m m'
Only-below a b o h i l r = o i (inl (omega arith))

Only-above : {lo hi : ℕ} {m m' : Memory} (a b : ℕ) → Only lo hi m m' → hi ≤ a → Agree a b m m'
Only-above a b o h i l r = o i (inr (omega arith))

Ends-Agree : {m m' : Memory} (p limit : ℕ) → Agree p limit m m' → Ends m p limit → Ends m' p limit
Ends-Agree p limit g (h, inl k) = (h, inl k)
Ends-Agree {m} p limit g (h, inr (k, e)) =
    (h, inr (k, read_u32-Agree {lo = p} {m = m} p g (omega arith) (omega arith) ∙ e))

-- A write to free bytes leaves the packets of every position.
pub fill-Position :
    (tb : Tbus) (m : Memory) (lo hi q : ℕ) (ps : List (List ℕ))
    → IsFree tb lo hi
    → Only lo hi tb.buff m
    → Position tb q ps
    → Position (record tb { buff = m }) q ps
fill-Position tb m lo hi q ps (to_end f l r) o (ahead h k c) = ahead h k (
    Chain-Agree {m = tb.buff} (Only-below {m = tb.buff} 0 tb.tail_offset o l) q tb.tail_offset ps
      (omega arith) (omega arith) c)
fill-Position tb m lo hi q ps (to_head f l r) o (ahead h k c) = ahead h k (
    Chain-Agree {m = tb.buff} (Only-below {m = tb.buff} 0 tb.tail_offset o l) q tb.tail_offset ps
      (omega arith) (omega arith) c)
fill-Position tb m lo hi q ps (to_end f l r) o (behind t h p xs ys e c s d) = absurd (omega arith)
fill-Position tb m lo hi q ps (to_head f l r) o (behind t h p xs ys e c s d) =
    let q≤p = Chain-le tb.buff q p xs c in
    let above = Only-above {m = tb.buff} {m' = m} q tb.size o (omega arith) in
    behind t h p xs ys e (Chain-Agree {m = tb.buff} above q p xs (omega arith) s.0 c)
      (Ends-Agree {m = tb.buff} p tb.size (Only-above {m = tb.buff} p tb.size o (omega arith)) s)
      (Chain-Agree {m = tb.buff} (Only-below {m = tb.buff} 0 tb.tail_offset o l) 0 tb.tail_offset ys
        (omega arith) (omega arith) d)

-- So does turning back to the start of the ring, where a scan sees that the sender did.
pub wrap-Position :
    (tb : Tbus) (q : ℕ) (ps : List (List ℕ))
    → 0 < tb.head_offset
    → tb.head_offset ≤ tb.tail_offset
    → Ends tb.buff tb.tail_offset tb.size
    → Position tb q ps
    → Position (record tb { tail_offset = 0 }) q ps
wrap-Position tb q ps z f s (ahead h (inl k) c) =
    behind z k tb.tail_offset ps [] (sym (append-nil ps)) c s refl
wrap-Position tb q ps z f s (ahead h (inr k) c) = absurd (omega arith)
wrap-Position tb q ps z f s (behind t h p xs ys e c s' d) = absurd (omega arith)

-- A packet at the tail is one more for every position, once the tail has moved behind it.
pub extend-Position :
    (tb : Tbus) (q hi : ℕ) (ps : List (List ℕ)) (p : List ℕ)
    → IsFree tb tb.tail_offset hi
    → Chain tb.buff tb.tail_offset hi (p ∷ [])
    → Position tb q ps
    → Position (record tb { tail_offset = hi }) q (ps ++ p ∷ [])
extend-Position tb q hi ps p (to_end f l r) n (ahead h k c) =
    ahead (omega (arith, Chain-le tb.buff tb.tail_offset hi (p ∷ []) n)) (inl (omega arith))
      (Chain-append tb.buff q tb.tail_offset hi ps (p ∷ []) c n)
extend-Position tb q hi ps p (to_head f l r) n (ahead h k c) =
    ahead (omega (arith, Chain-le tb.buff tb.tail_offset hi (p ∷ []) n)) (inr (omega arith))
      (Chain-append tb.buff q tb.tail_offset hi ps (p ∷ []) c n)
extend-Position tb q hi ps p (to_end f l r) n (behind t h b xs ys e c s d) = absurd (omega arith)
extend-Position tb q hi ps p (to_head f l r) n (behind t h b xs ys e c s d) =
    behind (omega arith) h b xs (ys ++ p ∷ [])
      (ap (λ zs. zs ++ p ∷ []) e ∙ append_assoc xs ys (p ∷ [])) c s
      (Chain-append tb.buff 0 tb.tail_offset hi ys (p ∷ []) d n)

-- The bytes of the entry `v` are the packet `p`, and not among those that the sender may write.
pub data Held (tb : Tbus) (v : Iovec) (p : List ℕ) : Type 0 where
  low :
      v.base + v.len ≤ tb.tail_offset
      → (tb.head_offset + header_size ≤ v.base) ⊎ (tb.tail_offset < tb.head_offset)
      → slice tb.buff v.base v.len ≡ p
      → Held tb v p
  high :
      tb.tail_offset < tb.head_offset
      → tb.head_offset + header_size ≤ v.base
      → slice tb.buff v.base v.len ≡ p
      → Held tb v p

fill-Held :
    (tb : Tbus) (m : Memory) (lo hi : ℕ) (v : Iovec) (p : List ℕ)
    → IsFree tb lo hi
    → Only lo hi tb.buff m
    → Held tb v p
    → Held (record tb { buff = m }) v p
fill-Held tb m lo hi v p (to_end f l r) o (low h k s) = low h k (
    slice-Agree {m = tb.buff} v.base v.len (Only-below {m = tb.buff} 0 tb.tail_offset o l)
      (omega arith) h
    ∙ s)
fill-Held tb m lo hi v p (to_head f l r) o (low h k s) = low h k (
    slice-Agree {m = tb.buff} v.base v.len (Only-below {m = tb.buff} 0 tb.tail_offset o l)
      (omega arith) h
    ∙ s)
fill-Held tb m lo hi v p (to_end f l r) o (high t h s) = absurd (omega arith)
fill-Held tb m lo hi v p (to_head f l r) o (high t h s) = high t h (
    slice-Agree {m = tb.buff} v.base v.len
      (Only-above {m = tb.buff} hi (v.base + v.len) o (omega arith)) (omega arith) (omega arith)
    ∙ s)

wrap-Held :
    (tb : Tbus) (v : Iovec) (p : List ℕ)
    → 0 < tb.head_offset
    → tb.head_offset ≤ tb.tail_offset
    → Held tb v p
    → Held (record tb { tail_offset = 0 }) v p
wrap-Held tb v p z f (low h (inl k) s) = high z k s
wrap-Held tb v p z f (low h (inr k) s) = absurd (omega arith)
wrap-Held tb v p z f (high t h s) = absurd (omega arith)

extend-Held :
    (tb : Tbus) (v : Iovec) (p : List ℕ) (hi : ℕ)
    → IsFree tb tb.tail_offset hi
    → tb.tail_offset ≤ hi
    → Held tb v p
    → Held (record tb { tail_offset = hi }) v p
extend-Held tb v p hi (to_end f l r) n (low h k s) = low (omega arith) (inl (omega arith)) s
extend-Held tb v p hi (to_head f l r) n (low h k s) = low (omega arith) (inr (omega arith)) s
extend-Held tb v p hi (to_end f l r) n (high t h s) = absurd (omega arith)
extend-Held tb v p hi (to_head f l r) n (high t h s) = high (omega arith) h s

-- What holds of a tbus and is left alone by a write to free bytes and by turning back.
pub record IsStable (P : Tbus → Type 0) : Type 0 where
  pub fill :
      (tb : Tbus) (m : Memory) (lo hi : ℕ)
      → IsFree tb lo hi
      → Only lo hi tb.buff m
      → P tb
      → P (record tb { buff = m })
  pub wrap :
      (tb : Tbus)
      → 0 < tb.head_offset
      → tb.head_offset ≤ tb.tail_offset
      → Ends tb.buff tb.tail_offset tb.size
      → P tb
      → P (record tb { tail_offset = 0 })

-- What `P` becomes when the tail moves behind a new packet `p`.
abbrev pub Extends : (Tbus → Type 0) → List ℕ → (Tbus → Type 0) → Type 0
Extends P p P' =
    (tb : Tbus) (hi : ℕ)
    → IsFree tb tb.tail_offset hi
    → Chain tb.buff tb.tail_offset hi (p ∷ [])
    → P tb
    → P' (record tb { tail_offset = hi })

pub Position-stable : (q : ℕ) (ps : List (List ℕ)) → IsStable (λ tb. Position tb q ps)
Position-stable q ps = record {
  fill = λ tb m lo hi. fill-Position tb m lo hi q ps;
  wrap = λ tb. wrap-Position tb q ps;
}

pub Held-stable : (v : Iovec) (p : List ℕ) → IsStable (λ tb. Held tb v p)
Held-stable v p = record {
  fill = λ tb m lo hi. fill-Held tb m lo hi v p;
  wrap = λ tb z f e. wrap-Held tb v p z f;
}

pub IsStable-pair : (P Q : Tbus → Type 0) → IsStable P → IsStable Q → IsStable (λ tb. P tb × Q tb)
IsStable-pair P Q p q = record {
  fill = λ tb m lo hi f o h. (p.fill tb m lo hi f o h.0, q.fill tb m lo hi f o h.1);
  wrap = λ tb z f e h. (p.wrap tb z f e h.0, q.wrap tb z f e h.1);
}

pub Position-extends :
    (q : ℕ) (ps : List (List ℕ)) (p : List ℕ)
    → Extends (λ tb. Position tb q ps) p (λ tb. Position tb q (ps ++ p ∷ []))
Position-extends q ps p tb hi f n k = extend-Position tb q hi ps p f n k

pub Held-extends :
    (v : Iovec) (old p : List ℕ) → Extends (λ tb. Held tb v old) p (λ tb. Held tb v old)
Held-extends v old p tb hi f n k =
    extend-Held tb v old hi f (Chain-le tb.buff tb.tail_offset hi (p ∷ []) n) k
