-- ===== src/Tbus/Channel/Steps.antt =====
-- Each step of a channel keeps what it holds.
use tsf4g.Prelude.{
  ℕ, ◌+◌, ◌≤◌, ◌<◌, ◌≡◌, sym, ◌∙◌, ap, subst, inl, inr, List, [], ◌∷◌, ◌++◌, Option, some, none,
  arith, Memory, length, slice, take, some-injective,
}
use tsf4g.Tbus.{Tbus, Grant, Reading, header_size, send_begin, send_end, read_begin, read_end}
use tsf4g.Tbus.Position.{
  IsBounded, Position, IsFree, Only, IsStable, Position-stable, Position-extends, Extends,
  IsStable-pair, IsFree-within, IsFree-buff,
}
use tsf4g.Tbus.Send.{begun, begun-Begun, send_begin_lem, Fits}
use tsf4g.Tbus.SendEnd.{send_end-Ended}
use tsf4g.Tbus.Read.{Handed, Handed-stable, Handed-extends, read_begin_lem}
use tsf4g.Tbus.Release.{
  resume, packets, resume-Position, read_end-queue, read_end-IsBounded, read_end-IsFree,
}
use tsf4g.Tbus.Channel.{
  Channel, Label, Step, begin, fill, finish, look, leave, HasGrant, HasLease, Holds, Moves, stays,
  enters, leaves,
}

HasLease-stable : (ps : List (List ℕ)) (l : Option Reading) → IsStable (λ tb. HasLease tb ps l)
HasLease-stable ps none = record { fill = λ tb m lo hi f o h. tt; wrap = λ tb z f e h. tt }
HasLease-stable ps (some r) = Handed-stable r.head ps r.iov

HasLease-extends :
    (ps : List (List ℕ)) (p : List ℕ) (l : Option Reading)
    → Extends (λ tb. HasLease tb ps l) p (λ tb. HasLease tb (ps ++ p ∷ []) l)
HasLease-extends ps p none tb hi f n h = tt
HasLease-extends ps p (some r) tb hi f n h = Handed-extends r.head ps r.iov p tb hi f n h

-- What the sender's calls carry along: the packets behind the head `q`, and the reading lent.
abbrev Carried : ℕ → List (List ℕ) → Option Reading → Tbus → Type 0
Carried q ps l tb = Position tb q ps × HasLease tb ps l

Carried-stable : (q : ℕ) (ps : List (List ℕ)) (l : Option Reading) → IsStable (Carried q ps l)
Carried-stable q ps l =
    IsStable-pair (λ tb. Position tb q ps) (λ tb. HasLease tb ps l) (Position-stable q ps)
      (HasLease-stable ps l)

Carried-extends :
    (q : ℕ) (ps : List (List ℕ)) (p : List ℕ) (l : Option Reading)
    → Extends (Carried q ps l) p (Carried q (ps ++ p ∷ []) l)
Carried-extends q ps p l tb hi f n h =
    (Position-extends q ps p tb hi f n h.0, HasLease-extends ps p l tb hi f n h.1)

pub begin-Holds :
    (c : Channel) (ps : List (List ℕ)) (tb : Tbus) (g : Grant)
    → send_begin c.bus ≡ some (tb, g)
    → Holds c ps
    → Holds (record c { bus = tb; grant = some g }) ps
begin-Holds c ps tb g e h =
    let q = c.bus.head_offset in
    let r =
      begun-Begun c.bus (Carried q ps c.lease) (Carried-stable q ps c.lease) h.bounded
        (h.queue, h.leased) in
    let same : begun c.bus ≡ (tb, g) = some-injective _ _ (sym (send_begin_lem c.bus) ∙ e) in
    subst (λ o. Holds (record c { bus = o.0; grant = some o.1 }) ps) same
      (record {
        bounded = r.bounded;
        queue = subst (λ x. Position (begun c.bus).0 x ps) (sym r.head_kept) r.kept.0;
        granted = r.fits;
        leased = r.kept.1;
      })

-- A grant with a buffer is one of free bytes behind the tail.
pub Fits-some :
    (tb : Tbus) (g : Grant) (buf : ℕ)
    → Fits tb g
    → g.buf ≡ some buf
    → (buf ≡ tb.tail_offset + header_size)
      × IsFree tb tb.tail_offset (tb.tail_offset + header_size + g.room)
Fits-some tb g buf (inl e) h = absurd (none≢some (sym (ap (λ x. x.buf) e) ∙ h))
  where
    none≢some : ◌≡◌ {A = Option ℕ} none (some buf) → ⊥
    none≢some = λ k. cc
Fits-some tb g buf (inr (a, b, f)) h = (some-injective _ _ (sym h ∙ a), f)

IsBounded-buff : (tb : Tbus) (m : Memory) → IsBounded tb → IsBounded (record tb { buff = m })
IsBounded-buff tb m b = omega (arith, b.head_in, b.tail_in, b.packet_header, b.small)

HasGrant-buff :
    (tb : Tbus) (m : Memory) (g : Option Grant)
    → HasGrant tb g
    → HasGrant (record tb { buff = m }) g
HasGrant-buff tb m none h = tt
HasGrant-buff tb m (some g) (inl e) = inl e
HasGrant-buff tb m (some g) (inr (a, b, f)) = inr (a, b, IsFree-buff tb m _ _ f)

HasGrant-read_end :
    (tb : Tbus) (q : ℕ) (ps : List (List ℕ)) (g : Option Grant)
    → IsBounded tb
    → Position tb q ps
    → HasGrant tb g
    → HasGrant (read_end tb q) g
unfolding read_end
HasGrant-read_end tb q ps none b k h = tt
HasGrant-read_end tb q ps (some g) b k (inl e) = inl e
HasGrant-read_end tb q ps (some g) b k (inr (a, s, f)) =
    inr (a, s, read_end-IsFree tb q _ _ ps b k f)

pub fill-Holds :
    (c : Channel) (ps : List (List ℕ)) (g : Grant) (buf : ℕ) (m : Memory)
    → c.grant ≡ some g
    → g.buf ≡ some buf
    → Only buf (buf + g.room) c.bus.buff m
    → Holds c ps
    → Holds (record c { bus = record c.bus { buff = m } }) ps
fill-Holds c ps g buf m e e' o h =
    let fits = subst (HasGrant c.bus) e h.granted in
    let (at, f) = Fits-some c.bus g buf fits e' in
    let tail = c.bus.tail_offset in
    let free =
      IsFree-within c.bus tail (tail + header_size + g.room) buf (buf + g.room) f (omega arith)
        (omega arith) in
    let q = c.bus.head_offset in
    let kept =
      (Carried-stable q ps c.lease).fill c.bus m buf (buf + g.room) free o (h.queue, h.leased) in
    record {
      bounded = IsBounded-buff c.bus m h.bounded;
      queue = kept.0;
      granted = HasGrant-buff c.bus m c.grant h.granted;
      leased = kept.1;
    }

pub finish-Holds :
    (c : Channel) (ps : List (List ℕ)) (g : Grant) (buf len : ℕ)
    → c.grant ≡ some g
    → g.buf ≡ some buf
    → 0 < len
    → len ≤ g.room
    → Holds c ps
    → Holds
        (record c { bus = send_end c.bus len; grant = none })
        (ps ++ slice c.bus.buff buf len ∷ [])
finish-Holds c ps g buf len e e' z l h =
    let fits = subst (HasGrant c.bus) e h.granted in
    let (at, f) = Fits-some c.bus g buf fits e' in
    let q = c.bus.head_offset in
    let p = slice c.bus.buff (c.bus.tail_offset + header_size) len in
    let tail = c.bus.tail_offset in
    let r =
      send_end-Ended (Carried q ps c.lease) (Carried q (ps ++ p ∷ []) c.lease) c.bus len
        (Carried-stable q ps c.lease) (Carried-stable q (ps ++ p ∷ []) c.lease)
        (Carried-extends q ps p c.lease) h.bounded z
        (IsFree-within c.bus tail (tail + header_size + g.room) tail (tail + header_size + len) f
          (omega arith) (omega arith))
        (h.queue, h.leased) in
    rw at (record {
      bounded = r.bounded;
      queue =
          subst (λ x. Position (send_end c.bus len) x (ps ++ p ∷ [])) (sym r.head_kept) r.kept.0;
      granted = tt;
      leased = r.kept.1;
    })

look-Holds :
    (c : Channel) (ps : List (List ℕ)) (num : ℕ) (r : Reading)
    → read_begin c.bus num ≡ some r
    → Holds c ps
    → Holds (record c { lease = some r }) ps
look-Holds c ps num r e h =
    let (r', e', k, n, z) = read_begin_lem c.bus h.bounded num ps h.queue in
    record {
      bounded = h.bounded;
      queue = h.queue;
      granted = h.granted;
      leased = subst (λ x. Handed c.bus x.head ps x.iov) (some-injective _ _ (sym e' ∙ e)) k;
    }

leave-Holds :
    (c : Channel) (ps : List (List ℕ)) (r : Reading) (n : ℕ)
    → c.lease ≡ some r
    → n ≤ length r.iov
    → Holds c ps
    → (rest : List (List ℕ)) × (ps ≡ packets c.bus.buff (take n r.iov) ++ rest)
      × Holds (record c { bus = read_end c.bus (resume r.head r.iov n); lease = none }) rest
leave-Holds c ps r n e l h =
    let lent = subst (HasLease c.bus ps) e h.leased in
    let (rest, same, k) = resume-Position c.bus r.head ps r.iov n h.bounded lent l in
    let q = resume r.head r.iov n in
    (
      rest,
      same,
      record {
        bounded = read_end-IsBounded c.bus q rest h.bounded k;
        queue = read_end-queue c.bus q rest k;
        granted = HasGrant-read_end c.bus q rest c.grant h.bounded k h.granted;
        leased = tt;
      },
    )

-- Every step of the two keeps what the channel holds, as a queue: a packet that is sent enters at
-- the end, those that are taken leave at the front, and nothing else moves one.
pub Step-Holds :
    {c c' : Channel} {l : Label} (ps : List (List ℕ))
    → Step c l c'
    → Holds c ps
    → (qs : List (List ℕ)) × Moves ps l qs × Holds c' qs
Step-Holds {c} ps (begin tb g e) h = (ps, stays, begin-Holds c ps tb g e h)
Step-Holds {c} ps (fill g buf m e e' o) h = (ps, stays, fill-Holds c ps g buf m e e' o h)
Step-Holds {c} ps (finish g buf len p tb e e' z l same moved) h =
    (ps ++ p ∷ [], enters, rw (same, moved) (finish-Holds c ps g buf len e e' z l h))
Step-Holds {c} ps (look num r e) h = (ps, stays, look-Holds c ps num r e h)
Step-Holds {c} ps (leave r n qs tb e l same moved) h =
    let (rest, split, k) = leave-Holds c ps r n e l h in (rest, leaves (rw same split), rw moved k)
