-- ===== src/Tbus/Channel/Progress.antt =====
-- What the two sides can count on: a reading with room for it finds all that is held, and a sender
-- that is refused on an empty channel is served once the receiver has been round.
use tsf4g.Prelude.{
  ℕ, ◌+◌, ◌≤◌, ◌≡◌, ◌≢◌, refl, sym, ◌∙◌, ap, subst, ◌⊎◌, inl, inr, List, [], ◌∷◌, ◌++◌, append-nil,
  some, none, arith, length, length-append, take-length, some-injective,
}
use tsf4g.Tbus.{send_begin, Tbus, Reading, Grant, header_size, read_begin, read_end}
use tsf4g.Tbus.Position.{IsBounded, Position, ahead, behind, Position-stable}
use tsf4g.Tbus.Send.{begun, begun-Begun, send_begin_lem}
use tsf4g.Tbus.Read.{read_begin_lem}
use tsf4g.Tbus.Release.{length-packets, packets, resume-Position}
use tsf4g.Tbus.Channel.{Channel, Holds}

append-same-length : (xs ys zs : List (List ℕ)) → xs ≡ ys ++ zs → length xs ≤ length ys → zs ≡ []
append-same-length xs ys [] e h = refl
append-same-length xs ys (z ∷ zs) e h =
    absurd (omega (arith, ap (λ (l : List (List ℕ)). length l) e, length-append ys (z ∷ zs)))

-- A reading with room for all the packets of a channel hands out exactly those.
pub read_all :
    (c : Channel) (ps : List (List ℕ)) (num : ℕ)
    → Holds c ps
    → length ps ≤ num
    → (r : Reading) × (read_begin c.bus num ≡ some r) × (packets c.bus.buff r.iov ≡ ps)
read_all c ps num h l =
    let (r, e, k, n, z) = read_begin_lem c.bus h.bounded num ps h.queue in
    let (rest, split, q) =
      resume-Position c.bus r.head ps r.iov (length r.iov) h.bounded k (omega arith) in
    let split' : ps ≡ packets c.bus.buff r.iov ++ rest =
      subst (λ vs. ps ≡ packets c.bus.buff vs ++ rest) (take-length r.iov) split in
    let nothing =
      append-same-length ps (packets c.bus.buff r.iov) rest split'
        (omega (arith, length-packets c.bus.buff r.iov)) in
    (
      r,
      e,
      sym (
          split'
          ∙ ap (λ zs. packets c.bus.buff r.iov ++ zs) nothing
          ∙ append-nil (packets c.bus.buff r.iov)),
    )

-- On an empty ring, the sender's tail comes to stand where a packet fits, now or after it turned
-- back.
begun-room :
    (tb : Tbus)
    → IsBounded tb
    → tb.packet_size ≤ tb.size
    → (tb.head_offset ≡ tb.tail_offset) ⊎ (tb.tail_offset ≡ 0)
    → ((begun tb).0.packet_size ≡ tb.packet_size)
      × ((begun tb).0.packet_size + (begun tb).0.tail_offset ≤ (begun tb).0.size)
begun-room tb b p e = ground arith

begun-granted :
    (tb : Tbus)
    → IsBounded tb
    → tb.packet_size + tb.tail_offset ≤ tb.size
    → tb.head_offset ≡ tb.tail_offset
    → (begun tb).1.buf ≡ some (tb.tail_offset + header_size)
begun-granted tb b p e = ground arith

Position-nil :
    (tb : Tbus)
    → Position tb tb.head_offset []
    → (tb.head_offset ≡ tb.tail_offset) ⊎ (tb.tail_offset ≡ 0)
Position-nil tb (ahead h k c) = inl c
Position-nil tb (behind t h p [] [] e c s d) = inr (sym d)
Position-nil tb (behind t h p [] (y ∷ ys) e c s d) = cc
Position-nil tb (behind t h p (x ∷ xs) ys e c s d) = cc

abbrev IsServed : Tbus → Type 0
IsServed tb = (t : Tbus) × (g : Grant) × (send_begin tb ≡ some (t, g)) × (g.buf ≢ none)

granted-IsServed : (tb : Tbus) (buf : ℕ) → (begun tb).1.buf ≡ some buf → IsServed tb
granted-IsServed tb buf e =
    ((begun tb).0, (begun tb).1, send_begin_lem tb, λ nothing. cc (sym e ∙ nothing))

round-IsServed :
    (tb : Tbus) (num : ℕ) (r : Reading)
    → IsBounded tb
    → Position tb tb.head_offset []
    → tb.packet_size + tb.tail_offset ≤ tb.size
    → read_begin tb num ≡ some r
    → IsServed (read_end tb r.head)
unfolding read_end
round-IsServed tb num r b k space f =
    let (r', f', k', n, z) = read_begin_lem tb b num [] k in
    let moved : r.head ≡ tb.tail_offset =
      ap (λ x. x.head) (some-injective r r' (sym f ∙ f')) ∙ z refl in
    granted-IsServed (record tb { head_offset = r.head }) (tb.tail_offset + header_size)
      (begun-granted (record tb { head_offset = r.head })
        (omega (arith, b.tail_in, b.packet_header, b.small)) space moved)

-- On an empty channel, after a call of the sender, one round of the receiver is enough: the next
-- call of the sender is granted a buffer.
pub sender_served :
    (c : Channel) (num : ℕ) (tb : Tbus) (g : Grant) (r : Reading)
    → Holds c []
    → c.bus.packet_size ≤ c.bus.size
    → send_begin c.bus ≡ some (tb, g)
    → read_begin tb num ≡ some r
    → (t : Tbus) × (g' : Grant) × (send_begin (read_end tb r.head) ≡ some (t, g')) × (g'.buf ≢ none)
sender_served c num tb g r h p e f =
    let q = c.bus.head_offset in
    let b = begun-Begun c.bus (λ t. Position t q []) (Position-stable q []) h.bounded h.queue in
    let same : (begun c.bus).0 ≡ tb =
      ap (λ o. o.0) (some-injective (begun c.bus) (tb, g) (sym (send_begin_lem c.bus) ∙ e)) in
    let space = begun-room c.bus h.bounded p (Position-nil c.bus h.queue) in
    round-IsServed tb num r (subst IsBounded same b.bounded)
      (subst (λ t. Position t t.head_offset []) same
        (subst (λ x. Position (begun c.bus).0 x []) (sym b.head_kept) b.kept))
      (subst (λ t. t.packet_size + t.tail_offset ≤ t.size) same space.1) f
