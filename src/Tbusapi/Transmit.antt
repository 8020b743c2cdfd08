-- ===== src/Tbusapi/Transmit.antt =====
-- `tbusapi_send`: what the client encoded enters the ring, or nothing does.
use tsf4g.Prelude.{
  ℕ, ◌+◌, ◌%◌, ◌≤◌, ◌<◌, ◌≡◌, refl, sym, ap, subst, Bool, List, [], ◌∷◌, ◌++◌, Option, some, none,
  arith, length, Bool-cases, take, u32_mod, inl, inr, ltb, if◌then◌else◌, store_bytes,
  store_bytes-ne, slice-store_bytes, ◌⊎◌,
}
use tsf4g.Tbus.{Tbus, Grant, refused, header_size}
use tsf4g.Tbus.Position.{IsBounded, Position, IsFree, Only}
use tsf4g.Tbus.Send.{Fits, begun, send_begin_lem}
use tsf4g.Tbus.SendEnd.{IsFree-le-size}
use tsf4g.Tbus.Channel.{Channel, Holds}
use tsf4g.Tbus.Channel.Steps.{begin-Holds, fill-Holds, finish-Holds}
use tsf4g.Tbusapi.{Tbusapi, Encoder, Encoded, KeepsTo, put, send}

-- What the ring holds after a call that encoded to `e`.
abbrev pub after : List (List ℕ) → Encoded → List (List ℕ)
after ps e = if ltb 0 e.size then ps ++ take e.size e.bytes ∷ [] else ps

abbrev pub sender : Tbus → Option Grant → Channel
sender tb g = record { bus = tb; grant = g; lease = none }

-- The packets held, the sender's part of a channel, and what the call answers.
abbrev pub PutInto : List (List ℕ) → Encoded → Tbus × Bool → Type 0
PutInto ps e r = (t : Option Grant) × Holds (sender r.0 t) (after ps e) × (r.1 ≡ ltb 0 e.size)

put-refused :
    (ps : List (List ℕ)) (e : Encoded) (tb : Tbus)
    → length e.bytes ≤ 0
    → e.size ≤ length e.bytes
    → Holds (sender tb (some refused)) ps
    → PutInto ps e (put e (tb, refused))
unfolding put
put-refused ps e tb l w h =
    let zero_size : e.size ≡ 0 = omega arith in rw zero_size (some refused, h, refl)

put-granted :
    (ps : List (List ℕ)) (e : Encoded) (tb : Tbus) (g : Grant)
    → length e.bytes ≤ g.room
    → e.size ≤ length e.bytes
    → g.buf ≡ some (tb.tail_offset + header_size)
    → IsFree tb tb.tail_offset (tb.tail_offset + header_size + g.room)
    → Holds (sender tb (some g)) ps
    → PutInto ps e (put e (tb, g))
unfolding put
put-granted ps e tb g l w b f h =
    let buf = tb.tail_offset + header_size in
    let m = store_bytes tb.buff buf e.bytes in
    let only : Only buf (buf + g.room) tb.buff m =
      λ i k. store_bytes-ne tb.buff buf e.bytes i (omega arith) in
    let filled = fill-Holds (sender tb (some g)) ps g buf m refl b only h in
    let fits = IsFree-le-size tb h.bounded f in
    let small : e.size % u32_mod ≡ e.size = omega (arith, h.bounded.small) in
    elim (Bool-cases (ltb 0 e.size)) [
      | inl z ↦
          rw (b, small, z)
            (
              none,
              rw (← slice-store_bytes tb.buff buf e.size e.bytes w) (
                  finish-Holds (sender (record tb { buff = m }) (some g)) ps g buf e.size refl b
                    (ground arith) (omega arith) filled),
              refl,
            )
      | inr z ↦ rw (b, small, z) (some g, filled, refl)
    ]

pub put-Holds :
    (ps : List (List ℕ)) (e : Encoded) (tb : Tbus) (g : Grant)
    → length e.bytes ≤ g.room
    → e.size ≤ length e.bytes
    → Fits tb g
    → Holds (sender tb (some g)) ps
    → PutInto ps e (put e (tb, g))
put-Holds ps e tb g l w (inl r) h =
    subst (λ x. PutInto ps e (put e (tb, x))) (sym r)
      (put-refused ps e tb (subst (λ x. length e.bytes ≤ x.room) r l) w
        (subst (λ x. Holds (sender tb (some x)) ps) r h))
put-Holds ps e tb g l w (inr (b, k, f)) h = put-granted ps e tb g l w b f h

begun-packet_size : (tb : Tbus) → (begun tb).0.packet_size ≡ tb.packet_size
begun-packet_size tb = ground arith

Fits-room :
    (tb : Tbus) (g : Grant) → Fits tb g → (g.room ≡ 0) ⊎ (tb.packet_size ≤ g.room + header_size)
Fits-room tb g (inl e) = inl (ap (λ x. x.room) e)
Fits-room tb g (inr (b, l, f)) = inr l

Fits-small : (tb : Tbus) (g : Grant) → IsBounded tb → Fits tb g → g.room < u32_mod
Fits-small tb g b (inl e) = omega (arith, ap (λ (x : Grant). x.room) e)
Fits-small tb g b (inr (e, l, f)) = omega (arith, b.small, IsFree-le-size tb b f)

-- A call with the room that the ring grants.
pub send-begun :
    {S D : Type 0} (encode : Encoder D) (self : Tbusapi S) (d : D) (ps : List (List ℕ))
    → KeepsTo encode
    → IsBounded self.otb
    → Position self.otb self.otb.head_offset ps
    → let room = (begun self.otb).1.room in
      (tb : Tbus) × ((room ≡ 0) ⊎ (self.otb.packet_size ≤ room + header_size))
      × (room < u32_mod)
      × (send encode self d ≡ some (record self { otb = tb }, ltb 0 (encode d room).size))
      × IsBounded tb
      × Position tb tb.head_offset (after ps (encode d room))
unfolding send
send-begun encode self d ps keeps b q =
    let o = begun self.otb in
    let h : Holds (sender self.otb none) ps = record {
      bounded = b;
      queue = q;
      granted = tt;
      leased = tt;
    } in
    let h' = begin-Holds (sender self.otb none) ps o.0 o.1 (send_begin_lem self.otb) h in
    let (t, k, e) =
      put-Holds ps (encode d o.1.room) o.0 o.1 (keeps.within d o.1.room) (keeps.wrote d o.1.room)
        h'.granted h' in
    let wide =
      subst (λ (x : ℕ). (o.1.room ≡ 0) ⊎ (x ≤ o.1.room + header_size)) (begun-packet_size self.otb)
        (Fits-room o.0 o.1 h'.granted) in
    (
      (put (encode d o.1.room) o).0,
      wide,
      Fits-small o.0 o.1 h'.bounded h'.granted,
      rw (send_begin_lem self.otb, send)
          (ap (λ a. some (record self { otb = (put (encode d o.1.room) o).0 }, a)) e),
      k.bounded,
      k.queue,
    )

-- `tbusapi_send` encodes the client's data into what `tbus_send_begin` grants it: nothing, or room for a
-- packet of the full size, less than 2^32. If that gave any
-- bytes, they are the next packet of the ring and the call answers true; if none, the ring holds
-- what it held, and the call answers false.
pub send_lem :
    {S D : Type 0} (encode : Encoder D) (self : Tbusapi S) (d : D) (ps : List (List ℕ))
    → KeepsTo encode
    → IsBounded self.otb
    → Position self.otb self.otb.head_offset ps
    → (room : ℕ) × (tb : Tbus) × ((room ≡ 0) ⊎ (self.otb.packet_size ≤ room + header_size))
      × (room < u32_mod)
      × (send encode self d ≡ some (record self { otb = tb }, ltb 0 (encode d room).size))
      × IsBounded tb
      × Position tb tb.head_offset (after ps (encode d room))
send_lem encode self d ps keeps b q =
    let (tb, wide, small, e, bounded, queue) = send-begun encode self d ps keeps b q in
    ((begun self.otb).1.room, tb, wide, small, e, bounded, queue)
