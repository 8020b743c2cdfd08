-- ===== src/Tbus/Send.antt =====
-- `tbus_send_begin`: it returns, and what it grants.
use tsf4g.Prelude.{
  ℕ, ◌+◌, ◌≤◌, ◌<◌, ◌≡◌, refl, ◌⊎◌, inl, inr, some, Bool-cases, arith, write_u32, sub32,
  write_u32-ne, read-write_self, ltb, leb, ◌==◌, if◌then◌else◌,
}
use tsf4g.Tbus.{Tbus, Grant, refused, granted, cmd_ignore, header_size, send_begin, send_begin_fuel}
use tsf4g.Tbus.Position.{IsStable, IsBounded, Ends, IsFree, to_end, to_head, Only}

abbrev pub mark : Tbus → Tbus
mark tb = record tb { buff = write_u32 tb.buff tb.tail_offset cmd_ignore }

abbrev pub wrap : Tbus → Tbus
wrap tb = record tb { tail_offset = 0 }

-- What the sender does where the free bytes end at the head.
abbrev before_head : Tbus → Tbus × Grant
before_head tb =
    let write_size = sub32 (sub32 tb.head_offset tb.tail_offset) 1 in
    if ltb write_size tb.packet_size then (tb, refused) else (tb, granted tb.tail_offset write_size)

-- `tbus_send_begin` with its call of itself written out.
abbrev pub begun : Tbus → Tbus × Grant
begun tb =
    let write_size = sub32 tb.size tb.tail_offset in
    if leb tb.head_offset tb.tail_offset
    then (if ltb write_size header_size
        then (if tb.head_offset == 0 then (tb, refused) else before_head (wrap tb))
        else (if ltb write_size tb.packet_size
            then (if tb.head_offset == 0 then (mark tb, refused) else before_head (wrap (mark tb)))
            else (tb, granted tb.tail_offset write_size)))
    else before_head tb

-- `tbus_send_begin` always returns: it calls itself once at most.
pub send_begin_lem : (tb : Tbus) → send_begin tb ≡ some (begun tb)
unfolding send_begin send_begin_fuel
send_begin_lem tb = ground arith

-- What is granted is free, behind the header that `tbus_send_end` will write.
abbrev pub Fits : Tbus → Grant → Type 0
Fits tb g =
    (g ≡ refused)
    ⊎ ((g.buf ≡ some (tb.tail_offset + header_size))
        × (tb.packet_size ≤ g.room + header_size)
        × IsFree tb tb.tail_offset (tb.tail_offset + header_size + g.room))

pub record Begun (head size : ℕ) (P : Tbus → Type 0) (r : Tbus × Grant) : Type 0 where
  pub bounded : IsBounded r.0
  pub fits : Fits r.0 r.1
  pub kept : P r.0
  pub head_kept : r.0.head_offset ≡ head
  pub size_kept : r.0.size ≡ size

before_head-Begun :
    (tb : Tbus) (P : Tbus → Type 0) (stable : IsStable P)
    → tb.tail_offset < tb.head_offset
    → IsBounded tb
    → P tb
    → Begun tb.head_offset tb.size P (before_head tb)
before_head-Begun tb P stable h b k =
    elim (Bool-cases (ltb (sub32 (sub32 tb.head_offset tb.tail_offset) 1) tb.packet_size)) [
      | inl e ↦
          rw e
            (record { bounded = b; fits = inl refl; kept = k; head_kept = refl; size_kept = refl })
      | inr e ↦ rw e (record {
        bounded = b;
        fits = inr (refl, ground arith, to_head h (omega arith) (ground arith));
        kept = k;
        head_kept = refl;
        size_kept = refl;
      })
    ]

mark-Only : (tb : Tbus) → Only tb.tail_offset (tb.tail_offset + 4) tb.buff (mark tb).buff
mark-Only tb i h = write_u32-ne tb.buff tb.tail_offset cmd_ignore i h

module _ (tb : Tbus) (P : Tbus → Type 0) (stable : IsStable P) (b : IsBounded tb) (k : P tb) where
  mark-Begun :
      tb.head_offset ≤ tb.tail_offset
      → tb.tail_offset + header_size ≤ tb.size
      → Begun tb.head_offset tb.size P (mark tb, refused)
  mark-Begun h e = record {
    bounded = record {
      head_in = b.head_in;
      tail_in = b.tail_in;
      packet_header = b.packet_header;
      small = b.small;
    };
    fits = inl refl;
    kept =
        stable.fill tb (mark tb).buff tb.tail_offset (tb.tail_offset + 4)
          (to_end h (omega arith) (omega arith)) (mark-Only tb) k;
    head_kept = refl;
    size_kept = refl;
  }

  wrap-Begun :
      0 < tb.head_offset
      → tb.head_offset ≤ tb.tail_offset
      → Ends tb.buff tb.tail_offset tb.size
      → Begun tb.head_offset tb.size P (before_head (wrap tb))
  wrap-Begun z h e =
      before_head-Begun (wrap tb) P stable z
        (record {
          head_in = b.head_in;
          tail_in = omega arith;
          packet_header = b.packet_header;
          small = b.small;
        })
        (stable.wrap tb z h e k)

-- `tbus_send_begin` leaves the packets of every position and the head, and grants free bytes.
pub begun-Begun :
    (tb : Tbus) (P : Tbus → Type 0) (stable : IsStable P)
    → IsBounded tb
    → P tb
    → Begun tb.head_offset tb.size P (begun tb)
begun-Begun tb P stable b k = elim (Bool-cases (leb tb.head_offset tb.tail_offset)) [
  | inr e ↦ rw e (before_head-Begun tb P stable (ground arith) b k)
  | inl e ↦ elim (Bool-cases (ltb (sub32 tb.size tb.tail_offset) header_size)) [
    | inl f ↦ elim (Bool-cases (tb.head_offset == 0)) [
      | inl z ↦
          rw (e, f, z)
            (record { bounded = b; fits = inl refl; kept = k; head_kept = refl; size_kept = refl })
      | inr z ↦
          rw (e, f, z)
            (wrap-Begun tb P stable b k (ground arith) (ground arith)
              (b.tail_in, inl (ground arith)))
    ]
    | inr f ↦
        let m = mark-Begun tb P stable b k (ground arith) (ground arith) in
        elim (Bool-cases (ltb (sub32 tb.size tb.tail_offset) tb.packet_size)) [
          | inl g ↦ elim (Bool-cases (tb.head_offset == 0)) [
            | inl z ↦ rw (e, f, g, z) m
            | inr z ↦
                rw (e, f, g, z)
                  (wrap-Begun (mark tb) P stable m.bounded m.kept (ground arith) (ground arith) (
                    b.tail_in,
                    inr (
                      ground arith,
                      read-write_self tb.buff tb.tail_offset cmd_ignore (omega arith),
                    ),
                  ))
          ]
          | inr g ↦
              rw (e, f, g)
                (record {
                  bounded = b;
                  fits =
                      inr (refl, ground arith, to_end (ground arith) (omega arith) (ground arith));
                  kept = k;
                  head_kept = refl;
                  size_kept = refl;
                })
        ]
  ]
]
