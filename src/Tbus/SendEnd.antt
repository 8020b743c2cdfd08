-- ===== src/Tbus/SendEnd.antt =====
-- `tbus_send_end`: the packet that it adds.
use tsf4g.Prelude.{
  not, ◌&&◌, ℕ, ◌+◌, ◌≤◌, ◌<◌, ◌≡◌, refl, ◌∙◌, inl, inr, [], ◌∷◌, Bool-cases, arith, Memory,
  write_u32, slice, u32_mod, write_u32-ne, read-write_self, read_u32-Agree, length-slice,
  slice-Agree, leb, ◌==◌, if◌then◌else◌,
}
use tsf4g.Tbus.{Tbus, cmd_package, header_size, header_cmd, send_end}
use tsf4g.Tbus.Send.{wrap}
use tsf4g.Tbus.Chain.{Chain}
use tsf4g.Tbus.Position.{
  IsFree-within, IsFree-buff, IsStable, Extends, IsBounded, IsFree, to_end, to_head, Only,
}

-- The bytes of the header are written, and nothing else.
headed : Memory → ℕ → ℕ → Memory
headed m tail len = write_u32 (write_u32 m tail cmd_package) (tail + 4) len

headed-Only : (m : Memory) (tail len : ℕ) → Only tail (tail + header_size) m (headed m tail len)
unfolding headed
headed-Only m tail len i h = ground (
  arith,
  write_u32-ne m tail cmd_package i,
  write_u32-ne (write_u32 m tail cmd_package) (tail + 4) len i,
)

headed-cmd : (m : Memory) (tail len : ℕ) → header_cmd (headed m tail len) tail ≡ cmd_package
unfolding headed
headed-cmd m tail len =
    read_u32-Agree {lo = tail} {hi = tail + 4} {m = write_u32 m tail cmd_package} tail
      (λ i l h. write_u32-ne (write_u32 m tail cmd_package) (tail + 4) len i (inl h)) (omega arith)
      (omega arith)
    ∙ read-write_self m tail cmd_package (omega arith)

headed-Chain :
    (m : Memory) (tail len : ℕ)
    → len < u32_mod
    → Chain
        (headed m tail len)
        tail
        (tail + header_size + len)
        (slice m (tail + header_size) len ∷ [])
unfolding headed
headed-Chain m tail len h = (
  headed-cmd m tail len,
  rw length-slice (read-write_self (write_u32 m tail cmd_package) (tail + 4) len h),
  rw length-slice (
      slice-Agree {lo = tail + header_size} {hi = tail + header_size + len} {m = m}
        (tail + header_size) len (λ i l r. headed-Only m tail len i (inr l)) (omega arith)
        (omega arith)),
  rw length-slice (omega arith),
)

-- The ring once the header is written and the tail moved, before the test for the end.
abbrev advanced : Tbus → ℕ → Tbus
advanced tb len = record tb {
  buff = headed tb.buff tb.tail_offset len;
  tail_offset = tb.tail_offset + header_size + len;
}

-- What was there is carried along by the header's bytes and by the move of the tail.
advanced_keeps :
    (P P' : Tbus → Type 0) (tb : Tbus) (len : ℕ)
    → IsStable P
    → Extends P (slice tb.buff (tb.tail_offset + header_size) len) P'
    → len < u32_mod
    → IsFree tb tb.tail_offset (tb.tail_offset + header_size + len)
    → P tb
    → P' (advanced tb len)
advanced_keeps P P' tb len stable extends h f k =
    let tail = tb.tail_offset in
    let m = headed tb.buff tail len in
    extends (record tb { buff = m }) (tail + header_size + len)
      (IsFree-buff tb m tail (tail + header_size + len) f) (headed-Chain tb.buff tail len h)
      (stable.fill tb m tail (tail + header_size)
        (IsFree-within tb tail (tail + header_size + len) tail (tail + header_size) f (omega arith)
          (omega arith))
        (headed-Only tb.buff tail len) k)

pub record Ended (head size : ℕ) (P : Tbus → Type 0) (r : Tbus) : Type 0 where
  pub bounded : IsBounded r
  pub kept : P r
  pub head_kept : r.head_offset ≡ head
  pub size_kept : r.size ≡ size

pub IsFree-le-size : (tb : Tbus) {lo hi : ℕ} → IsBounded tb → IsFree tb lo hi → hi ≤ tb.size
IsFree-le-size tb b (to_end a l r) = r
IsFree-le-size tb b (to_head a l r) = omega arith

-- Only where the free bytes end at the end of the ring can a packet reach it.
IsFree-end :
    (tb : Tbus) {lo hi : ℕ}
    → IsBounded tb
    → IsFree tb lo hi
    → tb.size ≤ hi
    → tb.head_offset ≤ tb.tail_offset
IsFree-end tb b (to_end a l r) h = a
IsFree-end tb b (to_head a l r) h = absurd (omega arith)

abbrev ended : Tbus → ℕ → Tbus
ended tb len =
    if leb tb.size (tb.tail_offset + header_size + len) && not (tb.head_offset == 0)
    then wrap (advanced tb len)
    else advanced tb len

send_end_lem :
    (tb : Tbus) (len : ℕ)
    → 0 < len
    → tb.tail_offset + header_size + len < u32_mod
    → send_end tb len ≡ ended tb len
unfolding send_end headed
send_end_lem tb len z h = ground arith

-- `tbus_send_end` turns what holds of the ring into what the new packet makes of it.
pub send_end-Ended :
    (P P' : Tbus → Type 0) (tb : Tbus) (len : ℕ)
    → IsStable P
    → IsStable P'
    → Extends P (slice tb.buff (tb.tail_offset + header_size) len) P'
    → IsBounded tb
    → 0 < len
    → IsFree tb tb.tail_offset (tb.tail_offset + header_size + len)
    → P tb
    → Ended tb.head_offset tb.size P' (send_end tb len)
send_end-Ended P P' tb len stable stable' extends b z f k =
    let fits = IsFree-le-size tb b f in
    let small = b.small in
    let more = advanced_keeps P P' tb len stable extends (omega arith) f k in
    rw (send_end_lem tb len z (omega arith))
      (elim (Bool-cases
        (leb tb.size (tb.tail_offset + header_size + len) && not (tb.head_offset == 0))) [
          | inl e ↦
              let low = IsFree-end tb b f (ground arith) in
              rw e (record {
                bounded = record {
                  head_in = b.head_in;
                  tail_in = omega arith;
                  packet_header = b.packet_header;
                  small = b.small;
                };
                kept =
                    stable'.wrap (advanced tb len) (ground arith) (omega arith)
                      (fits, inl (ground arith)) more;
                head_kept = refl;
                size_kept = refl;
              })
          | inr e ↦ rw e (record {
            bounded = record {
              head_in = b.head_in;
              tail_in = fits;
              packet_header = b.packet_header;
              small = b.small;
            };
            kept = more;
            head_kept = refl;
            size_kept = refl;
          })
        ])
