-- ===== src/Tbus.antt =====
-- tbus/source/tbus.c and tbus/include/tbus.h: a ring of packets in shared memory, between one
-- sender and one receiver. An offset of the model is an offset from `tb->buff`; a pointer into the
-- ring is its offset, and the null pointer is `none`.
pub mod Chain
pub mod Position
pub mod Send
pub mod SendEnd
pub mod Peek
pub mod Read
pub mod Release
pub mod Channel
use Prim.Native.Nat.{ℕ, zero, suc, ◌+◌, ◌-◌, ◌*◌, ◌%◌}
use mathlib.Core.Bool.{not, ◌&&◌}
use mathlib.Core.Option.{Option, none, some}
use mathlib.Core.List.{List, [], ◌∷◌, ◌++◌}
use tsf4g.Prelude.{
  Memory, write_u32, read_u32, add32, sub32, u32_mod, u64_mod, length, ltb, leb, ◌==◌,
  if◌then◌else◌,
}

-- `tbus_cmd_t`
abbrev pub cmd_package : ℕ
cmd_package = 1

abbrev pub cmd_ignore : ℕ
cmd_ignore = 2

-- `sizeof(tbus_header_t)`: the command, then the size.
abbrev pub header_size : ℕ
header_size = 8

-- `tbus_t`
pub record Tbus : Type 0 where
  pub head_offset : ℕ
  pub tail_offset : ℕ
  pub packet_size : ℕ
  pub size : ℕ
  pub buff : Memory

abbrev pub header_cmd : Memory → ℕ → ℕ
header_cmd m o = read_u32 m o

abbrev pub header_len : Memory → ℕ → ℕ
header_len m o = read_u32 m (o + 4)

-- The fields of the `tbus_t` at a block of shared memory whose buffer holds `buff`.
unfoldable pub init : Memory → ℕ → ℕ → Tbus
init buff size number =
    let packet_size = ((size + header_size) % u64_mod) % u32_mod in
    record {
      head_offset = 0;
      tail_offset = 0;
      packet_size = packet_size;
      size = ((packet_size * number) % u64_mod) % u32_mod;
      buff = buff;
    }

-- What `tbus_send_begin` returns, and what it puts in `*buf` if it does.
pub record Grant : Type 0 where
  pub room : ℕ
  pub buf : Option ℕ

abbrev pub refused : Grant
refused = record { room = 0; buf = none }

abbrev pub granted : ℕ → ℕ → Grant
granted tail write_size = record {
  room = sub32 write_size header_size;
  buf = some (tail + header_size);
}

-- The calls that `tbus_send_begin` makes of itself are bounded by the fuel.
unfoldable pub send_begin_fuel : ℕ → Tbus → Option (Tbus × Grant)
send_begin_fuel zero tb = none
send_begin_fuel (suc fuel) tb =
    let wrapped = send_begin_fuel fuel (record tb { tail_offset = 0 }) in
    let marked = record tb { buff = write_u32 tb.buff tb.tail_offset cmd_ignore } in
    let marked_wrapped = send_begin_fuel fuel (record marked { tail_offset = 0 }) in
    let to_end = sub32 tb.size tb.tail_offset in
    let to_head = sub32 (sub32 tb.head_offset tb.tail_offset) 1 in
    if leb tb.head_offset tb.tail_offset
    then (if ltb to_end header_size
        then (if tb.head_offset == 0 then some (tb, refused) else wrapped)
        else (if ltb to_end tb.packet_size
            then (if tb.head_offset == 0 then some (marked, refused) else marked_wrapped)
            else some (tb, granted tb.tail_offset to_end)))
    else (if ltb to_head tb.packet_size
        then some (tb, refused)
        else some (tb, granted tb.tail_offset to_head))

-- Two calls are enough: the second has `head_offset > tail_offset`.
unfoldable pub send_begin : Tbus → Option (Tbus × Grant)
send_begin tb = send_begin_fuel 2 tb

unfoldable pub send_end : Tbus → ℕ → Tbus
send_end tb len =
    let tail = tb.tail_offset in
    let next = add32 tail (add32 header_size len) in
    if len == 0 then tb else (record tb {
      buff = write_u32 (write_u32 tb.buff tail cmd_package) (tail + 4) len;
      tail_offset = if leb tb.size next && not (tb.head_offset == 0) then 0 else next;
    })

-- `struct iovec`
pub record Iovec : Type 0 where
  pub base : ℕ
  pub len : ℕ

-- What `peek` returns (`none` for the null pointer), with the entries that it wrote.
pub record Peeked : Type 0 where
  pub ret : Option ℕ
  pub iov : List Iovec

abbrev stop : Option ℕ → Option Peeked
stop r = some (record { ret = r; iov = [] })

abbrev entry : Iovec → Option Peeked → Option Peeked
entry v none = none
entry v (some p) = some (record { ret = p.ret; iov = v ∷ p.iov })

-- The loop of `peek` at `ch`, with room for `num` more entries; `none` if the fuel runs out.
unfoldable pub peek : ℕ → Memory → ℕ → ℕ → ℕ → Option Peeked
peek zero m ch limit num = none
peek (suc fuel) m ch limit num =
    let next = ch + (header_size + header_len m ch) in
    let rest =
      entry (record { base = ch + header_size; len = header_len m ch })
        (peek fuel m next limit (num - 1)) in
    if ltb ch limit
    then (if ltb (limit - ch) header_size
        then stop (some limit)
        else if header_cmd m ch == cmd_ignore
        then stop (some limit)
        else if not (header_cmd m ch == cmd_package)
        then stop none
        else if ltb (limit - ch) (header_size + header_len m ch)
        then stop none
        else if num == 0
        then stop (some ch)
        else rest)
    else stop (some ch)

-- The fuel that a scan from `ch` gets: a round takes `ch` at least a header further.
abbrev pub scan : Memory → ℕ → ℕ → ℕ → Option Peeked
scan m ch limit num = peek (suc (limit - ch)) m ch limit num

-- What `tbus_read_begin` returns, and the entries: `*iov_num` is their number.
pub record Reading : Type 0 where
  pub head : ℕ
  pub iov : List Iovec

-- The null pointer drops all that was read.
unfoldable pub read_lower : Tbus → List Iovec → Peeked → Reading
read_lower tb seg0 p = elim p.ret [
  | none ↦ record { head = tb.tail_offset; iov = [] }
  | some curr ↦ record { head = curr % u32_mod; iov = seg0 ++ p.iov }
]

unfoldable pub read_upper : Tbus → ℕ → Peeked → Option Reading
unfolding read_lower
read_upper tb num p = elim p.ret [
  | none ↦ some (record { head = tb.tail_offset; iov = [] })
  | some curr ↦
      if curr == tb.size
      then (elim (scan tb.buff 0 tb.tail_offset (num - length p.iov)) [
        | none ↦ none
        | some q ↦ some (read_lower tb p.iov q)
      ])
      else some (record { head = curr % u32_mod; iov = p.iov })
]

unfoldable pub read_begin : Tbus → ℕ → Option Reading
unfolding read_lower read_upper
read_begin tb num =
    if leb tb.head_offset tb.tail_offset
    then (elim (scan tb.buff tb.head_offset tb.tail_offset num) [
      | none ↦ none
      | some p ↦ some (read_lower tb [] p)
    ])
    else (elim (scan tb.buff tb.head_offset tb.size num) [
      | none ↦ none
      | some p ↦ read_upper tb num p
    ])

unfoldable pub read_end : Tbus → ℕ → Tbus
read_end tb head = record tb { head_offset = head }

-- `tbus_packet2offset`
unfoldable pub packet2offset : ℕ → ℕ
packet2offset ptr = (ptr + u64_mod - header_size) % u64_mod % u32_mod
