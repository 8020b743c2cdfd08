-- ===== src/Tbusapi.antt =====
-- tbusapi/source/tbusapi.c and tbusapi/include/tbusapi.h: packets in and out of a pair of tbus.
-- The callbacks of the client act on a state `S` of its own.
pub mod Deliver
pub mod Process
pub mod Transmit
use Prim.Native.Nat.{ℕ, ◌+◌, ◌%◌, ◌≤◌}
use mathlib.Core.Bool.{Bool, true, false}
use mathlib.Core.Option.{Option, none, some}
use mathlib.Core.List.{List, [], ◌∷◌}
use tsf4g.Prelude.{
  Memory, slice, store_bytes, length, take, u16_mod, u32_mod, ltb, ◌==◌, if◌then◌else◌,
}
use tsf4g.Errors.{ErrorCode, noerror, would_block}
use tsf4g.Tbus.{Tbus, Iovec, Grant, Reading, send_begin, send_end, read_begin, read_end}
use tsf4g.Tbus.Release.{resume}

-- `TBUSAPI_IOV_NUM`
abbrev pub max_iov_num : ℕ
max_iov_num = 65535

-- `tbusapi_on_recv_func`: whether the packet was taken.
abbrev pub OnRecv : Type 0 → Type 0
OnRecv S = S → List ℕ → Bool × S

-- `tbusapi_on_recviov_func`: how many of the entries were taken.
abbrev pub OnRecviov : Type 0 → Type 0
OnRecviov S = S → Memory → List Iovec → ℕ × S

-- The loop of `tbusapi_on_recviov` over the entries from the `i`th on.
unfoldable pub recv_from : {S : Type 0} → Option (OnRecv S) → S → Memory → List Iovec → ℕ → ℕ × S
recv_from on_recv s m [] i = (i, s)
recv_from none s m (v ∷ vs) i = recv_from none s m vs (i + 1)
recv_from (some f) s m (v ∷ vs) i =
    let (more, s') = f s (slice m v.base v.len) in
    elim more [ true ↦ recv_from (some f) s' m vs (i + 1) | false ↦ (i, s') ]

abbrev pub recviov : {S : Type 0} → Option (OnRecv S) → OnRecviov S
recviov on_recv s m vs = recv_from on_recv s m vs 0

-- `tbusapi_s`, less the buffer of entries, which each call fills anew; `tbusapi_init`.
pub record Tbusapi (S : Type 0) : Type 0 where
  pub itb : Tbus
  pub otb : Tbus
  pub on_recviov : Option (OnRecviov S)
  pub iov_num : ℕ

unfoldable pub init : {S : Type 0} → Tbus → Tbus → Option (OnRecv S) → Tbusapi S
init itb otb on_recv = record {
  itb = itb;
  otb = otb;
  on_recviov = some (recviov on_recv);
  iov_num = max_iov_num;
}

-- What a call of `tbusapi_process` leaves, with its result and the client's state.
pub record Processed (S : Type 0) : Type 0 where
  pub code : ErrorCode
  pub bus : Tbus
  pub client : S

-- `(uint16_t)iov_num` of the entries are passed on.
abbrev pub passed : List Iovec → List Iovec
passed vs = take (length vs % u16_mod) vs

-- The callback, and the offset that the reading is ended at.
unfoldable pub dispatch : {S : Type 0} → Option (OnRecviov S) → S → Tbus → Reading → Processed S
dispatch none s tb r = record { code = noerror; bus = read_end tb r.head; client = s }
dispatch (some f) s tb r =
    let (pos, s') = f s tb.buff (passed r.iov) in
    record {
      code = if pos == 0 then would_block else noerror;
      bus = read_end tb (resume r.head r.iov pos);
      client = s';
    }

unfoldable pub process_reading :
    {S : Type 0} → Option (OnRecviov S) → S → Tbus → Reading → Processed S
unfolding dispatch
process_reading f s tb r =
    if length r.iov == 0
    then (if r.head == tb.head_offset
        then record { code = would_block; bus = tb; client = s }
        else record { code = noerror; bus = read_end tb r.head; client = s })
    else dispatch f s tb r

-- `tbusapi_process`; `none` if a scan did not end.
unfoldable pub process : {S : Type 0} → Tbusapi S → S → Option (Tbusapi S × ErrorCode × S)
unfolding process_reading
process self s = elim (read_begin self.itb self.iov_num) [
  | none ↦ none
  | some r ↦
      let p = process_reading self.on_recviov s self.itb r in
      some (record self { itb = p.bus }, p.code, p.client)
]

-- What a `tlibc_encode_t` does with a buffer: the bytes that it writes there, and the size that it
-- returns.
pub record Encoded : Type 0 where
  pub bytes : List ℕ
  pub size : ℕ

abbrev pub Encoder : Type 0 → Type 0
Encoder D = D → ℕ → Encoded

-- A client's encoder keeps to the room that it is given, and returns no more than it wrote.
pub record KeepsTo {D : Type 0} (encode : Encoder D) : Type 0 where
  pub within : (d : D) (room : ℕ) → length (encode d room).bytes ≤ room
  pub wrote : (d : D) (room : ℕ) → (encode d room).size ≤ length (encode d room).bytes

-- A write through the null pointer, which a grant of no room comes with, is left out.
abbrev pub write_buf : Memory → Option ℕ → List ℕ → Memory
write_buf m none xs = m
write_buf m (some buf) xs = store_bytes m buf xs

-- The encoder's bytes are written, and sent if there are any.
unfoldable pub put : Encoded → Tbus × Grant → Tbus × Bool
put e (tb, g) =
    let written = record tb { buff = write_buf tb.buff g.buf e.bytes } in
    let code_size = e.size % u32_mod in
    if ltb 0 code_size then (send_end written code_size, true) else (written, false)

-- `tbusapi_send`
unfoldable pub send : {S D : Type 0} → Encoder D → Tbusapi S → D → Option (Tbusapi S × Bool)
unfolding put
send encode self d = elim (send_begin self.otb) [
  | none ↦ none
  | some begun ↦
      let (otb, done) = put (encode d begun.1.room) begun in some (record self { otb = otb }, done)
]
