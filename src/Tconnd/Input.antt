-- ===== src/Tconnd/Input.antt =====
-- tconnd/source/tconnd_tbus.c, `process_input_tbus`: the messages of the server.
pub mod Writable
pub mod Messages
pub mod Flushing
use Prim.Native.Nat.{ℕ, ◌+◌}
use mathlib.Core.Bool.{Bool, true, false, not, ◌&&◌}
use mathlib.Core.Option.{Option, none, some}
use mathlib.Core.List.{List, [], ◌∷◌, ◌++◌}
use tsf4g.Prelude.{length, take, drop, ltb, ◌==◌, if◌then◌else◌, Memory, slice}
use tsf4g.Errors.{ErrorCode, noerror, would_block, is_close}
use tsf4g.Mempool.{ptr_test, unlink_id}
use tsf4g.Sip.{Cid, cmd_send, half, decode_rsp, rsp_size}
use tsf4g.Tbus.{Tbus, Iovec, Reading, read_begin, read_end}
use tsf4g.Tconnd.{Socket, Kernel, Tconnd, set_socket}
use tsf4g.Tconnd.Sockets.{push_pkg, flush, delete}

-- `TCONND_IOV_NUM`
abbrev pub iov_num : ℕ
iov_num = 65535

-- The state with the sockets in `writable_list`.
pub record Input (W : Type 0) : Type 0 where
  pub tconnd : Tconnd W
  pub writable_list : List ℕ

abbrev pub set_writable : {W : Type 0} → Tconnd W → ℕ → Bool → Tconnd W
set_writable t id b = set_socket t id (record (t.sockets id) { writable = b })

module _ {W : Type 0} (kernel : Kernel W) where
  -- The socket of an operation that answered to close it.
  unfoldable pub close_socket : Input W → ℕ → Input W
  close_socket s id =
      if (s.tconnd.sockets id).writable
      then record {
        tconnd = delete kernel (set_writable s.tconnd id false) id;
        writable_list = unlink_id id s.writable_list;
      }
      else record { tconnd = delete kernel s.tconnd id; writable_list = s.writable_list }

  unfoldable pub keep_socket : Input W → ℕ → Input W
  keep_socket s id = if (s.tconnd.sockets id).writable then s else record {
    tconnd = set_writable s.tconnd id true;
    writable_list = s.writable_list ++ id ∷ [];
  }

  unfoldable pub pushed : List ℕ → ErrorCode × Tconnd W → ℕ → Input W
  unfolding close_socket keep_socket
  pushed w r id =
      if is_close r.0
      then close_socket (record { tconnd = r.1; writable_list = w }) id
      else keep_socket (record { tconnd = r.1; writable_list = w }) id

  -- A round of the loop over the ids of a message. There are fewer than SIP_BROADCAST_NUM + 1.
  unfoldable pub each_cid : ℕ → List ℕ → Input W → Cid → Input W
  unfolding pushed
  each_cid cmd body s c =
      let p = s.tconnd.socket_pool in
      if not (ltb c.id p.unit_num)
      then s
      else if not (ptr_test p c.id c.sn)
      then s
      else pushed s.writable_list (push_pkg kernel s.tconnd c.id cmd body) c.id

  unfoldable pub all_cids : ℕ → List ℕ → Input W → List Cid → Input W
  all_cids cmd body s [] = s
  all_cids cmd body s (c ∷ cs) = all_cids cmd body (each_cid cmd body s c) cs

  -- The loop over the messages, which ends at one that is shorter than it says. A message's bytes
  -- that are not there count as 0: then it is too short.
  unfoldable pub all_messages : Input W → List (List ℕ) → Input W
  all_messages s [] = s
  all_messages s (m ∷ ms) =
      let head_size = rsp_size (half (drop 8 m)) in
      let head = decode_rsp m in
      let sends = head.cmd == cmd_send in
      let body = if sends then take head.size (drop head_size m) else [] in
      let rest = all_messages (all_cids head.cmd body s head.cid_list) ms in
      if ltb (length m) head_size
      then s
      else if sends && ltb (length m) (head_size + head.size)
      then s
      else rest

  -- A round of the loop over `writable_list`.
  unfoldable pub flush_one : Tconnd W → ℕ → Tconnd W
  flush_one t id =
      let r = flush kernel t id in
      let u = set_writable r.1 id false in if is_close r.0 then delete kernel u id else u

  unfoldable pub flush_all : Tconnd W → List ℕ → Tconnd W
  flush_all t [] = t
  flush_all t (id ∷ ids) = flush_all (flush_one t id) ids

  abbrev pub messages : Memory → List Iovec → List (List ℕ)
  messages m [] = []
  messages m (v ∷ vs) = slice m v.base v.len ∷ messages m vs

  unfoldable pub handle_messages : Tconnd W → List (List ℕ) → Tconnd W
  unfolding all_messages flush_all
  handle_messages t ms =
      let s = all_messages (record { tconnd = t; writable_list = [] }) ms in
      flush_all s.tconnd s.writable_list

  abbrev pub end_reading : Tconnd W → ℕ → Tconnd W
  end_reading t head = record t { input_tbus = read_end t.input_tbus head }

  -- `process_input_tbus` with what `tbus_read_begin` returned
  unfoldable pub process_reading : Tconnd W → Reading → ErrorCode × Tconnd W
  unfolding handle_messages
  process_reading t r =
      if length r.iov == 0
      then (
        if r.head == t.input_tbus.head_offset then would_block else noerror,
        end_reading t r.head,
      )
      else (noerror, end_reading (handle_messages t (messages t.input_tbus.buff r.iov)) r.head)

  unfoldable pub process_input_tbus : Tconnd W → Option (ErrorCode × Tconnd W)
  unfolding process_reading
  process_input_tbus t = elim (read_begin t.input_tbus iov_num) [
    | none ↦ none
    | some r ↦ some (process_reading t r)
  ]
