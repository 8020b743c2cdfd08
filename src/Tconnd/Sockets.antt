-- ===== src/Tconnd/Sockets.antt =====
-- tconnd/source/tconnd_socket.c, but for `tconnd_socket_recv`: the sockets of the pool.
pub mod Similar
pub mod Pushes
pub mod Deletion
use Prim.Native.Nat.{ℕ, ◌+◌, ◌-◌}
use mathlib.Core.Bool.{Bool, true, false, not, ◌&&◌, ◌||◌}
use mathlib.Core.Option.{Option, none, some}
use mathlib.Core.List.{List, [], ◌∷◌, ◌++◌}
use tsf4g.Prelude.{length, ltb, leb, ◌==◌, if◌then◌else◌}
use tsf4g.Errors.{ErrorCode, noerror, close, is_noerror}
use tsf4g.Mempool.{Mempool, invalid_id, alloc, free, unlink_id}
use tsf4g.Sip.{cmd_accept, cmd_send, cmd_close}
use tsf4g.Tconnd.{
  Status, status_closed, status_syn_sent, status_established, status_listen, Package, Socket, Ready,
  listener, connection, Kernel, Written, wrote, write_failed, Tconnd, set_socket, unlink_ready,
}

-- `TCONND_SOCKET_OP_LIST_MAX`
abbrev pub op_list_max : ℕ
op_list_max = 128

-- `SSIZE_MAX`
abbrev pub ssize_max : ℕ
ssize_max = 0x7fffffffffffffff

-- `tcond_socket_construct`
abbrev pub construct : Socket → Socket
construct self = record self {
  status = status_closed;
  iov = [];
  iov_total_size = 0;
  package_buff = none;
  writable = false;
  readable = false;
}

-- `tconnd_socket_new`
unfoldable pub new_socket : {W : Type 0} → Tconnd W → Option (ℕ × Tconnd W)
new_socket t = if t.socket_pool.sn == invalid_id then none else (elim (alloc t.socket_pool) [
  | none ↦ none
  | some r ↦ some (r.0, set_socket (record t { socket_pool = r.1 }) r.0 (construct (t.sockets r.0)))
])

module _ {W : Type 0} (kernel : Kernel W) where
  abbrev pub close_fd : Tconnd W → Socket → Tconnd W
  close_fd t self = record t { world = kernel.close t.world self.socketfd }

  abbrev pub drop_readable : Tconnd W → Ready → Bool → Tconnd W
  drop_readable t me false = t
  drop_readable t me true = record t { readable_list = unlink_ready me t.readable_list }

  abbrev pub drop_package : Tconnd W → ℕ → Option Package → Tconnd W
  drop_package t id none = t
  drop_package t id (some p) = record t {
    package_list = unlink_id id t.package_list;
    package_pool = free t.package_pool p.slot;
  }

  -- `tcond_socket_destruct` of a socket of the pool by its status. The socket's own fields are
  -- not read again before `tcond_socket_construct`, except its status, which stays.
  abbrev pub destruct_as : Status → Tconnd W → ℕ → Tconnd W
  destruct_as status_closed t id = t
  destruct_as status_syn_sent t id =
      let u = close_fd t (t.sockets id) in record u { pending_list = unlink_id id u.pending_list }
  destruct_as status_established t id =
      let s = t.sockets id in
      drop_readable
        (set_socket (drop_package (close_fd t s) id s.package_buff) id
          (record s { package_buff = none }))
        (connection id) s.readable
  destruct_as status_listen t id =
      let s = t.sockets id in drop_readable (close_fd t s) (connection id) s.readable

  unfoldable pub destruct : Tconnd W → ℕ → Tconnd W
  destruct t id = destruct_as (t.sockets id).status t id

  -- `tconnd_socket_delete`
  unfoldable pub delete : Tconnd W → ℕ → Tconnd W
  unfolding destruct
  delete t id = let u = destruct t id in record u { socket_pool = free u.socket_pool id }

  abbrev pub is_established : Status → Bool
  is_established status_established = true
  is_established _ = false

  abbrev pub is_syn_sent : Status → Bool
  is_syn_sent status_syn_sent = true
  is_syn_sent _ = false

  -- What follows the call of `writev`.
  abbrev pub written : Tconnd W → ℕ → Written → ErrorCode × Tconnd W
  written t id write_failed = (close, t)
  written t id (wrote n) =
      if n == (t.sockets id).iov_total_size
      then (noerror, set_socket t id (record (t.sockets id) { iov = []; iov_total_size = 0 }))
      else (close, t)

  -- `tconnd_socket_flush`
  unfoldable pub flush : Tconnd W → ℕ → ErrorCode × Tconnd W
  flush t id =
      let s = t.sockets id in
      let r = kernel.writev t.world s.socketfd s.iov in
      if not (is_established s.status)
      then (close, t)
      else if length s.iov == 0
      then (noerror, t)
      else written (record t { world = r.0 }) id r.1

  abbrev pub push_iov : Tconnd W → ℕ → List ℕ → Tconnd W
  push_iov t id body =
      let s = t.sockets id in
      set_socket t id
        (record s { iov = s.iov ++ body ∷ []; iov_total_size = s.iov_total_size + length body })

  -- `tconnd_socket_on_cmd_send`
  unfoldable pub on_cmd_send : Tconnd W → ℕ → List ℕ → ErrorCode × Tconnd W
  on_cmd_send t id body =
      let s = t.sockets id in
      let flushed = flush t id in
      if ltb ssize_max (length body) || (length body == 0)
      then (close, t)
      else if leb op_list_max (length s.iov) || ltb (ssize_max - length body) s.iov_total_size
      then (if is_noerror flushed.0 then (noerror, push_iov flushed.1 id body) else flushed)
      else (noerror, push_iov t id body)

  -- `tconnd_socket_on_cmd_accept`
  unfoldable pub on_cmd_accept : Tconnd W → ℕ → ErrorCode × Tconnd W
  on_cmd_accept t id =
      let s = t.sockets id in
      let r = kernel.epoll_add t.world s.socketfd in
      let u = record t { pending_list = unlink_id id t.pending_list; world = r.0 } in
      if not (is_syn_sent s.status)
      then (close, t)
      else if r.1
      then (noerror, set_socket u id (record s { status = status_established }))
      else (close, u)

  -- `tconnd_socket_push_pkg`
  unfoldable pub push_pkg : Tconnd W → ℕ → ℕ → List ℕ → ErrorCode × Tconnd W
  push_pkg t id cmd body =
      let flushed = flush t id in
      if cmd == cmd_send
      then on_cmd_send t id body
      else if cmd == cmd_accept
      then on_cmd_accept t id
      else if cmd == cmd_close
      then (if is_established (t.sockets id).status then (close, flushed.1) else (close, t))
      else (close, t)
