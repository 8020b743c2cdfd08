-- ===== src/Tconnd/Listen.antt =====
-- tconnd/source/tconnd_listen.c, `tconnd_listen`: a new connection.
pub mod Entry
pub mod Admission
use Prim.Native.Nat.{ℕ, ◌+◌, ◌%◌}
use mathlib.Core.Bool.{Bool, true, false}
use mathlib.Core.Option.{Option, none, some}
use mathlib.Core.List.{List, [], ◌∷◌, ◌++◌}
use tsf4g.Prelude.{ltb, ◌==◌, if◌then◌else◌, u64_mod}
use tsf4g.Errors.{ErrorCode, noerror, error, errno, too_many_socket, tbus_not_enough_space}
use tsf4g.Mempool.{Mempool, invalid_id}
use tsf4g.Sip.{req_size}
use tsf4g.Tbus.{Tbus, Grant, send_begin}
use tsf4g.Tconnd.{
  status_syn_sent, Socket, Kernel, Accepted, accepted, accept_failed, errno_other, Tconnd,
  set_socket,
}
use tsf4g.Tconnd.Sockets.{new_socket}
use tsf4g.Tconnd.Receive.{is_nil, transmit, cid_of}
use tsf4g.Tconnd.Notice.{connect, message}

module _ {W : Type 0} (kernel : Kernel W) where
  -- The new socket waits to be accepted by the server, which is told of it.
  abbrev pub enlist : Tconnd W → Grant → ℕ → ℕ → Tconnd W
  enlist t g fd id = record t {
    sockets =
        (set_socket t id (record (t.sockets id) {
          socketfd = fd;
          pending_ticks = (t.cur_ticks + t.config.accept_ticks_limit) % u64_mod;
          status = status_syn_sent;
        })).sockets;
    pending_list = t.pending_list ++ id ∷ [];
    output_tbus = transmit kernel t.output_tbus g (message (cid_of kernel t id) connect);
  }

  -- From `tconnd_socket_new` on. It gives a socket, by the tests before.
  abbrev pub admit : Tconnd W → Grant → ℕ → Option (ErrorCode × Tconnd W)
  admit t g fd = elim (new_socket t) [ none ↦ none | some r ↦ some (noerror, enlist r.1 g fd r.0) ]

  -- What follows the call of `accept`.
  abbrev pub greet : Tconnd W → Grant → Accepted → Option (ErrorCode × Tconnd W)
  greet t g (accept_failed e) = some (errno, record t { errno = e })
  greet t g (accepted fd) =
      let r = kernel.set_nonblocking t.world fd in
      let u = record t { world = r.0 } in
      if r.1
      then admit u g fd
      else some (errno, record t { world = kernel.close r.0 fd; errno = errno_other })

  -- What follows `tbus_send_begin`.
  unfoldable pub listen_granted : Tconnd W → Grant → Option (ErrorCode × Tconnd W)
  listen_granted t g =
      let r = kernel.accept t.world t.listen_socket.socketfd in
      if ltb g.room req_size
      then some (tbus_not_enough_space, t)
      else if t.socket_pool.sn == invalid_id
      then some (error, t)
      else if is_nil t.socket_pool.unused_list
      then some (too_many_socket, t)
      else greet (record t { world = r.0 }) g r.1

  unfoldable pub listen : Tconnd W → Option (ErrorCode × Tconnd W)
  unfolding listen_granted
  listen t = elim (send_begin t.output_tbus) [
    | none ↦ none
    | some b ↦ listen_granted (record t { output_tbus = b.0 }) b.1
  ]
