-- ===== src/Tconnd/Receive.antt =====
-- tconnd/source/tconnd_socket.c, `tconnd_socket_recv`: a read of a socket, up to its message.
pub mod Parts
pub mod Buffers
pub mod Outcomes
pub mod Cutting
pub mod Arrivals
pub mod Buffered
pub mod Supply
use Prim.Native.Nat.{ℕ, ◌+◌, ◌-◌, ◌%◌}
use mathlib.Core.Bool.{Bool, true, false}
use mathlib.Core.Option.{Option, none, some}
use mathlib.Core.Option
use mathlib.Core.List.{List, [], ◌∷◌, ◌++◌}
use tsf4g.Prelude.{length, ltb, ◌==◌, if◌then◌else◌, u64_mod}
use tsf4g.Errors.{ErrorCode, noerror, close, errno, no_memory, tbus_not_enough_space}
use tsf4g.Mempool.{Mempool, alloc, free, unlink_id}
use tsf4g.Sip.{Cid, encode_req, req_size, cmd_recv}
use tsf4g.Tbus.{Tbus, Grant, send_begin, send_end}
use tsf4g.Tbusapi.{write_buf}
use tsf4g.Tconnd.{
  Package, Socket, Kernel, Arrival, bytes_read, read_again, ended, Tconnd, set_socket, errno_again,
}
use tsf4g.Tconnd.Cut.{Received, closing, received, receive}
use tsf4g.Tconnd.Notice.{disconnect, arrived, message}

abbrev pub bytes_of : Option Package → List ℕ
bytes_of none = []
bytes_of (some p) = p.bytes

abbrev pub is_nil {ℓ} : {A : Type ℓ} → List A → Bool
is_nil [] = true
is_nil (x ∷ xs) = false

module _ {W : Type 0} (kernel : Kernel W) where
  abbrev pub cid_of : Tconnd W → ℕ → Cid
  cid_of t id = record { sn = t.socket_pool.entry_sn id; id = id }

  -- The bytes of a packet are written into the ring, and the packet is ended.
  abbrev pub transmit : Tbus → Grant → List ℕ → Tbus
  transmit tb g bs = send_end (record tb { buff = write_buf tb.buff g.buf bs }) (length bs)

  -- The package buffer is given back.
  abbrev pub release : Option Package → Tconnd W → ℕ → Tconnd W
  release none t id = t
  release (some p) t id = record t {
    package_list = unlink_id id t.package_list;
    package_pool = free t.package_pool p.slot;
    sockets = (set_socket t id (record (t.sockets id) { package_buff = none })).sockets;
  }

  -- The rest of the bytes goes to a package buffer, if there are any.
  abbrev pub retain : Tconnd W → ℕ → List ℕ → Option (Tconnd W)
  retain t id [] = some t
  retain t id (b ∷ bs) = elim (alloc t.package_pool) [
    | none ↦ none
    | some a ↦ some (record t {
      package_pool = a.1;
      package_list = t.package_list ++ id ∷ [];
      sockets =
          (set_socket t id (record (t.sockets id) {
            package_buff = some (record { slot = a.0; bytes = b ∷ bs });
            package_ticks = (t.cur_ticks + t.config.package_ticks_limit) % u64_mod;
          })).sockets;
    })
  ]

  -- Whole packets are sent on, if there are any.
  abbrev pub send_on : Tconnd W → ℕ → Grant → List ℕ → Tconnd W
  send_on t id g [] = t
  send_on t id g (w ∷ ws) = record t {
    output_tbus = transmit t.output_tbus g (message (cid_of t id) (arrived (w ∷ ws)));
  }

  abbrev pub cut_result : Tconnd W → ℕ → Grant → Received → Option (ErrorCode × Tconnd W)
  cut_result t id g closing = some (close, t)
  cut_result t id g (received w r) = elim (retain t id r) [
    | none ↦ none
    | some u ↦ some (noerror, send_on u id g w)
  ]

  -- What follows the call of `recv`. The bytes lie in the ring, behind the room for a header, before
  -- they are cut; a packet that is not ended is not part of the ring, and what is written here is
  -- what ends up in the packet.
  abbrev pub arrive : Tconnd W → ℕ → Grant → Arrival → Option (ErrorCode × Tconnd W)
  arrive t id g read_again = some (errno, record t { errno = errno_again })
  arrive t id g ended = some (
    close,
    record t { output_tbus = transmit t.output_tbus g (message (cid_of t id) disconnect) },
  )
  arrive t id g (bytes_read b) =
      let p = (t.sockets id).package_buff in
      elim (receive t.config.package_size (bytes_of p) b) [
        | none ↦ none
        | some c ↦ cut_result (release p t id) id g c
      ]

  -- What follows `tbus_send_begin`
  unfoldable pub recv_granted : Tconnd W → ℕ → Grant → Option (ErrorCode × Tconnd W)
  recv_granted t id g =
      let s = t.sockets id in
      let used = req_size + length (bytes_of s.package_buff) in
      let r = kernel.recv t.world s.socketfd (g.room - used) in
      if ltb g.room (used + 1)
      then some (tbus_not_enough_space, t)
      else if is_nil t.package_pool.unused_list
      then some (no_memory, t)
      else arrive (record t { world = r.0 }) id g r.1

  unfoldable pub recv : Tconnd W → ℕ → Option (ErrorCode × Tconnd W)
  unfolding recv_granted
  recv t id = elim (send_begin t.output_tbus) [
    | none ↦ none
    | some b ↦ recv_granted (record t { output_tbus = b.0 }) id b.1
  ]
