-- ===== src/Tconnd/Receive/Arrivals.antt =====
-- tconnd/source/tconnd_socket.c, `tconnd_socket_recv`: what a read does to the connection, to the
-- queues and to the ring.

use tsf4g.Prelude.{
  ℕ, ◌+◌, ◌-◌, ◌≤◌, ◌≡◌, refl, ap, inl, inr, List, some, arith, false, length, ltb, if_cases,
  List-cases,
}
use tsf4g.Errors.{ErrorCode, is_noerror, is_close, close, errno, no_memory, tbus_not_enough_space}
use tsf4g.Frames.{AreBytes}
use tsf4g.Sip.{req_size}
use tsf4g.Tbus.{Grant}
use tsf4g.Tbus.Send.{begun, send_begin_lem}
use tsf4g.Tconnd.{
  status_established, Kernel, Arrival, bytes_read, read_again, ended, errno_again, Tconnd,
}
use tsf4g.Tconnd.Notice.{disconnect, message}
use tsf4g.Tconnd.Queues.{IsLive, IsQueued}
use tsf4g.Tconnd.Timely.{IsTimely}
use tsf4g.Tconnd.Steady.{
  Untouched, at, at-IsQueued, at-IsTimely, failed, Untouched-IsQueued, Untouched-IsTimely,
}
use tsf4g.Tconnd.Outbox.{Ring, Granted, Granted-Ring, begun-Granted, transmit-Ring}
use tsf4g.Tconnd.Receive.{bytes_of, is_nil, cid_of, transmit, arrive, recv_granted, recv}
use tsf4g.Tconnd.Receive.Outcomes.{
  IsReader, Heard, Quiet, no_room, no_buffer, nothing_yet, granted_room, used, reading, silent,
  hung_up, Returns, length-disconnect, at-Returns,
}
use tsf4g.Tconnd.Receive.Cutting.{Ready, arrived-Returns}

at-Ready :
    {W : Type 0} (kernel : Kernel W) (t : Tconnd W) (w : W) (id : ℕ) (g : Grant)
    (ps : List (List ℕ))
    → Ready kernel t id g ps
    → Ready kernel (at t w t.output_tbus) id g ps
at-Ready kernel t w id g ps y = record {
  live = y.live;
  status = y.status;
  room = y.room;
  granted = y.granted;
  queued = at-IsQueued t w t.output_tbus y.queued;
  timely = at-IsTimely t w t.output_tbus y.timely;
}

module _ {W : Type 0} (kernel : Kernel W) (t : Tconnd W) (id : ℕ) (g : Grant)
    (ps : List (List ℕ)) where
  silent-Returns :
      (a : Arrival) (code : ErrorCode) (u : Tconnd W)
      → is_noerror code ≡ false
      → is_close code ≡ false
      → Quiet t id g.room a code u
      → Untouched t u
      → Ring u.output_tbus ps
      → IsQueued t
      → IsTimely t
      → Returns kernel t id g.room a ps (some (code, u))
  silent-Returns a code u n c q e r k s =
      ((code, u), refl, silent n c q e r, Untouched-IsQueued e k, Untouched-IsTimely e s)

  arrive-Returns :
      (a : Arrival)
      → Ready kernel t id g ps
      → AreBytes (bytes_of (t.sockets id).package_buff)
      → req_size + length (bytes_of (t.sockets id).package_buff) ≤ g.room
      → ((b : List ℕ)
          → a ≡ bytes_read b
          → AreBytes b
            × (req_size + length (bytes_of (t.sockets id).package_buff) + length b ≤ g.room))
      → Returns kernel t id g.room a ps (arrive kernel t id g a)
  arrive-Returns read_again y kept l h =
      silent-Returns read_again errno (record t { errno = errno_again }) refl refl
        (nothing_yet refl refl) (failed t t.world errno_again) (Granted-Ring y.granted) y.queued
        y.timely
  arrive-Returns ended y kept l h =
      let bs = message (cid_of kernel t id) disconnect in
      let size = length-disconnect (cid_of kernel t id) in
      let ring =
        transmit-Ring kernel t.output_tbus g ps bs y.granted (omega (arith, size))
          (omega (arith, size)) in
      let o = transmit kernel t.output_tbus g bs in
      (
        (close, record t { output_tbus = o }),
        refl,
        hung_up refl
            (record {
              pool = refl;
              sockets = refl;
              pending = refl;
              packages = refl;
              clock = refl;
              config = refl;
            })
            ring,
        at-IsQueued t t.world o y.queued,
        at-IsTimely t t.world o y.timely,
      )
  arrive-Returns (bytes_read b) y kept l h =
      let (are, room) = h b refl in arrived-Returns kernel t id g ps y b are kept room

-- A connection that may be read, with bytes in its package buffer.
pub record IsOpen {W : Type 0} (t : Tconnd W) (id : ℕ) : Type 0 where
  pub live : IsLive t id
  pub status : (t.sockets id).status ≡ status_established
  pub kept : AreBytes (bytes_of (t.sockets id).package_buff)

same_state : {W : Type 0} (t : Tconnd W) → Untouched t t
same_state t = record {
  pool = refl;
  sockets = refl;
  pending = refl;
  packages = refl;
  clock = refl;
  config = refl;
}

-- What the system's `recv` answers in some room.
abbrev answered : {W : Type 0} → Kernel W → Tconnd W → ℕ → ℕ → Arrival
answered kernel t id room = (kernel.recv t.world (t.sockets id).socketfd (room - used t id)).1

recv_granted-Returns :
    {W : Type 0} (kernel : Kernel W) (t : Tconnd W) (id : ℕ) (g : Grant) (ps : List (List ℕ))
    → IsReader kernel
    → IsOpen t id
    → Granted t.output_tbus g ps
    → IsQueued t
    → IsTimely t
    → Returns kernel t id g.room (answered kernel t id g.room) ps (recv_granted kernel t id g)
unfolding recv_granted
recv_granted-Returns kernel t id g ps reads o h k s =
    let rest = bytes_of (t.sockets id).package_buff in
    let used = used t id in
    let fd = (t.sockets id).socketfd in
    let r = kernel.recv t.world fd (g.room - used) in
    let code = silent-Returns kernel t id g ps r.1 in
    if_cases (Returns kernel t id g.room r.1 ps) (ltb g.room (used + 1))
      (λ b.
        code tbus_not_enough_space t refl refl (no_room (ground arith)) (same_state t)
          (Granted-Ring h) k s)
      (λ b.
        let l : used + 1 ≤ g.room = ground arith in
        elim (List-cases t.package_pool.unused_list) [
          | inl e ↦
              rw (ap is_nil e)
                (code no_memory t refl refl (no_buffer e) (same_state t) (Granted-Ring h) k s)
          | inr (x, xs, e) ↦
              let y : Ready kernel t id g ps = record {
                live = o.live;
                status = o.status;
                room = (x, xs, e);
                granted = h;
                queued = k;
                timely = s;
              } in
              rw (ap is_nil e) (
                at-Returns kernel t r.0 t.output_tbus id g.room r.1 ps (
                  arrive-Returns kernel (at t r.0 t.output_tbus) id g ps r.1
                    (at-Ready kernel t r.0 id g ps y) o.kept (omega arith)
                    (λ b e. (
                      reads.are_bytes t.world fd (g.room - used) b e,
                      omega (arith, reads.within t.world fd (g.room - used) b e),
                    ))))
        ])

-- `tconnd_socket_recv` of a live, established connection returns, and what it does is one of these.
-- It reads nothing, and neither the connections, the queues nor the packets of the ring change: the
-- ring grants no room for one byte more than is kept, or there is no package buffer, or the system's
-- `recv` answers that there is nothing to read yet; the code says which. The system's `recv` answers that the stream has ended: the call answers to close,
-- and the ring to the server holds the notice. The system's `recv` reads bytes, which with those kept
-- show a packet that is too long: the call answers to close, and nothing is sent. Or it reads bytes,
-- and the call answers with no error; of those kept and those read, the whole packets, if any, are the
-- next message of the ring, under the connection's handle, and the rest is what its package buffer
-- has. Other connections do not change, and the queues stay in order, with their times within the
-- limits. The system's `recv` reads bytes, as many as there is room for at most.
pub recv_lem :
    {W : Type 0} (kernel : Kernel W) (t : Tconnd W) (id : ℕ) (ps : List (List ℕ))
    → IsReader kernel
    → IsOpen t id
    → Ring t.output_tbus ps
    → IsQueued t
    → IsTimely t
    → (r : ErrorCode × Tconnd W) × (recv kernel t id ≡ some r)
      × Heard kernel t id (granted_room t) (reading kernel t id) ps r
      × IsQueued r.1
      × IsTimely r.1
unfolding recv
recv_lem kernel t id ps reads o h k s =
    let b = begun t.output_tbus in
    let u = at t t.world b.0 in
    let open_still : IsOpen u id = record { live = o.live; status = o.status; kept = o.kept } in
    let (r, e, l, k', s') = at-Returns kernel t t.world b.0 id b.1.room (reading kernel t id) ps (
      recv_granted-Returns kernel u id b.1 ps reads open_still (begun-Granted t.output_tbus ps h)
        (at-IsQueued t t.world b.0 k) (at-IsTimely t t.world b.0 s)) in
    (r, rw (recv, send_begin_lem t.output_tbus) e, l, k', s')
