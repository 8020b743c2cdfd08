-- ===== src/Tconnd/Receive/Outcomes.antt =====
-- tconnd/source/tconnd_socket.c, `tconnd_socket_recv`: what a read of a connection comes to.

use tsf4g.Prelude.{
  ℕ, ◌+◌, ◌-◌, ◌%◌, ◌≤◌, ◌<◌, ◌≡◌, refl, List, [], ◌∷◌, ◌++◌, Option, some, arith, false, length,
  length-append, u32_mod,
}
use tsf4g.Errors.{
  ErrorCode, noerror, is_noerror, is_close, close, errno, no_memory, tbus_not_enough_space,
}
use tsf4g.Frames.{AreBytes}
use tsf4g.Sip.{Cid, Req, req_size, length-encode_req, encode_req}
use tsf4g.Tbus.{Tbus, Grant}
use tsf4g.Tbus.Send.{begun}
use tsf4g.Tconnd.{Kernel, Arrival, bytes_read, read_again, ended, errno_again, Tconnd}
use tsf4g.Tconnd.Cut.{closing, received, receive}
use tsf4g.Tconnd.Notice.{disconnect, arrived, message}
use tsf4g.Tconnd.Queues.{IsQueued}
use tsf4g.Tconnd.Timely.{IsTimely}
use tsf4g.Tconnd.Steady.{Untouched, at, at-Untouched}
use tsf4g.Tconnd.Outbox.{Ring, Granted, Granted-Ring, transmit-Ring}
use tsf4g.Tconnd.Receive.{bytes_of, cid_of, send_on}
use tsf4g.Tconnd.Receive.Parts.{Around}
use tsf4g.Tconnd.Receive.Buffers.{Around-trans}

-- What `recv` of the system reads are bytes, at least one, and no more than there is room for.
pub record IsReader {W : Type 0} (kernel : Kernel W) : Type 0 where
  pub some_read :
      (w : W) (fd room : ℕ) (b : List ℕ) → (kernel.recv w fd room).1 ≡ bytes_read b → 0 < length b
  pub within :
      (w : W) (fd room : ℕ) (b : List ℕ)
      → (kernel.recv w fd room).1 ≡ bytes_read b
      → length b ≤ room
  pub are_bytes :
      (w : W) (fd room : ℕ) (b : List ℕ) → (kernel.recv w fd room).1 ≡ bytes_read b → AreBytes b

-- The packets of the ring with what is sent on behind them.
abbrev pub with_sent : List (List ℕ) → Cid → List ℕ → List (List ℕ)
with_sent ps cid [] = ps
with_sent ps cid (w ∷ ws) = ps ++ message cid (arrived (w ∷ ws)) ∷ []

-- The room that the ring to the server grants.
abbrev pub granted_room : {W : Type 0} → Tconnd W → ℕ
granted_room t = (begun t.output_tbus).1.room

-- What a call needs before it reads anything: the structure, and the bytes that were kept.
abbrev pub used : {W : Type 0} → Tconnd W → ℕ → ℕ
used t id = req_size + length (bytes_of (t.sockets id).package_buff)

-- What the system's `recv` answers for the connection, given the rest of the room.
abbrev pub reading : {W : Type 0} → Kernel W → Tconnd W → ℕ → Arrival
reading kernel t id = (kernel.recv t.world (t.sockets id).socketfd (granted_room t - used t id)).1

-- Why nothing is read: there is no room, or no package buffer, or no byte has come.
pub data Quiet {W : Type 0} (t : Tconnd W) (id room : ℕ) (a : Arrival)
    : ErrorCode → Tconnd W → Type 0 where
  no_room : {u : Tconnd W} → room < used t id + 1 → Quiet t id room a tbus_not_enough_space u
  no_buffer : {u : Tconnd W} → t.package_pool.unused_list ≡ [] → Quiet t id room a no_memory u
  nothing_yet : {u : Tconnd W} → a ≡ read_again → u.errno ≡ errno_again → Quiet t id room a errno u

-- What a call does to a connection, when the room is `room` and the system answers `a`.
pub data Heard {W : Type 0} (kernel : Kernel W) (t : Tconnd W) (id room : ℕ) (a : Arrival)
    (ps : List (List ℕ)) : ErrorCode × Tconnd W → Type 0 where
  -- Nothing is read.
  silent :
      {code : ErrorCode} {u : Tconnd W}
      → is_noerror code ≡ false
      → is_close code ≡ false
      → Quiet t id room a code u
      → Untouched t u
      → Ring u.output_tbus ps
      → Heard kernel t id room a ps (code, u)
  -- The stream has ended, and the server is told.
  hung_up :
      {u : Tconnd W}
      → a ≡ ended
      → Untouched t u
      → Ring u.output_tbus (ps ++ message (cid_of kernel t id) disconnect ∷ [])
      → Heard kernel t id room a ps (close, u)
  -- A packet is too long.
  overlong :
      (b : List ℕ) {u : Tconnd W}
      → a ≡ bytes_read b
      → receive t.config.package_size (bytes_of (t.sockets id).package_buff) b ≡ some closing
      → Around t id u
      → Ring u.output_tbus ps
      → Heard kernel t id room a ps (close, u)
  -- The whole packets are sent on, and the rest is kept.
  heard :
      (b w : List ℕ) {u : Tconnd W}
      → a ≡ bytes_read b
      → receive t.config.package_size (bytes_of (t.sockets id).package_buff) b
        ≡ some (received w (bytes_of (u.sockets id).package_buff))
      → AreBytes b
      → Around t id u
      → Ring u.output_tbus (with_sent ps (cid_of kernel t id) w)
      → Heard kernel t id room a ps (noerror, u)

abbrev pub Returns :
    {W : Type 0}
    → Kernel W
    → Tconnd W
    → ℕ
    → ℕ
    → Arrival
    → List (List ℕ)
    → Option (ErrorCode × Tconnd W)
    → Type 0
Returns {W} kernel t id room a ps o =
    (r : ErrorCode × Tconnd W) × (o ≡ some r)
    × Heard kernel t id room a ps r
    × IsQueued r.1
    × IsTimely r.1

length-arrived : (cid : Cid) (w : List ℕ) → length (message cid (arrived w)) ≡ req_size + length w
unfolding message
length-arrived cid w =
    let r : Req = record { cmd = 2; size = length w % u32_mod; cid = cid } in
    omega (arith, length-append (encode_req r) w, length-encode_req r)

pub length-disconnect : (cid : Cid) → length (message cid disconnect) ≡ req_size
unfolding message
length-disconnect cid = length-encode_req (record { cmd = 2; size = 0; cid = cid })

-- What is sent on has room.
pub send_on-Ring :
    {W : Type 0} (kernel : Kernel W) (t : Tconnd W) (id : ℕ) (g : Grant) (ps : List (List ℕ))
    (w : List ℕ)
    → Granted t.output_tbus g ps
    → req_size + length w ≤ g.room
    → Ring (send_on kernel t id g w).output_tbus (with_sent ps (cid_of kernel t id) w)
send_on-Ring kernel t id g ps [] h l = Granted-Ring h
send_on-Ring kernel t id g ps (w ∷ ws) h l =
    let bs = message (cid_of kernel t id) (arrived (w ∷ ws)) in
    let size = length-arrived (cid_of kernel t id) (w ∷ ws) in
    transmit-Ring kernel t.output_tbus g ps bs h (omega (arith, size)) (omega (arith, size))

pub calls_at : {W : Type 0} (u : Tconnd W) (id : ℕ) (w : W) (o : Tbus) → Around u id (at u w o)
calls_at u id w o = record {
  pool = refl;
  pending = refl;
  clock = refl;
  config = refl;
  others = λ j n. refl;
  status = refl;
  ticks = refl;
}

at-Quiet :
    {W : Type 0} (t : Tconnd W) (w : W) (o : Tbus) (id room : ℕ) (a : Arrival) {code : ErrorCode}
    {u : Tconnd W}
    → Quiet (at t w o) id room a code u
    → Quiet t id room a code u
at-Quiet t w o id room a (no_room h) = no_room h
at-Quiet t w o id room a (no_buffer h) = no_buffer h
at-Quiet t w o id room a (nothing_yet h e) = nothing_yet h e

-- The system and the ring may have changed before.
at-Heard :
    {W : Type 0} (kernel : Kernel W) (t : Tconnd W) (w : W) (o : Tbus) (id room : ℕ) (a : Arrival)
    (ps : List (List ℕ)) {r : ErrorCode × Tconnd W}
    → Heard kernel (at t w o) id room a ps r
    → Heard kernel t id room a ps r
at-Heard kernel t w o id room a ps (silent n c q e r) =
    silent n c (at-Quiet t w o id room a q) (at-Untouched t w o e) r
at-Heard kernel t w o id room a ps (hung_up h e r) = hung_up h (at-Untouched t w o e) r
at-Heard kernel t w o id room a ps (overlong b h e x r) =
    overlong b h e (Around-trans (calls_at t id w o) x) r
at-Heard kernel t w o id room a ps (heard b v h e y x r) =
    heard b v h e y (Around-trans (calls_at t id w o) x) r

pub at-Returns :
    {W : Type 0} (kernel : Kernel W) (t : Tconnd W) (w : W) (o : Tbus) (id room : ℕ) (a : Arrival)
    (ps : List (List ℕ)) {x : Option (ErrorCode × Tconnd W)}
    → Returns kernel (at t w o) id room a ps x
    → Returns kernel t id room a ps x
at-Returns kernel t w o id room a ps (r, e, l, k, s) =
    (r, e, at-Heard kernel t w o id room a ps l, k, s)
