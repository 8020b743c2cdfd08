-- ===== src/Tconnapi.antt =====
-- tconnapi/source/tconnapi.c: what a server's callbacks are called with for a message from tconnd.
pub mod Read
pub mod Respond
use Prim.Native.Nat.{ℕ, zero, suc, ◌+◌}
use mathlib.Core.Option.{Option, none, some}
use mathlib.Core.Option
use mathlib.Core.List.{List, [], ◌∷◌, map}
use tsf4g.Prelude.{length, take, drop, ltb, ◌==◌, if◌then◌else◌}
use tsf4g.Frames.{word16, body}
use tsf4g.Sip.{Cid, Req, decode_req, req_size, cmd_connect, cmd_recv}

-- A call of one of the callbacks of a server that sets all of them: `on_connect`, `on_close` or
-- `on_recv`.
pub data Event : Type 0 where
  connected : Cid → Event
  disconnected : Cid → Event
  packet : Cid → List ℕ → Event

abbrev packet_then : List ℕ → Option (List (List ℕ)) → Option (List (List ℕ))
packet_then p none = none
packet_then p (some ps) = some (p ∷ ps)

-- The loop over the packets of a message, with `bs` the bytes from `iter` to `limit`: the packets
-- that `on_recv` is called with. `none` if the fuel runs out.
unfoldable pub packets_loop : ℕ → List ℕ → Option (List (List ℕ))
packets_loop zero bs = none
packets_loop (suc fuel) bs =
    let rest =
      packet_then (take (word16 bs) (body bs)) (packets_loop fuel (drop (word16 bs) (body bs))) in
    if ltb (length bs) 2
    then some []
    else if ltb (length (body bs)) (word16 bs)
    then some []
    else rest

abbrev pub packets_of : List ℕ → Option (List (List ℕ))
packets_of bs = packets_loop (suc (length bs)) bs

-- The `switch` on the command of a message whose body is `bs`.
unfoldable pub handle : Req → List ℕ → Option (List Event)
handle req bs =
    if req.cmd == cmd_connect
    then some (connected req.cid ∷ [])
    else if req.cmd == cmd_recv
    then (if req.size == 0
        then some (disconnected req.cid ∷ [])
        else Option.map (map (packet req.cid)) (packets_of (take req.size bs)))
    else some []

-- `tconnapi_on_recv`: a message that is shorter than it says is dropped.
unfoldable pub on_recv : List ℕ → Option (List Event)
unfolding handle
on_recv bs =
    let req = decode_req bs in
    if ltb (length bs) req_size
    then some []
    else if ltb (length bs) (req_size + req.size)
    then some []
    else handle req (drop req_size bs)
