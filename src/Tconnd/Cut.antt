-- ===== src/Tconnd/Cut.antt =====
-- tconnd/source/tconnd_socket.c, `tconnd_socket_recv`: where the bytes that a socket has received
-- are cut, behind what was left of the bytes before.
pub mod Stops
pub mod Flow
use Prim.Native.Nat.{ℕ, zero, suc, ◌+◌, ◌-◌}
use mathlib.Core.Bool.{◌&&◌}
use mathlib.Core.Option.{Option, none, some}
use mathlib.Core.List.{List, [], ◌∷◌, ◌++◌}
use tsf4g.Prelude.{length, drop, take, ltb, leb, if◌then◌else◌}
use tsf4g.Frames.{word16, body}

-- How the loop ends: the connection is to be closed, or `remain_ptr` stands at an offset from
-- `package_ptr`.
pub data Cut : Type 0 where
  closed : Cut
  remain : ℕ → Cut

-- The loop at `iter`, which stands `off` bytes behind `package_ptr`; `bs` are the bytes from there
-- to `limit_ptr`. An `iter` past the limit ends the loop with `remain_ptr` where it was.
unfoldable pub cut_loop : ℕ → ℕ → List ℕ → ℕ → Option Cut
cut_loop zero package_size bs off = none
cut_loop (suc fuel) package_size bs off =
    let rest = cut_loop fuel package_size (drop (word16 bs) (body bs)) (off + (2 + word16 bs)) in
    if ltb (length bs) 2
    then some (remain off)
    else if ltb package_size (word16 bs)
    then some closed
    else if leb (word16 bs) (length (body bs))
    then rest
    else some (remain off)

-- What becomes of the bytes: the front is sent on in one packet, the rest kept in a package buffer.
pub data Received : Type 0 where
  closing : Received
  received : List ℕ → List ℕ → Received

-- The rest is kept if it is no longer than `package_size`.
unfoldable pub keep_rest : ℕ → List ℕ → ℕ → Received
keep_rest package_size bs off =
    if ltb 0 (length bs - off) && ltb package_size (length bs - off)
    then closing
    else received (take off bs) (drop off bs)

unfoldable pub conclude : ℕ → List ℕ → Cut → Received
unfolding keep_rest
conclude package_size bs closed = closing
conclude package_size bs (remain off) = keep_rest package_size bs off

unfoldable pub cut_all : ℕ → List ℕ → Option Received
unfolding conclude
cut_all package_size bs = elim (cut_loop (suc (length bs)) package_size bs 0) [
  | none ↦ none
  | some c ↦ some (conclude package_size bs c)
]

-- From the read of `chunk`, with `rest` in the package buffer, to the end of `tconnd_socket_recv`.
unfoldable pub receive : ℕ → List ℕ → List ℕ → Option Received
receive package_size rest chunk = cut_all package_size (rest ++ chunk)
