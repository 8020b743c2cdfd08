-- ===== src/Socketapi.antt =====
-- tsocketapi/source/socketapi.c: the client's side of a connection.
pub mod Deliver
pub mod Kept
use Prim.Native.Nat.{ℕ, zero, suc, ◌+◌, ◌-◌}
use mathlib.Core.Bool.{Bool, true, false}
use mathlib.Core.Option.{Option, none, some}
use mathlib.Core.List.{List, [], ◌∷◌, ◌++◌}
use tsf4g.Prelude.{length, take, drop, ltb, leb, if◌then◌else◌}
use tsf4g.Frames.{word16, body}
use tsf4g.Errors.{ErrorCode, noerror, would_block}

abbrev pub recvbuf_max : ℕ
recvbuf_max = 0xfffff

-- `socketapi_t`: the `socket_fd`, if it is not -1, and the first `recvbuf_size` bytes of `recvbuf`.
pub record Socketapi : Type 0 where
  pub socket_fd : Option ℕ
  pub recvbuf : List ℕ

-- `socketapi_close`
unfoldable pub close : Socketapi → Socketapi
close self = record { socket_fd = none; recvbuf = self.recvbuf }

-- What `recv` returns: -1 with `errno` EAGAIN, EINTR or another, or the bytes read. At the end of
-- the stream it reads none.
pub data Recv : Type 0 where
  eagain eintr failed : Recv
  got : List ℕ → Recv

-- What the loop did: its calls of `on_recv`, and `last` as an offset in `recvbuf`.
pub record Looped : Type 0 where
  pub calls : List (List ℕ)
  pub last : Option ℕ

abbrev pub called : List ℕ → Option Looped → Option Looped
called p none = none
called p (some l) = some (record { calls = p ∷ l.calls; last = l.last })

-- The loop at `iter`, which stands at `off`; `bs` are the bytes from there to `limit`. A `next`
-- behind `limit` ends it. `none` if the fuel runs out.
unfoldable pub packets_loop : ℕ → List ℕ → ℕ → Option ℕ → Option Looped
packets_loop zero bs off last = none
packets_loop (suc fuel) bs off last =
    let next = off + (2 + word16 bs) in
    let rest = packets_loop fuel (drop (word16 bs) (body bs)) next (some next) in
    if ltb (length bs) 2
    then some (record { calls = []; last = last })
    else if leb (word16 bs) (length (body bs))
    then called (take (word16 bs) (body bs)) rest
    else some (record { calls = []; last = last })

-- As many bytes as the copy has, of which nothing is known.
unfoldable pub torn_bytes : (ℕ → ℕ) → ℕ → List ℕ
torn_bytes torn zero = []
torn_bytes torn (suc n) = torn n ∷ torn_bytes torn n

-- What `recvbuf` holds after the loop: it is moved up only if `last` is set and before `limit`. It is
-- `memcpy` that moves it, which does not say what is there afterwards if the bytes overlap the place
-- they are moved to, as they do where there are more of them than `last` says: then it is `torn`.
unfoldable pub keep_rest : (ℕ → ℕ) → List ℕ → Option ℕ → List ℕ
keep_rest torn bs none = bs
keep_rest torn bs (some last) =
    if ltb last (length bs)
    then (if leb (length bs - last) last then drop last bs else torn_bytes torn (length bs - last))
    else bs

pub record Processed : Type 0 where
  pub ret : ErrorCode
  pub self : Socketapi
  pub calls : List (List ℕ)

unfoldable pub conclude : (ℕ → ℕ) → Option ℕ → List ℕ → Looped → Processed
unfolding keep_rest
conclude torn fd bs l = record {
  ret = noerror;
  self = record { socket_fd = fd; recvbuf = keep_rest torn bs l.last };
  calls = l.calls;
}

-- From the setting of `last`, with `bs` the first `recvbuf_size` bytes.
unfoldable pub deliver : (ℕ → ℕ) → Option ℕ → List ℕ → Option Processed
unfolding conclude
deliver torn fd bs = elim (packets_loop (suc (length bs)) bs 0 none) [
  | none ↦ none
  | some l ↦ some (conclude torn fd bs l)
]

-- What follows the call of `recv`.
unfoldable pub on_read : (ℕ → ℕ) → Socketapi → Recv → Option Processed
unfolding deliver close
on_read torn self eagain = some (record { ret = would_block; self = self; calls = [] })
on_read torn self eintr = some (record { ret = noerror; self = self; calls = [] })
on_read torn self failed = some (record { ret = noerror; self = close self; calls = [] })
on_read torn self (got b) = deliver torn self.socket_fd (self.recvbuf ++ b)

-- `socketapi_process` with an `on_recv` that is set and leaves the record as it is; `kernel` is what
-- `recv` returns for the length that it is asked for, and `torn` what a `memcpy` that must not be done
-- leaves.
unfoldable pub process : (ℕ → ℕ) → Socketapi → (ℕ → Recv) → Option Processed
unfolding on_read
process torn self kernel = elim self.socket_fd [
  | none ↦ some (record { ret = would_block; self = self; calls = [] })
  | some fd ↦ on_read torn self (kernel (recvbuf_max - length self.recvbuf))
]
