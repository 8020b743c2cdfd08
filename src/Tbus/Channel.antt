-- ===== src/Tbus/Channel.antt =====
-- One sender and one receiver on a tbus, their calls in any order: a call reads and writes the
-- shared offsets as one step, and what the other side does falls before it or behind it.
pub mod Steps
pub mod Fifo
pub mod Progress
use tsf4g.Prelude.{
  ℕ, zero, suc, ◌+◌, ◌-◌, ◌≤◌, ◌<◌, ◌≡◌, ◌≢◌, refl, sym, ◌∙◌, ap, subst, ◌⊎◌, inl, inr, List, [],
  ◌∷◌, ◌++◌, append-nil, append_assoc, Option, some, none, Bool-cases, arith, Memory, length, slice,
  u32_mod, take, some-injective,
}
use tsf4g.Tbus.{
  Tbus, Grant, Iovec, Reading, header_size, init, send_begin, send_end, read_begin, read_end,
}
use tsf4g.Tbus.Position.{
  IsBounded, Position, ahead, IsFree, Only, IsStable, Position-stable, Position-extends, Extends,
  IsStable-pair, IsFree-within, IsFree-buff,
}
use tsf4g.Tbus.Send.{begun, begun-Begun, send_begin_lem, Fits}
use tsf4g.Tbus.SendEnd.{send_end-Ended}
use tsf4g.Tbus.Read.{Handed, Handed-stable, Handed-extends, read_begin_lem}
use tsf4g.Tbus.Release.{
  resume, packets, resume-Position, read_end-Position, read_end-IsBounded, read_end-IsFree,
}

-- The shared memory, what the sender was granted since its last packet, and what the receiver has
-- begun to read.
pub record Channel : Type 0 where
  pub bus : Tbus
  pub grant : Option Grant
  pub lease : Option Reading

-- What a step does with packets: nothing, one more sent, or some taken.
pub data Label : Type 0 where
  silent : Label
  sent : List ℕ → Label
  taken : List (List ℕ) → Label

pub data Step (c : Channel) : Label → Channel → Type 0 where
  -- `tbus_send_begin`
  begin :
      (tb : Tbus) (g : Grant)
      → send_begin c.bus ≡ some (tb, g)
      → Step c silent (record c { bus = tb; grant = some g })
  -- The sender writes into the buffer that it was granted.
  fill :
      (g : Grant) (buf : ℕ) (m : Memory)
      → c.grant ≡ some g
      → g.buf ≡ some buf
      → Only buf (buf + g.room) c.bus.buff m
      → Step c silent (record c { bus = record c.bus { buff = m } })
  -- `tbus_send_end` with a length that was granted
  finish :
      (g : Grant) (buf len : ℕ) (p : List ℕ) (tb : Tbus)
      → c.grant ≡ some g
      → g.buf ≡ some buf
      → 0 < len
      → len ≤ g.room
      → p ≡ slice c.bus.buff buf len
      → tb ≡ send_end c.bus len
      → Step c (sent p) (record c { bus = tb; grant = none })
  -- `tbus_read_begin` with room for `num` entries
  look :
      (num : ℕ) (r : Reading)
      → read_begin c.bus num ≡ some r
      → Step c silent (record c { lease = some r })
  -- `tbus_read_end` behind the first `n` of the entries
  leave :
      (r : Reading) (n : ℕ) (ps : List (List ℕ)) (tb : Tbus)
      → c.lease ≡ some r
      → n ≤ length r.iov
      → ps ≡ packets c.bus.buff (take n r.iov)
      → tb ≡ read_end c.bus (resume r.head r.iov n)
      → Step c (taken ps) (record c { bus = tb; lease = none })

pub data Run (c : Channel) : List Label → Channel → Type 0 where
  here : Run c [] c
  next :
      {ls : List Label} {l : Label} {d e : Channel}
      → Run c ls d
      → Step d l e
      → Run c (ls ++ l ∷ []) e

abbrev pub HasGrant : Tbus → Option Grant → Type 0
HasGrant tb none = Unit {0}
HasGrant tb (some g) = Fits tb g

abbrev pub HasLease : Tbus → List (List ℕ) → Option Reading → Type 0
HasLease tb ps none = Unit {0}
HasLease tb ps (some r) = Handed tb r.head ps r.iov

-- The channel holds the packets `ps`: sent, and not yet taken.
pub record Holds (c : Channel) (ps : List (List ℕ)) : Type 0 where
  pub bounded : IsBounded c.bus
  pub queue : Position c.bus c.bus.head_offset ps
  pub granted : HasGrant c.bus c.grant
  pub leased : HasLease c.bus ps c.lease

-- What a step does to the packets held: it is a queue.
pub data Moves : List (List ℕ) → Label → List (List ℕ) → Type 0 where
  stays : {ps : List (List ℕ)} → Moves ps silent ps
  enters : {ps : List (List ℕ)} {p : List ℕ} → Moves ps (sent p) (ps ++ p ∷ [])
  leaves : {ps qs rs : List (List ℕ)} → rs ≡ ps ++ qs → Moves rs (taken ps) qs
