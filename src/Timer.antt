-- ===== src/Timer.antt =====
-- tutils/source/tlibc_timer.c and tutils/include/tlibc_timer.h: the timer wheel.
pub mod Place
pub mod Slots
pub mod Cascade
pub mod Drain
pub mod Fire
pub mod Tick
pub mod Expire
pub mod Rearm
use Prim.Native.Nat.{ℕ, zero, suc, ◌+◌, ◌-◌, ◌*◌, ◌/◌, ◌%◌, ◌^◌}
use mathlib.Core.Bool.{Bool, true, false, ◌&&◌}
use mathlib.Core.Option.{Option, none, some}
use mathlib.Core.List.{List, [], ◌∷◌, ◌++◌}
use tsf4g.Prelude.{ltb, leb, ◌==◌, if◌then◌else◌, u64_mod}
use tsf4g.Errors.{ErrorCode, noerror, would_block}

-- `tlibc_timer_entry_t`: its `expires`, and a name in place of its address and its callback.
pub record Entry : Type 0 where
  pub name : ℕ
  pub expires : ℕ

-- The five vectors.
pub data Level : Type 0 where
  tv1 tv2 tv3 tv4 tv5 : Level

abbrev pub same : Level → Level → Bool
same tv1 tv1 = true
same tv2 tv2 = true
same tv3 tv3 = true
same tv4 tv4 = true
same tv5 tv5 = true
same _ _ = false

-- The ticks of one slot of a vector, as a power of 2 in place of a shift by that many bits.
abbrev pub unit_of : Level → ℕ
unit_of tv1 = 1
unit_of tv2 = 256
unit_of tv3 = 16384
unit_of tv4 = 1048576
unit_of tv5 = 67108864

-- `TLIBC_TVR_SIZE` and `TLIBC_TVN_SIZE`
abbrev pub slots : Level → ℕ
slots tv1 = 256
slots _ = 64

-- `TLIBC_MAX_TVAL`
abbrev pub max_tval : ℕ
max_tval = 0xffffffff

-- `tlibc_timer_t`: the slots' lists from their heads.
pub record Timer : Type 0 where
  pub jiffies : ℕ
  pub vec : Level → ℕ → List Entry

-- `tlibc_timer_init`
unfoldable pub init : Timer
init = record { jiffies = 0; vec = λ l i. [] }

abbrev pub put_slot : (Level → ℕ → List Entry) → Level → ℕ → List Entry → Level → ℕ → List Entry
put_slot v l i xs l' i' = if same l l' && (i == i') then xs else v l' i'

-- A slot: the vector and the index in it.
pub record Slot : Type 0 where
  pub level : Level
  pub index : ℕ

-- The slot of a time: the time over the ticks of a slot, masked.
abbrev pub slot_of : Level → ℕ → Slot
slot_of l t = record { level = l; index = t / unit_of l % slots l }

-- Where `tlibc_timer_push` puts an entry that expires at a time.
unfoldable pub place : ℕ → ℕ → Slot
place jiffies expires =
    let idx = expires - jiffies in
    if leb expires jiffies
    then slot_of tv1 jiffies
    else if ltb idx 256
    then slot_of tv1 expires
    else if ltb idx 16384
    then slot_of tv2 expires
    else if ltb idx 1048576
    then slot_of tv3 expires
    else if ltb idx 67108864
    then slot_of tv4 expires
    else if ltb max_tval idx
    then slot_of tv5 ((max_tval + jiffies) % u64_mod)
    else slot_of tv5 expires

-- `tlibc_timer_push`
unfoldable pub push : Timer → Entry → Timer
push self e =
    let s = place self.jiffies e.expires in
    record self { vec = put_slot self.vec s.level s.index (e ∷ self.vec s.level s.index) }

unfoldable pub push_all : Timer → List Entry → Timer
push_all self [] = self
push_all self (e ∷ es) = push_all (push self e) es

-- `cascade`: the entries of a slot are pushed again.
unfoldable pub cascade : Timer → Level → ℕ → Timer
cascade self l i = push_all (record self { vec = put_slot self.vec l i [] }) (self.vec l i)

-- `INDEX` for the vector
abbrev pub index : Level → ℕ → ℕ
index l jiffies = jiffies / unit_of l % slots l

-- The cascades of a tick: of the next vector only if the index in this one is 0.
unfoldable pub cascade_from : List Level → Timer → Timer
cascade_from [] self = self
cascade_from (l ∷ ls) self =
    let cascaded = cascade self l (index l self.jiffies) in
    let rest = cascade_from ls cascaded in if index l self.jiffies == 0 then rest else cascaded

unfoldable pub cascade_all : Timer → Timer
cascade_all self =
    if index tv1 self.jiffies == 0 then cascade_from (tv2 ∷ tv3 ∷ tv4 ∷ tv5 ∷ []) self else self

-- What a tick does: the code that it returns, and the entries whose callbacks it calls, in order.
pub record Ticked : Type 0 where
  pub ret : ErrorCode
  pub self : Timer
  pub fired : List Entry

-- The loop over the slot `i` of the first vector. A callback may push entries: `armed` are those
-- that the callback of an entry pushes when `jiffies` has a value. `none` if the fuel runs out.
unfoldable pub fire : ℕ → (Entry → ℕ → List Entry) → ℕ → Timer → Option (Timer × List Entry)
fire zero armed i self = none
fire (suc fuel) armed i self = elim (self.vec tv1 i) [
  | [] ↦ some (self, [])
  | e ∷ es ↦
      (elim (fire fuel armed i
        (push_all (record self { vec = put_slot self.vec tv1 i es }) (armed e self.jiffies))) [
          | none ↦ none
          | some r ↦ some (r.0, e ∷ r.1)
        ])
]

abbrev pub code_of : List Entry → ErrorCode
code_of [] = would_block
code_of (e ∷ es) = noerror

-- `tlibc_timer_tick`
unfoldable pub tick : ℕ → (Entry → ℕ → List Entry) → Timer → Option Ticked
tick fuel armed self =
    let i = index tv1 self.jiffies in
    let cascaded = cascade_all self in
    let next = record cascaded { jiffies = (cascaded.jiffies + 1) % u64_mod } in
    elim (fire fuel armed i next) [
      | none ↦ none
      | some r ↦ some (record { ret = code_of (next.vec tv1 i); self = r.0; fired = r.1 })
    ]
