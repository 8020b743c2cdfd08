-- ===== src/Tests/TbusTests.antt =====
-- tbus and tbusapi at concrete rings.
use tsf4g.Prelude.{
  ◌<◌, u32_mod, subst, sym, take, drop, leb, ltb, ◌==◌, if◌then◌else◌, ℕ, ◌+◌, ◌≤◌, ◌≡◌, ◌≢◌, refl,
  true, List, [], ◌∷◌, ◌++◌, some, none, arith, Memory, length, store_bytes, store_bytes-ne,
  write_byte, write_u32, read_u32, slice, ◌⊎◌,
}
use tsf4g.Tbus.{
  Tbus, Grant, granted, Reading, init, send_begin, send_begin_fuel, send_end, read_begin,
  read_lower, read_end, peek, header_size,
}
use tsf4g.Tbus.Position.{IsBounded, Position}
use tsf4g.Tbus.Release.{resume, packets}
use tsf4g.Tbus.Channel.{
  Channel, Label, silent, sent, taken, Step, begin, fill, finish, look, leave, Run, here, next,
  Holds, Moves,
}
use tsf4g.Tbus.Channel.Fifo.{fresh, Run-fifo, sents, takens, fresh-Holds}
use tsf4g.Tbus.Channel.Steps.{Step-Holds, begin-Holds, fill-Holds, finish-Holds}
use tsf4g.Tbus.Channel.Progress.{read_all, sender_served}
use tsf4g.Tbus.Peek.{IsSound, peek-IsSound}
use tsf4g.Tbus.Send.{begun, send_begin_lem}
use tsf4g.Errors.{ErrorCode, noerror, would_block}
use tsf4g.Tbusapi.{Tbusapi, OnRecv, Encoder, KeepsTo, recviov, max_iov_num, process, send}
use tsf4g.Tbusapi.Deliver.{deliver}
use tsf4g.Tbusapi.Process.{process_lem}
use tsf4g.Tbusapi.Transmit.{after, send_lem}

abbrev pub blank : Memory
blank i = 0

-- Two packets of eight bytes fit.
abbrev pub empty_ring : Channel
empty_ring = record {
  bus = record { head_offset = 0; tail_offset = 0; packet_size = 16; size = 32; buff = blank };
  grant = none;
  lease = none;
}

fresh-empty_ring : fresh blank 8 2 ≡ empty_ring
unfolding init
fresh-empty_ring = refl

-- A ring with room for messages to the server.
abbrev pub wide_ring : Channel
wide_ring = record {
  bus = record { head_offset = 0; tail_offset = 0; packet_size = 64; size = 128; buff = blank };
  grant = none;
  lease = none;
}

fresh-wide_ring : fresh blank 56 2 ≡ wide_ring
unfolding init
fresh-wide_ring = refl

pub wide_ring-Holds : Holds wide_ring []
wide_ring-Holds =
    subst (λ c. Holds c []) fresh-wide_ring (fresh-Holds blank 56 2 (omega arith) (omega arith))

abbrev begun_ring : Channel
begun_ring = record empty_ring { grant = some (granted 0 32) }

abbrev filled : Memory
filled = store_bytes blank 8 (7 ∷ 9 ∷ [])

abbrev filled_ring : Channel
filled_ring = record begun_ring { bus = record begun_ring.bus { buff = filled } }

abbrev sent_ring : Channel
sent_ring = record filled_ring { bus = send_end filled_ring.bus 2; grant = none }

abbrev one_entry : Reading
one_entry = record { head = 10; iov = record { base = 8; len = 2 } ∷ [] }

abbrev lent_ring : Channel
lent_ring = record sent_ring { lease = some one_entry }

abbrev read_ring : Channel
read_ring = record lent_ring { bus = read_end lent_ring.bus 10; lease = none }

abbrev history : List Label
history =
    []
    ++ silent ∷ []
    ++ silent ∷ []
    ++ sent (7 ∷ 9 ∷ []) ∷ []
    ++ silent ∷ []
    ++ taken ((7 ∷ 9 ∷ []) ∷ []) ∷ []

Step-begin : Step empty_ring silent begun_ring
unfolding send_begin send_begin_fuel
Step-begin = begin empty_ring.bus (granted 0 32) refl

Step-fill : Step begun_ring silent filled_ring
Step-fill =
    fill (granted 0 32) 8 filled refl refl
      (λ i h. store_bytes-ne blank 8 (7 ∷ 9 ∷ []) i (omega arith))

Step-finish : Step filled_ring (sent (7 ∷ 9 ∷ [])) sent_ring
unfolding store_bytes slice write_byte
Step-finish =
    finish (granted 0 32) 8 2 (7 ∷ 9 ∷ []) sent_ring.bus refl refl (omega arith) (omega arith) refl
      refl

Step-look : Step sent_ring silent lent_ring
unfolding store_bytes write_u32 read_u32 send_end read_begin peek
Step-look = look 5 one_entry refl

Step-leave : Step lent_ring (taken ((7 ∷ 9 ∷ []) ∷ [])) read_ring
unfolding store_bytes slice write_u32 send_end resume
Step-leave = leave one_entry 1 ((7 ∷ 9 ∷ []) ∷ []) read_ring.bus refl (omega arith) refl refl

Run-history : Run empty_ring history read_ring
Run-history =
    next (next (next (next (next here Step-begin) Step-fill) Step-finish) Step-look) Step-leave

Run-fifo_example :
    (ps : List (List ℕ)) × Holds read_ring ps × (sents history ≡ takens history ++ ps)
Run-fifo_example =
    Run-fifo blank 8 2 (omega arith) (omega arith)
      (subst (λ c. Run c history read_ring) (sym fresh-empty_ring) Run-history)

fresh-Holds_example : Holds (fresh blank 8 2) []
fresh-Holds_example = fresh-Holds blank 8 2 (omega arith) (omega arith)

pub empty_ring-Holds : Holds empty_ring []
empty_ring-Holds =
    subst (λ c. Holds c []) fresh-empty_ring (fresh-Holds blank 8 2 (omega arith) (omega arith))

Step-Holds_example : (qs : List (List ℕ)) × Moves [] silent qs × Holds begun_ring qs
Step-Holds_example = Step-Holds [] Step-begin empty_ring-Holds

abbrev packet : List ℕ
packet = 7 ∷ 9 ∷ []

sent_ring-Holds : Holds sent_ring (packet ∷ [])
unfolding store_bytes slice write_byte send_begin send_begin_fuel
sent_ring-Holds =
    finish-Holds filled_ring [] (granted 0 32) 8 2 refl refl (omega arith) (omega arith) (
      fill-Holds begun_ring [] (granted 0 32) 8 filled refl refl
        (λ i h. store_bytes-ne blank 8 (7 ∷ 9 ∷ []) i (omega arith))
        (begin-Holds empty_ring [] empty_ring.bus (granted 0 32) refl empty_ring-Holds))

read_all_example :
    (r : Reading) × (read_begin sent_ring.bus 5 ≡ some r)
    × (packets sent_ring.bus.buff r.iov ≡ packet ∷ [])
read_all_example = read_all sent_ring (packet ∷ []) 5 sent_ring-Holds (omega arith)

sender_served_example :
    (t : Tbus) × (g : Grant) × (send_begin (read_end empty_ring.bus 0) ≡ some (t, g))
    × (g.buf ≢ none)
unfolding send_begin send_begin_fuel read_begin read_lower peek
sender_served_example =
    sender_served empty_ring 5 empty_ring.bus (granted 0 32) (record { head = 0; iov = [] })
      empty_ring-Holds (omega arith) refl refl

-- A header that claims more bytes than there are.
abbrev broken : Memory
broken = write_u32 (write_u32 blank 0 1) 4 100

peek-IsSound_example : IsSound 0 32 5 (peek 40 broken 0 32 5)
peek-IsSound_example = peek-IsSound 40 broken 0 32 5 (omega arith) (omega arith)

peek-broken : peek 40 broken 0 32 5 ≡ some (record { ret = none; iov = [] })
unfolding peek write_u32 read_u32
peek-broken = refl

send_begin_lem_example : send_begin sent_ring.bus ≡ some (begun sent_ring.bus)
send_begin_lem_example = send_begin_lem sent_ring.bus

-- A client that keeps the packets that it is shown, the last one first.
abbrev keep : OnRecv (List (List ℕ))
keep s p = (true, p ∷ s)

abbrev api : Tbusapi (List (List ℕ))
api = record {
  itb = sent_ring.bus;
  otb = empty_ring.bus;
  on_recviov = some (recviov (some keep));
  iov_num = max_iov_num;
}

process_lem_example :
    let out = deliver keep [] (take max_iov_num (packet ∷ [])) in
    (tb : Tbus) × (code : ErrorCode) × (process api []
      ≡ some (record api { itb = tb }, code, out.1))
    × IsBounded tb
    × Position tb tb.head_offset (drop out.0 (packet ∷ []))
    × (take max_iov_num (packet ∷ []) ≢ [] → code ≡ (if out.0 == 0 then would_block else noerror))
    × (take max_iov_num (packet ∷ []) ≡ []
        → code ≡ (if tb.head_offset == api.itb.head_offset then would_block else noerror))
process_lem_example =
    process_lem api keep [] (packet ∷ []) sent_ring-Holds.bounded sent_ring-Holds.queue refl
      (omega arith)

-- An encoder that copies bytes, if there is room for all.
abbrev pub copy : Encoder (List ℕ)
copy d room =
    if leb (length d) room
    then record { bytes = d; size = length d }
    else record { bytes = []; size = 0 }

pub copy-KeepsTo : KeepsTo copy
copy-KeepsTo = record { within = λ d room. ground arith; wrote = λ d room. ground arith }

send_lem_example :
    (room : ℕ) × (tb : Tbus) × ((room ≡ 0) ⊎ (16 ≤ room + header_size))
    × (room < u32_mod)
    × (send copy api packet ≡ some (record api { otb = tb }, ltb 0 (copy packet room).size))
    × IsBounded tb
    × Position tb tb.head_offset (after [] (copy packet room))
send_lem_example =
    send_lem copy api packet [] copy-KeepsTo empty_ring-Holds.bounded empty_ring-Holds.queue
