-- ===== src/Socketapi/Kept.antt =====
-- What stays in `recvbuf` between the reads of `socketapi_process`.
use tsf4g.Prelude.{
  ℕ, zero, suc, ◌+◌, ◌-◌, ◌≤◌, ◌<◌, ◌≡◌, refl, sym, ◌∙◌, ap, subst, inl, inr, List, [], ◌∷◌, ◌++◌,
  append-nil, append_assoc, Option, some, none, arith, length, length-append, take, drop,
  length-drop-bound, ◌⊎◌, true, false, leb, Bool-cases,
}
use tsf4g.Errors.{noerror, would_block}
use tsf4g.Frames.{word16, body, stream, IsPartial, AreShort}
use tsf4g.Frames.Streams.{stream-append, AreShort-append}
use tsf4g.Socketapi.{
  Socketapi, Recv, eagain, eintr, failed, got, Looped, called, packets_loop, keep_rest, torn_bytes,
  Processed, conclude, deliver, on_read, process, recvbuf_max, close,
}
use tsf4g.Socketapi.Deliver.{process-called, process-kept, kept, left_over, left_over_lem}

length-torn_bytes : (torn : ℕ → ℕ) (n : ℕ) → length (torn_bytes torn n) ≡ n
unfolding torn_bytes
length-torn_bytes torn zero = refl
length-torn_bytes torn (suc n) = omega (arith, length-torn_bytes torn n)

length-keep_rest :
    (torn : ℕ → ℕ) (bs : List ℕ) (last : Option ℕ) → length (keep_rest torn bs last) ≤ length bs
unfolding keep_rest
length-keep_rest torn bs none = omega arith
length-keep_rest torn bs (some l) =
    ground (arith, length-drop-bound l bs, length-torn_bytes torn (length bs - l))

-- The call returns, and then no more bytes are kept than `recvbuf` has.
abbrev pub IsBounded : Option Processed → Type 0
IsBounded none = ⊥
IsBounded (some p) = length p.self.recvbuf ≤ recvbuf_max

-- The kernel reads no more bytes than it is asked for.
abbrev pub Obeys : (ℕ → Recv) → Type 0
Obeys kernel = (n : ℕ) (b : List ℕ) → kernel n ≡ got b → length b ≤ n

called-some :
    (p : List ℕ) {o : Option Looped}
    → (l : Looped) × (o ≡ some l)
    → (l : Looped) × (called p o ≡ some l)
called-some p (l, e) = (record { calls = p ∷ l.calls; last = l.last }, ap (called p) e)

body-shorter : (bs : List ℕ) → leb 2 (length bs) ≡ true → length (body bs) < length bs
body-shorter [] h = absurd (ground arith)
body-shorter (a ∷ []) h = absurd (ground arith)
body-shorter (a ∷ b ∷ bs) h = omega arith

loop_step :
    (fuel : ℕ) (bs : List ℕ) (off : ℕ) (last : Option ℕ)
    → leb 2 (length bs) ≡ true
    → leb (word16 bs) (length (body bs)) ≡ true
    → packets_loop (suc fuel) bs off last
      ≡ called (take (word16 bs) (body bs)) (
          packets_loop fuel
            (drop (word16 bs) (body bs))
            (off + (2 + word16 bs))
            (some (off + (2 + word16 bs))))
unfolding packets_loop
loop_step fuel bs off last h k = ground arith

loop_stop :
    (fuel : ℕ) (bs : List ℕ) (off : ℕ) (last : Option ℕ)
    → (leb 2 (length bs) ≡ false) ⊎ (leb (word16 bs) (length (body bs)) ≡ false)
    → packets_loop (suc fuel) bs off last ≡ some (record { calls = []; last = last })
unfolding packets_loop
loop_stop fuel bs off last (inl h) = ground arith
loop_stop fuel bs off last (inr h) = ground arith

-- The fuel is enough for any bytes.
packets_loop-some :
    (fuel : ℕ) (bs : List ℕ) (off : ℕ) (last : Option ℕ)
    → length bs < fuel
    → (l : Looped) × (packets_loop fuel bs off last ≡ some l)
packets_loop-some zero bs off last h = absurd (omega arith)
packets_loop-some (suc fuel) bs off last h = elim (Bool-cases (leb 2 (length bs))) [
  | inr few ↦ (record { calls = []; last = last }, loop_stop fuel bs off last (inl few))
  | inl long ↦ elim (Bool-cases (leb (word16 bs) (length (body bs)))) [
    | inr over ↦ (record { calls = []; last = last }, loop_stop fuel bs off last (inr over))
    | inl whole ↦
        let next = off + (2 + word16 bs) in
        let (l, e) = called-some (take (word16 bs) (body bs)) (
          packets_loop-some fuel (drop (word16 bs) (body bs)) next (some next)
            (omega (arith, body-shorter bs long, length-drop-bound (word16 bs) (body bs)))) in
        (l, loop_step fuel bs off last long whole ∙ e)
  ]
]

deliver-bound :
    (torn : ℕ → ℕ) (fd : Option ℕ) (bs : List ℕ)
    → length bs ≤ recvbuf_max
    → IsBounded (deliver torn fd bs)
unfolding deliver conclude
deliver-bound torn fd bs h =
    let (l, e) = packets_loop-some (suc (length bs)) bs 0 none (omega arith) in
    rw (deliver, e) (omega (arith, length-keep_rest torn bs l.last))

on_read-bound :
    (torn : ℕ → ℕ) (self : Socketapi) (r : Recv)
    → length self.recvbuf ≤ recvbuf_max
    → ((b : List ℕ) → r ≡ got b → length b ≤ recvbuf_max - length self.recvbuf)
    → IsBounded (on_read torn self r)
unfolding on_read close
on_read-bound torn self eagain h o = h
on_read-bound torn self eintr h o = h
on_read-bound torn self failed h o = h
on_read-bound torn self (got b) h o =
    let fits = o b refl in
    deliver-bound torn self.socket_fd (self.recvbuf ++ b)
      (omega (arith, fits, h, length-append self.recvbuf b))

-- `socketapi_process` returns whatever bytes it reads, and keeps no more bytes than `recvbuf` has,
-- if it held no more before and the kernel reads no more than it is asked for.
pub process-bound :
    (torn : ℕ → ℕ) (self : Socketapi) (kernel : ℕ → Recv)
    → length self.recvbuf ≤ recvbuf_max
    → Obeys kernel
    → IsBounded (process torn self kernel)
unfolding process
process-bound torn self kernel h o =
    elim self.socket_fd
      as (λ x. IsBounded (elim x [
        | none ↦ some (record { ret = would_block; self = self; calls = [] })
        | some fd ↦ on_read torn self (kernel (recvbuf_max - length self.recvbuf))
      ])) [
        | none ↦ h
        | some fd ↦
            on_read-bound torn self (kernel (recvbuf_max - length self.recvbuf)) h
              (o (recvbuf_max - length self.recvbuf))
      ]

-- If a read ends behind a whole packet, the next one calls the client with the packets of both; it
-- then keeps the partial packet behind them, or all the packets if there is none. What it keeps is not
-- known if the partial packet is longer than the packets in front of it.
pub process-again :
    (torn : ℕ → ℕ) (fd : ℕ) (p : List ℕ) (ps qs : List (List ℕ)) (r : List ℕ)
    (first second : ℕ → Recv)
    → AreShort (p ∷ ps)
    → AreShort qs
    → IsPartial r
    → first recvbuf_max ≡ got (stream (p ∷ ps))
    → second (recvbuf_max - length (stream (p ∷ ps))) ≡ got (stream qs ++ r)
    → (mid : Socketapi) × (bs : List ℕ) × (process torn
          (record { socket_fd = some fd; recvbuf = [] })
          first
        ≡ some (record { ret = noerror; self = mid; calls = p ∷ ps }))
      × (process torn mid second
          ≡ some (record {
            ret = noerror;
            self = record { socket_fd = some fd; recvbuf = bs };
            calls = (p ∷ ps) ++ qs;
          }))
      × (length r ≤ length (stream ((p ∷ ps) ++ qs)) → bs ≡ kept ((p ∷ ps) ++ qs) r)
unfolding kept
process-again torn fd p ps qs r first second s t i e f =
    let mid : Socketapi = record { socket_fd = some fd; recvbuf = stream (p ∷ ps) } in
    let both = (p ∷ ps) ++ qs in
    (
      mid,
      left_over torn both r,
      process-kept torn (record { socket_fd = some fd; recvbuf = [] }) fd first (stream (p ∷ ps))
          (p ∷ ps) [] refl (subst (λ n. first n ≡ got (stream (p ∷ ps))) (omega arith) e)
          (sym (append-nil (stream (p ∷ ps)))) s (inl (omega arith)) (inr (omega arith)),
      process-called torn mid fd second (stream qs ++ r) both r refl f
          (sym (append_assoc (stream (p ∷ ps)) (stream qs) r)
            ∙ ap (λ w. w ++ r) (sym (stream-append (p ∷ ps) qs)))
          (AreShort-append (p ∷ ps) qs s t) i,
      λ h. left_over_lem torn both r (inr h),
    )
