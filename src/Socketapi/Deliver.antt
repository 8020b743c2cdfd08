-- ===== src/Socketapi/Deliver.antt =====
-- What `socketapi_process` hands to the client, and what it keeps for the next read.
use tsf4g.Prelude.{
  ℕ, zero, suc, ◌+◌, ◌-◌, ◌≤◌, ◌<◌, ◌⊎◌, ◌≡◌, refl, ◌∙◌, ap, inl, inr, List, [], ◌∷◌, ◌++◌,
  append-nil, append_assoc, Option, some, none, arith, length, length-append,
}
use tsf4g.Errors.{noerror}
use tsf4g.Frames.{frame, stream, IsPartial, AreShort}
use tsf4g.Frames.Streams.{drop-append, take-append, word16-frame, length-frame}
use tsf4g.Socketapi.{
  Socketapi, Recv, got, called, packets_loop, keep_rest, conclude, deliver, on_read, process,
  recvbuf_max,
}

packets_loop-IsPartial :
    (fuel : ℕ) (r : List ℕ) (off : ℕ) (last : Option ℕ)
    → IsPartial r
    → packets_loop (suc fuel) r off last ≡ some (record { calls = []; last = last })
unfolding packets_loop
packets_loop-IsPartial fuel r off last (inl h) = ground arith
packets_loop-IsPartial fuel r off last (inr h) = ground arith

packets_loop-frame :
    (fuel : ℕ) (p t : List ℕ) (off : ℕ) (last : Option ℕ)
    → length p < 65536
    → packets_loop (suc fuel) (frame p ++ t) off last
      ≡ called p (packets_loop fuel t (off + (2 + length p)) (some (off + (2 + length p))))
unfolding packets_loop frame
packets_loop-frame fuel p t off last h =
    let e = word16-frame p t h in
    rw (e, drop-append p t, take-append p t, length-append p t) (ground arith)

-- Where `last` stands, for the packets behind an offset.
abbrev last_of : List (List ℕ) → ℕ → Option ℕ → Option ℕ
last_of [] off last = last
last_of (p ∷ ps) off last = some (off + length (stream (p ∷ ps)))

last_of-next :
    (p : List ℕ) (ps : List (List ℕ)) (off : ℕ) (last : Option ℕ)
    → last_of ps (off + (2 + length p)) (some (off + (2 + length p))) ≡ last_of (p ∷ ps) off last
unfolding stream
last_of-next p [] off last = ap some (omega (arith, length-append (frame p) [], length-frame p))
last_of-next p (q ∷ qs) off last =
    ap some (omega (arith, length-append (frame p) (frame q ++ stream qs), length-frame p))

packets_loop_lem :
    (fuel : ℕ) (ps : List (List ℕ)) (r : List ℕ) (off : ℕ) (last : Option ℕ)
    → AreShort ps
    → IsPartial r
    → length (stream ps ++ r) < fuel
    → packets_loop fuel (stream ps ++ r) off last
      ≡ some (record { calls = ps; last = last_of ps off last })
unfolding stream
packets_loop_lem zero ps r off last s i h = absurd (omega arith)
packets_loop_lem (suc fuel) [] r off last s i h = packets_loop-IsPartial fuel r off last i
packets_loop_lem (suc fuel) (p ∷ ps) r off last s i h =
    let next = off + (2 + length p) in
    ap (λ t. packets_loop (suc fuel) t off last) (append_assoc (frame p) (stream ps) r)
    ∙ packets_loop-frame fuel p (stream ps ++ r) off last s.0
    ∙ ap (called p) (
        packets_loop_lem fuel ps r next (some next) s.1 i (
          omega (
            arith,
            length-append (frame p ++ stream ps) r,
            length-append (frame p) (stream ps),
            length-append (stream ps) r,
            length-frame p,
          )))
    ∙ ap (λ l. some (record { calls = p ∷ ps; last = l })) (last_of-next p ps off last)

-- What is kept behind whole packets: the partial one, if there is one. Otherwise the packets stay.
unfoldable pub kept : List (List ℕ) → List ℕ → List ℕ
kept ps [] = stream ps
kept ps (b ∷ bs) = b ∷ bs

-- The copy of the rest, if there is one, does not overlap itself.
abbrev pub IsApart : List (List ℕ) → List ℕ → Type 0
IsApart ps r = (ps ≡ []) ⊎ (length r ≤ length (stream ps))

keep_rest-append :
    (torn : ℕ → ℕ) (w : List ℕ) (b : ℕ) (bs : List ℕ) (n : ℕ)
    → n ≡ length w
    → length (b ∷ bs) ≤ length w
    → keep_rest torn (w ++ (b ∷ bs)) (some n) ≡ b ∷ bs
unfolding keep_rest
keep_rest-append torn w b bs n e h =
    rw (keep_rest, e, drop-append w (b ∷ bs), length-append w (b ∷ bs)) (ground (arith, h))

keep_rest-whole :
    (torn : ℕ → ℕ) (w : List ℕ) (n : ℕ) → n ≡ length w → keep_rest torn (w ++ []) (some n) ≡ w
unfolding keep_rest
keep_rest-whole torn w n e = rw (append-nil w) (ground arith)

-- What the buffer holds behind a call.
abbrev pub left_over : (ℕ → ℕ) → List (List ℕ) → List ℕ → List ℕ
left_over torn ps r = keep_rest torn (stream ps ++ r) (last_of ps 0 none)

pub left_over_lem :
    (torn : ℕ → ℕ) (ps : List (List ℕ)) (r : List ℕ)
    → IsApart ps r
    → left_over torn ps r ≡ kept ps r
unfolding kept
left_over_lem torn [] [] a = unfold stream keep_rest in refl
left_over_lem torn [] (b ∷ bs) a = unfold stream keep_rest in refl
left_over_lem torn (p ∷ ps) [] a =
    keep_rest-whole torn (stream (p ∷ ps)) (0 + length (stream (p ∷ ps))) (omega arith)
left_over_lem torn (p ∷ ps) (b ∷ bs) (inl e) = absurd (ground arith)
left_over_lem torn (p ∷ ps) (b ∷ bs) (inr h) =
    keep_rest-append torn (stream (p ∷ ps)) b bs (0 + length (stream (p ∷ ps))) (omega arith) h

deliver_lem :
    (torn : ℕ → ℕ) (fd : Option ℕ) (ps : List (List ℕ)) (r : List ℕ)
    → AreShort ps
    → IsPartial r
    → deliver torn fd (stream ps ++ r)
      ≡ some (record {
        ret = noerror;
        self = record { socket_fd = fd; recvbuf = left_over torn ps r };
        calls = ps;
      })
unfolding deliver conclude
deliver_lem torn fd ps r s i =
    let loop = packets_loop_lem (suc (length (stream ps ++ r))) ps r 0 none s i (omega arith) in
    rw (deliver, loop) refl

-- Every whole packet is handed out, whatever the copy of the rest does.
pub process-called :
    (torn : ℕ → ℕ) (self : Socketapi) (fd : ℕ) (kernel : ℕ → Recv) (b : List ℕ) (ps : List (List ℕ))
    (r : List ℕ)
    → self.socket_fd ≡ some fd
    → kernel (recvbuf_max - length self.recvbuf) ≡ got b
    → self.recvbuf ++ b ≡ stream ps ++ r
    → AreShort ps
    → IsPartial r
    → process torn self kernel
      ≡ some (record {
        ret = noerror;
        self = record { socket_fd = some fd; recvbuf = left_over torn ps r };
        calls = ps;
      })
unfolding process on_read
process-called torn self fd kernel b ps r is_open read whole s i =
    rw (process, is_open, read, on_read, is_open, whole) (deliver_lem torn (some fd) ps r s i)

-- A read that reaches the client calls it with every whole packet that is in the buffer then, in
-- order. The partial packet behind them is kept; if there is none, the packets stay in the buffer.
-- The partial packet, if there is one to be moved, is no longer than the packets in front of it.
pub process-kept :
    (torn : ℕ → ℕ) (self : Socketapi) (fd : ℕ) (kernel : ℕ → Recv) (b : List ℕ) (ps : List (List ℕ))
    (r : List ℕ)
    → self.socket_fd ≡ some fd
    → kernel (recvbuf_max - length self.recvbuf) ≡ got b
    → self.recvbuf ++ b ≡ stream ps ++ r
    → AreShort ps
    → IsPartial r
    → IsApart ps r
    → process torn self kernel
      ≡ some (record {
        ret = noerror;
        self = record { socket_fd = some fd; recvbuf = kept ps r };
        calls = ps;
      })
process-kept torn self fd kernel b ps r is_open read whole s i a =
    process-called torn self fd kernel b ps r is_open read whole s i
    ∙ ap
        (λ (k : List ℕ). some (record {
          ret = noerror;
          self = record { socket_fd = some fd; recvbuf = k };
          calls = ps;
        }))
        (left_over_lem torn ps r a)
