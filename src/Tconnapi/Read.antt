-- ===== src/Tconnapi/Read.antt =====
-- What a server sees of the messages that tconnd writes.
use mathlib.Core.Option
use tsf4g.Prelude.{
  ℕ, zero, suc, ◌<◌, ◌≡◌, refl, sym, ◌∙◌, ap, List, [], ◌∷◌, ◌++◌, append-nil, map, some, arith,
  length, length-append, take-length, u32_mod, u64_mod, ◌==◌, false, ◌%◌,
}
use tsf4g.Frames.{frame, stream, AreShort}
use tsf4g.Frames.Streams.{drop-append, take-append, word16-frame, length-frame}
use tsf4g.Sip.{
  Req, Cid, ReqInRange, encode_req, cmd_connect, cmd_recv, decode-encode_req, drop-encode_req,
  length-encode_req,
}
use tsf4g.Tconnd.Notice.{Notice, connect, disconnect, arrived, message}
use tsf4g.Tconnapi.{
  Event, connected, disconnected, packet, packets_loop, packets_of, on_recv, handle,
}

packets_loop-frame :
    (fuel : ℕ) (p t : List ℕ)
    → length p < 65536
    → packets_loop (suc fuel) (frame p ++ t) ≡ Option.map (λ ps. p ∷ ps) (packets_loop fuel t)
unfolding packets_loop frame
packets_loop-frame fuel p t h =
    let e = word16-frame p t h in
    rw (e, drop-append p t, take-append p t, length-append p t) (ground arith)

packets_loop_lem :
    (fuel : ℕ) (ps : List (List ℕ))
    → AreShort ps
    → length (stream ps) < fuel
    → packets_loop fuel (stream ps) ≡ some ps
unfolding stream
packets_loop_lem zero ps s h = absurd (omega arith)
packets_loop_lem (suc fuel) [] s h = unfold packets_loop in refl
packets_loop_lem (suc fuel) (p ∷ ps) s h =
    packets_loop-frame fuel p (stream ps) s.0
    ∙ ap (Option.map (λ qs. p ∷ qs)) (
        packets_loop_lem fuel ps s.1
          (omega (arith, length-append (frame p) (stream ps), length-frame p)))

-- The packets of a body that tconnd cut are found as they are.
pub packets_of-stream : (ps : List (List ℕ)) → AreShort ps → packets_of (stream ps) ≡ some ps
packets_of-stream ps s = packets_loop_lem (suc (length (stream ps))) ps s (omega arith)

on_recv-encode :
    (r : Req) (bs : List ℕ)
    → ReqInRange r
    → r.size ≡ length bs
    → on_recv (encode_req r ++ bs) ≡ handle r bs
unfolding on_recv
on_recv-encode r bs h e =
    rw (decode-encode_req r bs h, drop-encode_req r bs)
      (ground (arith, length-append (encode_req r) bs, length-encode_req r))

pub record CidInRange (c : Cid) : Type 0 where
  pub sn_in : c.sn < u64_mod
  pub id_in : c.id < u32_mod

on_recv_empty :
    (cmd : ℕ) (cid : Cid)
    → cmd < u32_mod
    → CidInRange cid
    → on_recv (encode_req (record { cmd = cmd; size = 0; cid = cid }))
      ≡ handle (record { cmd = cmd; size = 0; cid = cid }) []
on_recv_empty cmd cid h c =
    let r : Req = record { cmd = cmd; size = 0; cid = cid } in
    ap on_recv (sym (append-nil (encode_req r)))
    ∙ on_recv-encode r []
        (record { cmd_in = h; size_in = omega arith; sn_in = c.sn_in; id_in = c.id_in }) refl

handle_arrived :
    (cid : Cid) (ps : List (List ℕ)) (bs : List ℕ)
    → bs ≡ stream ps
    → AreShort ps
    → 0 < length bs
    → handle (record { cmd = cmd_recv; size = length bs; cid = cid }) bs
      ≡ some (map (packet cid) ps)
unfolding handle
handle_arrived cid ps bs e s z =
    let some_size : (length bs == 0) ≡ false = ground arith in
    rw (some_size, take-length bs)
      (ap (λ b. Option.map (map (packet cid)) (packets_of b)) e
        ∙ ap (Option.map (map (packet cid))) (packets_of-stream ps s))

-- What a notice says, as calls of the server's callbacks: data is the packets in it.
pub data Says (cid : Cid) : Notice → List Event → Type 0 where
  connects : Says cid connect (connected cid ∷ [])
  disconnects : Says cid disconnect (disconnected cid ∷ [])
  arrives :
      (ps : List (List ℕ)) (bs : List ℕ)
      → bs ≡ stream ps
      → AreShort ps
      → 0 < length bs
      → length bs < u32_mod
      → Says cid (arrived bs) (map (packet cid) ps)

-- A message of tconnd reaches the server as what it says: a connection as one, an end as one, and
-- data as its packets, each once and in order.
pub on_recv-message :
    {cid : Cid} {n : Notice} {es : List Event}
    → CidInRange cid
    → Says cid n es
    → on_recv (message cid n) ≡ some es
unfolding message
on_recv-message {cid} c connects =
    on_recv_empty cmd_connect cid (omega arith) c ∙ (unfold handle in refl)
on_recv-message {cid} c disconnects =
    on_recv_empty cmd_recv cid (omega arith) c ∙ (unfold handle in refl)
on_recv-message {cid} c (arrives ps bs e s z h) =
    let small : length bs % u32_mod ≡ length bs = omega arith in
    let r : Req = record { cmd = cmd_recv; size = length bs; cid = cid } in
    rw small (
      on_recv-encode r bs
        (record { cmd_in = omega arith; size_in = h; sn_in = c.sn_in; id_in = c.id_in }) refl
      ∙ handle_arrived cid ps bs e s z)
