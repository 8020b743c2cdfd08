-- ===== src/Tconnapi/Respond/Sending.antt =====
-- tconnapi/source/tconnapi.c, `tconnapi_send`, `tconnapi_accept` and `tconnapi_close`: from a call of
-- the server to the connections.
use mathlib.Core.Option
use tsf4g.Prelude.{
  ℕ, ◌<◌, ◌≡◌, ap, subst, inl, inr, Bool, Option, some, List, [], ◌∷◌, ◌++◌, arith, length, take,
  ltb, if◌then◌else◌, Bool-cases, ◌==◌, u16_mod, u32_mod,
}
use tsf4g.Sip.{cmd_send}
use tsf4g.Sip.Responses.{CidsInRange}
use tsf4g.Tbus.Position.{IsBounded, Position}
use tsf4g.Tbusapi.{Tbusapi, Encoder, KeepsTo}
use tsf4g.Tbusapi.Transmit.{send-begun}
use tsf4g.Tbus.{header_size}
use tsf4g.Tbus.Send.{begun}
use tsf4g.Prelude.{◌+◌, ◌≤◌, ◌⊎◌}
use tsf4g.Tconnd.{Kernel}
use tsf4g.Tconnd.Input.{Input, all_cids, all_messages}
use tsf4g.Tconnapi.Respond.{Response, encode_response, respond}
use tsf4g.Tconnapi.Respond.Broadcast.{
  body_of, encode_response-KeepsTo, encode_response-all_messages,
}

-- A message that tconnd takes as a response with some bytes for a body.
abbrev pub Carries : {D W : Type 0} → Kernel W → Response D → List ℕ → List ℕ → Type 0
Carries {D} {W} kernel rsp body m =
    (s : Input W) (ms : List (List ℕ))
    → all_messages kernel s (m ∷ ms)
      ≡ all_messages kernel
          (all_cids kernel rsp.cmd (if rsp.cmd == cmd_send then body else []) s rsp.cid_vec) ms

-- What a call leaves in the ring when it has granted some room: what was there, if the response comes
-- to no bytes in that room, or one message more, which carries the response.
pub data Responded {S D W : Type 0} (kernel : Kernel W) (encode : Encoder D) (rsp : Response D)
    (ps : List (List ℕ)) (room : ℕ) : Tbusapi S → Type 0 where
  nothing_sent :
      {self : Tbusapi S}
      → (encode_response encode rsp room).size ≡ 0
      → IsBounded self.otb
      → Position self.otb self.otb.head_offset ps
      → Responded kernel encode rsp ps room self
  response_sent :
      (m : List ℕ) {self : Tbusapi S}
      → IsBounded self.otb
      → Position self.otb self.otb.head_offset (ps ++ m ∷ [])
      → Carries kernel rsp (body_of encode rsp room rsp.body) m
      → Responded kernel encode rsp ps room self

-- The call of `tbusapi_send` in `tconnapi_send`, `tconnapi_accept` and `tconnapi_close` ends. The ring to
-- tconnd grants no room, or room for a packet of the full size. Either the response comes to no
-- bytes in that room, and the ring holds what it held; or there is one message more in it, the last, which tconnd takes as the response: it does what the command
-- says to each connection named, in order, with the encoded body if the command is to send. The
-- encoder of the server keeps to the room it is given and returns no more than it wrote, and the
-- command, the number of ids and the ids are in range.
pub respond_lem :
    {S D W : Type 0} (kernel : Kernel W) (encode : Encoder D) (self : Tbusapi S) (rsp : Response D)
    (ps : List (List ℕ))
    → KeepsTo encode
    → rsp.cmd < u32_mod
    → length rsp.cid_vec < u16_mod
    → CidsInRange rsp.cid_vec
    → IsBounded self.otb
    → Position self.otb self.otb.head_offset ps
    → let room = (begun self.otb).1.room in
      ((room ≡ 0) ⊎ (self.otb.packet_size ≤ room + header_size))
      × (r : Tbusapi S) × (respond encode self rsp ≡ some r)
      × Responded kernel encode rsp ps room r
respond_lem {S} kernel encode self rsp ps keeps c n cids b q =
    let room = (begun self.otb).1.room in
    let (tb, wide, small, e, bounded, queue) =
      send-begun (encode_response encode) self rsp ps (encode_response-KeepsTo encode keeps) b q in
    let x = encode_response encode rsp room in
    let m = take x.size x.bytes in
    let returned = ap (λ (o : Option (Tbusapi S × Bool)). Option.map (λ r. r.0) o) e in
    elim (Bool-cases (ltb 0 x.size)) [
      | inl h ↦ (
        wide,
        record self { otb = tb },
        returned,
        response_sent m bounded
            (subst (λ b. Position tb tb.head_offset (if b then ps ++ m ∷ [] else ps)) h queue)
            (λ s ms.
              encode_response-all_messages encode kernel s rsp room ms keeps small c n cids
                (ground arith)),
      )
      | inr h ↦ (
        wide,
        record self { otb = tb },
        returned,
        nothing_sent (ground arith) bounded
            (subst (λ b. Position tb tb.head_offset (if b then ps ++ m ∷ [] else ps)) h queue),
      )
    ]
