-- ===== src/Tconnapi/Respond.antt =====
-- tconnapi/source/tconnapi.c: what a server sends to tconnd.
pub mod Broadcast
pub mod Sending
use mathlib.Core.Option
use Prim.Native.Nat.{ℕ, ◌+◌, ◌-◌, ◌%◌}
use mathlib.Core.Bool.{Bool, true, false}
use mathlib.Core.Option.{Option, none, some}
use mathlib.Core.List.{List, [], ◌∷◌, ◌++◌}
use tsf4g.Prelude.{length, ltb, ◌==◌, if◌then◌else◌, u32_mod}
use tsf4g.Sip.{Cid, Rsp, encode_rsp, rsp_size, cmd_accept, cmd_send, cmd_close}
use tsf4g.Tbusapi.{Tbusapi, Encoder, Encoded, send}

-- `tconnapi_rsp_t`, with the `encode` of the server apart.
pub record Response (D : Type 0) : Type 0 where
  pub cmd : ℕ
  pub cid_vec : List Cid
  pub body : Option D

abbrev pub head_bytes : {D : Type 0} → Response D → ℕ → List ℕ
head_bytes rsp size = encode_rsp (record { cmd = rsp.cmd; size = size; cid_list = rsp.cid_vec })

-- The head, and the body behind it, in as much room as is left.
abbrev pub encode_body : {D : Type 0} → Encoder D → Response D → ℕ → Option D → Encoded
encode_body encode rsp room none = record {
  bytes = head_bytes rsp 0;
  size = rsp_size (length rsp.cid_vec);
}
encode_body encode rsp room (some d) =
    let e = encode d (room - rsp_size (length rsp.cid_vec)) in
    let size = e.size % u32_mod in
    record {
      bytes = head_bytes rsp size ++ e.bytes;
      size = if size == 0 then 0 else rsp_size (length rsp.cid_vec) + size;
    }

-- `tconnapi_encode`
unfoldable pub encode_response : {D : Type 0} → Encoder D → Encoder (Response D)
encode_response encode rsp room =
    if ltb room (rsp_size (length rsp.cid_vec))
    then record { bytes = []; size = 0 }
    else encode_body encode rsp room rsp.body

-- The last line of `tconnapi_send`, `tconnapi_close` and `tconnapi_accept`, which return nothing.
abbrev pub respond : {S D : Type 0} → Encoder D → Tbusapi S → Response D → Option (Tbusapi S)
respond encode self rsp = Option.map (λ r. r.0) (send (encode_response encode) self rsp)

unfoldable pub send_to : {S D : Type 0} → Encoder D → Tbusapi S → List Cid → D → Option (Tbusapi S)
send_to encode self cids d =
    respond encode self (record { cmd = cmd_send; cid_vec = cids; body = some d })

unfoldable pub close_all : {S D : Type 0} → Encoder D → Tbusapi S → List Cid → Option (Tbusapi S)
close_all encode self cids =
    respond encode self (record { cmd = cmd_close; cid_vec = cids; body = none })

unfoldable pub accept_all : {S D : Type 0} → Encoder D → Tbusapi S → List Cid → Option (Tbusapi S)
accept_all encode self cids =
    respond encode self (record { cmd = cmd_accept; cid_vec = cids; body = none })
