-- ===== src/Tests/ResponseTests.antt =====
-- The messages of a server at concrete ids, and what tconnd does with them.
use tsf4g.Prelude.{ℕ, ◌≡◌, refl, false, some, List, [], ◌∷◌, arith}
use tsf4g.Sip.{cmd_send, encode_rsp, decode_rsp, encode_cid, encode_cids, decode_cids, decode_cid}
use tsf4g.Sip.Responses.{CidsInRange}
use tsf4g.Tconnd.{status_established}
use tsf4g.Mempool.{ptr_test, alloc_first, init, ids_from, unlink_id}
use tsf4g.Tconnd.Sockets.{push_pkg, on_cmd_accept, flush}
use tsf4g.Tconnd.Input.{
  each_cid, pushed, keep_socket, flush_all, flush_one, all_cids, all_messages, handle_messages,
}
use tsf4g.Tconnapi.Respond.{Response, encode_response}
use tsf4g.Tconnapi.Respond.{respond}
use tsf4g.Tconnapi.Respond.Sending.{Responded, respond_lem}
use tsf4g.Tbusapi.{Tbusapi}
use tsf4g.Prelude.{◌+◌, ◌≤◌, ◌⊎◌}
use tsf4g.Prelude.{none}
use tsf4g.Tests.TbusTests.{wide_ring, wide_ring-Holds, copy, copy-KeepsTo}
use tsf4g.Tests.ConnectionTests.{kernel, waiting, cid, accept_message, send_message}

abbrev response : Response (List ℕ)
response = record { cmd = cmd_send; cid_vec = cid ∷ []; body = some (7 ∷ 9 ∷ []) }

cid-InRange : CidsInRange (cid ∷ [])
cid-InRange = (record { sn_in = omega arith; id_in = omega arith }, tt)

encode_response-bytes :
    encode_response copy response 64 ≡ record { bytes = send_message; size = 34 }
unfolding encode_response encode_rsp
encode_response-bytes = refl

abbrev api : Tbusapi ℕ
api = record { itb = wide_ring.bus; otb = wide_ring.bus; on_recviov = none; iov_num = 1 }

respond_lem_example :
    let room : ℕ = 120 in
    ((room ≡ 0) ⊎ (64 ≤ room + 8))
    × (r : Tbusapi ℕ) × (respond copy api response ≡ some r)
    × Responded kernel copy response [] room r
respond_lem_example =
    respond_lem kernel copy api response [] copy-KeepsTo (omega arith) (omega arith) cid-InRange
      wide_ring-Holds.bounded wide_ring-Holds.queue

-- The connection is open, with nothing left to send.
handle_messages-accepts :
    let t = handle_messages kernel waiting (accept_message ∷ []) in
    ((t.sockets 0).status ≡ status_established)
    × (t.pending_list ≡ [])
    × ((t.sockets 0).writable ≡ false)
unfolding handle_messages all_messages all_cids each_cid pushed keep_socket push_pkg on_cmd_accept
    unlink_id flush_all flush_one flush decode_rsp decode_cids decode_cid encode_rsp encode_cids
    encode_cid ptr_test alloc_first init ids_from
handle_messages-accepts = (refl, refl, refl)
