-- ===== src/Tconnd/Notice.antt =====
-- The messages that tconnd sends to its server: tconnd/source/tconnd_listen.c, `tconnd_listen`, on a
-- new connection, and tconnd/source/tconnd_socket.c, `tconnd_socket_recv`, on data and at the end.
use tsf4g.Prelude.{ℕ, List, ◌++◌, length, u32_mod, ◌%◌}
use tsf4g.Sip.{Cid, encode_req, cmd_connect, cmd_recv}

pub data Notice : Type 0 where
  connect : Notice
  disconnect : Notice
  arrived : List ℕ → Notice

-- The bytes of the message: a `sip_req_t` and, for data, what came in.
unfoldable pub message : Cid → Notice → List ℕ
message cid connect = encode_req (record { cmd = cmd_connect; size = 0; cid = cid })
message cid disconnect = encode_req (record { cmd = cmd_recv; size = 0; cid = cid })
message cid (arrived bs) =
    encode_req (record { cmd = cmd_recv; size = length bs % u32_mod; cid = cid }) ++ bs
