-- ===== src/Sip.antt =====
-- tutils/include/sip.h: the messages between tconnd and its server. A store to
-- a field leaves its bytes at the field's offset, the least significant first, and a load takes them
-- from there. Padding is neither written nor read; its bytes count as 0 here.
pub mod Responses
use Prim.Native.Nat.{ℕ, zero, suc, ◌+◌, ◌*◌, ◌/◌, ◌%◌, ◌<◌}
use mathlib.Core.Path.{◌≡◌, refl}
use mathlib.Core.List.{List, [], ◌∷◌, ◌++◌}
use native.Mathlib.Omega.{arith}
use tsf4g.Prelude.{length, drop, u32_mod, u64_mod}

-- `sip_cid_t`
pub record Cid : Type 0 where
  pub sn : ℕ
  pub id : ℕ

-- `sip_req_t`
pub record Req : Type 0 where
  pub cmd : ℕ
  pub size : ℕ
  pub cid : Cid

abbrev pub cmd_connect : ℕ
cmd_connect = 1

abbrev pub cmd_recv : ℕ
cmd_recv = 2

abbrev pub cmd_accept : ℕ
cmd_accept = 3

abbrev pub cmd_send : ℕ
cmd_send = 4

abbrev pub cmd_close : ℕ
cmd_close = 5

-- `sizeof(sip_req_t)`
abbrev pub req_size : ℕ
req_size = 24

abbrev pub bytes32 : ℕ → List ℕ
bytes32 v = v % 256 ∷ v / 256 % 256 ∷ v / 65536 % 256 ∷ v / 16777216 % 256 ∷ []

-- A `uint32_t` at the front of the bytes; bytes that are not there count as 0.
abbrev pub word32 : List ℕ → ℕ
word32 (a ∷ b ∷ c ∷ d ∷ _) = a + 256 * b + 65536 * c + 16777216 * d
word32 _ = 0

-- The bytes that tconnd leaves when it has stored the fields of a `sip_req_t`.
unfoldable pub encode_req : Req → List ℕ
encode_req r =
    bytes32 r.cmd
    ++ bytes32 r.size
    ++ bytes32 (r.cid.sn % u32_mod)
    ++ bytes32 (r.cid.sn / u32_mod)
    ++ bytes32 r.cid.id
    ++ 0 ∷ 0 ∷ 0 ∷ 0 ∷ []

-- The fields that a server loads from a `sip_req_t`.
unfoldable pub decode_req : List ℕ → Req
decode_req bs = record {
  cmd = word32 bs;
  size = word32 (drop 4 bs);
  cid = record {
    sn = word32 (drop 8 bs) + u32_mod * word32 (drop 12 bs);
    id = word32 (drop 16 bs);
  };
}

-- `sip_rsp_t` with as many ids as it says.
pub record Rsp : Type 0 where
  pub cmd : ℕ
  pub size : ℕ
  pub cid_list : List Cid

-- A `uint16_t` at the front of the bytes.
abbrev pub half : List ℕ → ℕ
half (a ∷ b ∷ _) = a + 256 * b
half _ = 0

abbrev pub bytes16 : ℕ → List ℕ
bytes16 v = v % 256 ∷ v / 256 % 256 ∷ []

-- The bytes of a `sip_cid_t`, with four of padding.
unfoldable pub encode_cid : Cid → List ℕ
encode_cid c =
    bytes32 (c.sn % u32_mod) ++ bytes32 (c.sn / u32_mod) ++ bytes32 c.id ++ 0 ∷ 0 ∷ 0 ∷ 0 ∷ []

unfoldable pub decode_cid : List ℕ → Cid
decode_cid bs = record { sn = word32 bs + u32_mod * word32 (drop 4 bs); id = word32 (drop 8 bs) }

unfoldable pub encode_cids : List Cid → List ℕ
encode_cids [] = []
encode_cids (c ∷ cs) = encode_cid c ++ encode_cids cs

unfoldable pub decode_cids : ℕ → List ℕ → List Cid
decode_cids zero bs = []
decode_cids (suc n) bs = decode_cid bs ∷ decode_cids n (drop 16 bs)

-- The fields in front of `cid_list`, with six bytes of padding behind the number of ids.
unfoldable pub encode_rsp : Rsp → List ℕ
encode_rsp r =
    bytes32 r.cmd
    ++ bytes32 r.size
    ++ bytes16 (length r.cid_list)
    ++ 0 ∷ 0 ∷ 0 ∷ 0 ∷ 0 ∷ 0 ∷ encode_cids r.cid_list

unfoldable pub decode_rsp : List ℕ → Rsp
decode_rsp bs = record {
  cmd = word32 bs;
  size = word32 (drop 4 bs);
  cid_list = decode_cids (half (drop 8 bs)) (drop 16 bs);
}

-- `SIZEOF_SIP_RSP_T`
abbrev pub rsp_size : ℕ → ℕ
rsp_size cid_list_num = 16 + 16 * cid_list_num

pub record ReqInRange (r : Req) : Type 0 where
  pub cmd_in : r.cmd < u32_mod
  pub size_in : r.size < u32_mod
  pub sn_in : r.cid.sn < u64_mod
  pub id_in : r.cid.id < u32_mod

pub length-encode_req : (r : Req) → length (encode_req r) ≡ req_size
unfolding encode_req
length-encode_req r = refl

pub decode-encode_req : (r : Req) (bs : List ℕ) → ReqInRange r → decode_req (encode_req r ++ bs) ≡ r
unfolding encode_req decode_req
decode-encode_req r bs h = ground arith

pub drop-encode_req : (r : Req) (bs : List ℕ) → drop req_size (encode_req r ++ bs) ≡ bs
unfolding encode_req
drop-encode_req r bs = refl
