-- ===== src/Sip/Responses.antt =====
-- `sip_rsp_t` is read as it was written.
use tsf4g.Prelude.{
  ℕ, ◌+◌, ◌*◌, ◌/◌, ◌%◌, ◌<◌, ◌≡◌, refl, ap, List, [], ◌∷◌, ◌++◌, append_assoc, arith, length,
  length-append, drop, u32_mod, u64_mod, u16_mod,
}
use tsf4g.Sip.{
  Cid, Rsp, half, encode_cid, decode_cid, encode_cids, decode_cids, encode_rsp, decode_rsp,
  rsp_size,
}

pub record CidInRange (c : Cid) : Type 0 where
  pub sn_in : c.sn < u64_mod
  pub id_in : c.id < u32_mod

abbrev pub CidsInRange : List Cid → Type 0
CidsInRange [] = Unit {0}
CidsInRange (c ∷ cs) = CidInRange c × CidsInRange cs

pub record RspInRange (r : Rsp) : Type 0 where
  pub cmd_in : r.cmd < u32_mod
  pub size_in : r.size < u32_mod
  pub num_in : length r.cid_list < u16_mod
  pub cids_in : CidsInRange r.cid_list

decode-encode_cid : (c : Cid) (bs : List ℕ) → CidInRange c → decode_cid (encode_cid c ++ bs) ≡ c
unfolding encode_cid decode_cid
decode-encode_cid c bs h = ground arith

drop-encode_cid : (c : Cid) (bs : List ℕ) → drop 16 (encode_cid c ++ bs) ≡ bs
unfolding encode_cid
drop-encode_cid c bs = refl

length-encode_cid : (c : Cid) → length (encode_cid c) ≡ 16
unfolding encode_cid
length-encode_cid c = refl

decode-encode_cids :
    (cs : List Cid) (bs : List ℕ)
    → CidsInRange cs
    → decode_cids (length cs) (encode_cids cs ++ bs) ≡ cs
unfolding encode_cids decode_cids
decode-encode_cids [] bs h = refl
decode-encode_cids (c ∷ cs) bs (h, hs) =
    let e = append_assoc (encode_cid c) (encode_cids cs) bs in
    rw (e, decode-encode_cid c (encode_cids cs ++ bs) h, drop-encode_cid c (encode_cids cs ++ bs))
      (ap (λ l. c ∷ l) (decode-encode_cids cs bs hs))

length-encode_cids : (cs : List Cid) → length (encode_cids cs) ≡ 16 * length cs
unfolding encode_cids
length-encode_cids [] = omega arith
length-encode_cids (c ∷ cs) = omega (
  arith,
  length-append (encode_cid c) (encode_cids cs),
  length-encode_cid c,
  length-encode_cids cs,
)

pub length-encode_rsp : (r : Rsp) → length (encode_rsp r) ≡ rsp_size (length r.cid_list)
unfolding encode_rsp
length-encode_rsp r = omega (arith, length-encode_cids r.cid_list)

-- The number of ids stands in front of them.
pub half-encode_rsp :
    (r : Rsp) (bs : List ℕ)
    → length r.cid_list < u16_mod
    → half (drop 8 (encode_rsp r ++ bs)) ≡ length r.cid_list
unfolding encode_rsp
half-encode_rsp r bs h = omega arith

-- A response is read as it was written, whatever follows it.
pub decode-encode_rsp : (r : Rsp) (bs : List ℕ) → RspInRange r → decode_rsp (encode_rsp r ++ bs) ≡ r
unfolding encode_rsp decode_rsp
decode-encode_rsp r bs h =
    let num : length r.cid_list % 256 + 256 * (length r.cid_list / 256 % 256) ≡ length r.cid_list =
      omega (arith, h.num_in) in
    rw (num, decode-encode_cids r.cid_list bs h.cids_in) (ground (arith, h.cmd_in, h.size_in))
