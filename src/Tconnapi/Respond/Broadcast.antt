-- ===== src/Tconnapi/Respond/Broadcast.antt =====
-- tconnapi/source/tconnapi.c, `tconnapi_encode`, and the loop of `process_input_tbus` that reads it.
use tsf4g.Prelude.{
  ℕ, suc, ◌+◌, ◌-◌, ◌%◌, ◌≤◌, ◌<◌, ◌≡◌, refl, sym, ◌∙◌, ap, false, Option, none, some, List, [],
  ◌∷◌, ◌++◌, append-nil, arith, length, length-append, take, drop, take-length, take_all, ltb, ◌==◌,
  if◌then◌else◌, if_both, if_cases, u16_mod, u32_mod, Bool-cases, inl, inr,
}
use tsf4g.Frames.Streams.{drop-append, length-take-le}
use tsf4g.Sip.{Rsp, encode_rsp, decode_rsp, rsp_size, half, cmd_send}
use tsf4g.Sip.Responses.{
  RspInRange, CidsInRange, decode-encode_rsp, length-encode_rsp, half-encode_rsp,
}
use tsf4g.Tbusapi.{Encoder, Encoded, KeepsTo}
use tsf4g.Tconnd.{Kernel}
use tsf4g.Tconnd.Input.{Input, all_cids, all_messages}
use tsf4g.Tconnapi.Respond.{Response, head_bytes, encode_body, encode_response}

module _ {W : Type 0} (kernel : Kernel W) where
  -- The loop over the messages, with what it reads of one bound by name.
  all_messages-cons :
      (s : Input W) (m : List ℕ) (ms : List (List ℕ)) (r : Rsp) (num : ℕ)
      → decode_rsp m ≡ r
      → half (drop 8 m) ≡ num
      → rsp_size num ≤ length m
      → rsp_size num + r.size ≤ length m
      → all_messages kernel s (m ∷ ms)
        ≡ all_messages kernel
            (all_cids kernel r.cmd
              (if r.cmd == cmd_send then take r.size (drop (rsp_size num) m) else [])
              s
              r.cid_list)
            ms
  unfolding all_messages
  all_messages-cons s m ms r num e h l k =
      let short : ltb (length m) (rsp_size num) ≡ false = ground (arith, l) in
      let fits : ltb (length m) (rsp_size num + r.size) ≡ false = ground (arith, k) in
      rw (all_messages, e, h, short, fits) (ground arith)

  -- A message with a head and a body is handled as what it says.
  all_messages-encode :
      (s : Input W) (r : Rsp) (b : List ℕ) (ms : List (List ℕ))
      → RspInRange r
      → r.size ≡ length b
      → all_messages kernel s ((encode_rsp r ++ b) ∷ ms)
        ≡ all_messages kernel
            (all_cids kernel r.cmd (if r.cmd == cmd_send then b else []) s r.cid_list)
            ms
  all_messages-encode s r b ms h e =
      let m = encode_rsp r ++ b in
      let size = length-encode_rsp r in
      let all = length-append (encode_rsp r) b in
      let tail_part : drop (rsp_size (length r.cid_list)) m ≡ b =
        ap (λ n. drop n m) (sym size) ∙ drop-append (encode_rsp r) b in
      let body : take r.size (drop (rsp_size (length r.cid_list)) m) ≡ b =
        ap (take r.size) tail_part ∙ ap (λ n. take n b) e ∙ take-length b in
      all_messages-cons s m ms r (length r.cid_list) (decode-encode_rsp r b h)
        (half-encode_rsp r b h.num_in) (omega (arith, size, all)) (omega (arith, size, all, e))
      ∙ ap
          (λ body.
            all_messages kernel
              (all_cids kernel r.cmd (if r.cmd == cmd_send then body else []) s r.cid_list) ms)
          body

module _ {D : Type 0} (encode : Encoder D) where
  head_length :
      (rsp : Response D) (size : ℕ) → length (head_bytes rsp size) ≡ rsp_size (length rsp.cid_vec)
  head_length rsp size =
      length-encode_rsp (record { cmd = rsp.cmd; size = size; cid_list = rsp.cid_vec })

  encode_body-within :
      (rsp : Response D) (room : ℕ) (body : Option D)
      → KeepsTo encode
      → rsp_size (length rsp.cid_vec) ≤ room
      → length (encode_body encode rsp room body).bytes ≤ room
  encode_body-within rsp room none keeps h = omega (arith, head_length rsp 0)
  encode_body-within rsp room (some d) keeps h =
      let left = room - rsp_size (length rsp.cid_vec) in
      let size = (encode d left).size % u32_mod in
      omega (
        arith,
        head_length rsp size,
        length-append (head_bytes rsp size) (encode d left).bytes,
        keeps.within d left,
      )

  encode_body-wrote :
      (rsp : Response D) (room : ℕ) (body : Option D)
      → KeepsTo encode
      → (encode_body encode rsp room body).size ≤ length (encode_body encode rsp room body).bytes
  encode_body-wrote rsp room none keeps = omega (arith, head_length rsp 0)
  encode_body-wrote rsp room (some d) keeps =
      let e = encode d (room - rsp_size (length rsp.cid_vec)) in
      let size = e.size % u32_mod in
      let all = length-append (head_bytes rsp size) e.bytes in
      if_both (λ n. n ≤ length (head_bytes rsp size ++ e.bytes)) (size == 0) (omega arith)
        (omega
          (arith, all, head_length rsp size, keeps.wrote d (room - rsp_size (length rsp.cid_vec))))

  -- If the encoder of the server keeps to the room that it is given and returns no more than it
  -- wrote, so does `tconnapi_encode` with it, for every response.
  pub encode_response-KeepsTo : KeepsTo encode → KeepsTo (encode_response encode)
  unfolding encode_response
  encode_response-KeepsTo keeps = record {
    within = λ rsp room.
        if_cases (λ (e : Encoded). length e.bytes ≤ room) (ltb room (rsp_size (length rsp.cid_vec)))
          (λ h. omega arith) (λ h. encode_body-within rsp room rsp.body keeps (ground arith));
    wrote = λ rsp room.
        if_both (λ (e : Encoded). e.size ≤ length e.bytes)
          (ltb room (rsp_size (length rsp.cid_vec))) (omega arith)
          (encode_body-wrote rsp room rsp.body keeps);
  }

-- The body that a response encodes to.
abbrev pub body_of : {D : Type 0} → Encoder D → Response D → ℕ → Option D → List ℕ
body_of encode rsp room none = []
body_of encode rsp room (some d) =
    let e = encode d (room - rsp_size (length rsp.cid_vec)) in take e.size e.bytes

-- A message is the head and the body of the response.
abbrev IsMessage : {D : Type 0} → Response D → List ℕ → Encoded → Type 0
IsMessage rsp b e =
    0 < e.size → (length b < u32_mod) × (take e.size e.bytes ≡ head_bytes rsp (length b) ++ b)

take-append-more : (n : ℕ) (xs ys : List ℕ) → take (length xs + n) (xs ++ ys) ≡ xs ++ take n ys
take-append-more n [] ys = let e : 0 + n ≡ n = omega arith in rw e refl
take-append-more n (x ∷ xs) ys =
    let e : suc (length xs) + n ≡ suc (length xs + n) = omega arith in
    rw e (ap (λ zs. x ∷ zs) (take-append-more n xs ys))

take_behind : (m n : ℕ) (xs ys : List ℕ) → length xs ≡ m → take (m + n) (xs ++ ys) ≡ xs ++ take n ys
take_behind m n xs ys e = ap (λ m. take (m + n) (xs ++ ys)) (sym e) ∙ take-append-more n xs ys

module _ {D : Type 0} (encode : Encoder D) where
  encode_body-IsMessage :
      (rsp : Response D) (room : ℕ) (body : Option D)
      → KeepsTo encode
      → room < u32_mod
      → IsMessage rsp (body_of encode rsp room body) (encode_body encode rsp room body)
  encode_body-IsMessage rsp room none keeps w k =
      let exact : take (rsp_size (length rsp.cid_vec)) (head_bytes rsp 0) ≡ head_bytes rsp 0 =
        take_all (rsp_size (length rsp.cid_vec)) (head_bytes rsp 0)
          (omega (arith, head_length encode rsp 0)) in
      (omega arith, exact ∙ sym (append-nil (head_bytes rsp 0)))
  encode_body-IsMessage rsp room (some d) keeps w k =
      let left = room - rsp_size (length rsp.cid_vec) in
      let e = encode d left in
      let small : e.size % u32_mod ≡ e.size =
        omega (arith, keeps.within d left, keeps.wrote d left) in
      let size : length (take e.size e.bytes) ≡ e.size =
        length-take-le e.size e.bytes (keeps.wrote d left) in
      let num = rsp_size (length rsp.cid_vec) in
      elim (Bool-cases (e.size == 0)) [
        | inl z ↦ absurd (ground (arith, k, small))
        | inr z ↦ (
          omega (arith, size, keeps.within d left, keeps.wrote d left),
          rw (small, z, size)
              (take_behind num e.size (head_bytes rsp e.size) e.bytes
                (head_length encode rsp e.size)),
        )
      ]

  encode_response-IsMessage :
      (rsp : Response D) (room : ℕ)
      → KeepsTo encode
      → room < u32_mod
      → IsMessage rsp (body_of encode rsp room rsp.body) (encode_response encode rsp room)
  unfolding encode_response
  encode_response-IsMessage rsp room keeps w =
      if_both (IsMessage rsp (body_of encode rsp room rsp.body))
        (ltb room (rsp_size (length rsp.cid_vec))) (λ k. absurd (omega arith))
        (encode_body-IsMessage rsp room rsp.body keeps w)

  -- What `tconnapi_encode` writes of a response, if it writes any, is taken by the loop of
  -- `process_input_tbus` as that response: its body goes to each connection it names, in order, if
  -- its command is to send, and nothing does if it is another. The encoder of the server keeps to its room and returns
  -- no more than it wrote, the room is below 2^32, and the fields are in range.
  pub encode_response-all_messages :
      {W : Type 0} (kernel : Kernel W) (s : Input W) (rsp : Response D) (room : ℕ)
      (ms : List (List ℕ))
      → KeepsTo encode
      → room < u32_mod
      → rsp.cmd < u32_mod
      → length rsp.cid_vec < u16_mod
      → CidsInRange rsp.cid_vec
      → 0 < (encode_response encode rsp room).size
      → let e = encode_response encode rsp room in
        let b = body_of encode rsp room rsp.body in
        all_messages kernel s (take e.size e.bytes ∷ ms)
        ≡ all_messages kernel
            (all_cids kernel rsp.cmd (if rsp.cmd == cmd_send then b else []) s rsp.cid_vec)
            ms
  encode_response-all_messages kernel s rsp room ms keeps w c n cids k =
      let b = body_of encode rsp room rsp.body in
      let (small, message) = encode_response-IsMessage rsp room keeps w k in
      let r : Rsp = record { cmd = rsp.cmd; size = length b; cid_list = rsp.cid_vec } in
      let in_range : RspInRange r = record {
        cmd_in = c;
        size_in = small;
        num_in = n;
        cids_in = cids;
      } in
      ap (λ m. all_messages kernel s (m ∷ ms)) message
      ∙ all_messages-encode kernel s r b ms in_range refl
