-- ===== src/Frames/Streams.antt =====
-- Every stream of bytes is packets and then a partial one.
use tsf4g.Prelude.{
  ℕ, zero, suc, ◌+◌, ◌*◌, ◌≤◌, ◌<◌, ◌≡◌, refl, sym, ◌∙◌, ap, inl, inr, List, [], ◌∷◌, ◌++◌,
  append_assoc, arith, length, take, drop, take-append-drop, leb, Bool-cases,
}
use tsf4g.Frames.{word16, body, frame, stream, IsPartial, AreBytes, AreShort}

pub drop-append {ℓ} : {A : Type ℓ} (xs ys : List A) → drop (length xs) (xs ++ ys) ≡ ys
drop-append [] ys = refl
drop-append (x ∷ xs) ys = drop-append xs ys

pub take-append {ℓ} : {A : Type ℓ} (xs ys : List A) → take (length xs) (xs ++ ys) ≡ xs
take-append [] ys = refl
take-append (x ∷ xs) ys = ap (λ zs. x ∷ zs) (take-append xs ys)

pub length-drop-le {ℓ} :
    {A : Type ℓ} (n : ℕ) (xs : List A) → n ≤ length xs → length (drop n xs) + n ≡ length xs
length-drop-le zero xs h = omega arith
length-drop-le (suc n) [] h = absurd (omega arith)
length-drop-le (suc n) (x ∷ xs) h = omega (arith, length-drop-le n xs (omega arith))

pub length-take-le {ℓ} : {A : Type ℓ} (n : ℕ) (xs : List A) → n ≤ length xs → length (take n xs) ≡ n
length-take-le zero xs h = refl
length-take-le (suc n) [] h = absurd (omega arith)
length-take-le (suc n) (x ∷ xs) h = omega (arith, length-take-le n xs (omega arith))

pub word16-frame : (p rest : List ℕ) → length p < 65536 → word16 (frame p ++ rest) ≡ length p
unfolding word16 frame
word16-frame p rest h = omega arith

pub body-frame : (p rest : List ℕ) → body (frame p ++ rest) ≡ p ++ rest
unfolding frame
body-frame p rest = refl

pub length-frame : (p : List ℕ) → length (frame p) ≡ length p + 2
unfolding frame
length-frame p = omega arith

pub AreBytes-drop : (n : ℕ) (bs : List ℕ) → AreBytes bs → AreBytes (drop n bs)
AreBytes-drop zero bs h = h
AreBytes-drop (suc n) [] h = h
AreBytes-drop (suc n) (b ∷ bs) h = AreBytes-drop n bs h.1

-- A stream of bytes as packets and what is behind them.
pub record Parsed (bs : List ℕ) : Type 0 where
  pub packets : List (List ℕ)
  pub rest : List ℕ
  pub whole : bs ≡ stream packets ++ rest
  pub short : AreShort packets
  pub partial : IsPartial rest

frame_of_bytes :
    (a b : ℕ) (bs : List ℕ)
    → a < 256
    → b < 256
    → a + 256 * b ≤ length bs
    → a ∷ b ∷ bs ≡ frame (take (a + 256 * b) bs) ++ drop (a + 256 * b) bs
unfolding frame
frame_of_bytes a b bs ha hb h =
    ground (arith, length-take-le (a + 256 * b) bs, take-append-drop (a + 256 * b) bs)

parse : (fuel : ℕ) (bs : List ℕ) → length bs < fuel → AreBytes bs → Parsed bs
unfolding stream word16
parse zero bs h b = absurd (omega arith)
parse (suc fuel) [] h b = record {
  packets = [];
  rest = [];
  whole = refl;
  short = tt;
  partial = inl (omega arith);
}
parse (suc fuel) (x ∷ []) h b = record {
  packets = [];
  rest = x ∷ [];
  whole = refl;
  short = tt;
  partial = inl (omega arith);
}
parse (suc fuel) (x ∷ y ∷ bs) h b =
    let n = x + 256 * y in
    elim (Bool-cases (leb n (length bs))) [
      | inl fits ↦
          let n≤ : n ≤ length bs = ground arith in
          let next =
            parse fuel (drop n bs) (omega (arith, length-drop-le n bs n≤))
              (AreBytes-drop n bs b.1.1) in
          let p = take n bs in
          record {
            packets = p ∷ next.packets;
            rest = next.rest;
            whole =
                frame_of_bytes x y bs b.0 b.1.0 n≤
                ∙ ap (λ zs. frame p ++ zs) next.whole
                ∙ sym (append_assoc (frame p) (stream next.packets) next.rest);
            short = (omega (arith, length-take-le n bs n≤), next.short);
            partial = next.partial;
          }
      | inr over ↦ record {
        packets = [];
        rest = x ∷ y ∷ bs;
        whole = refl;
        short = tt;
        partial = inr (ground arith);
      }
    ]

pub parse_lem : (bs : List ℕ) → AreBytes bs → Parsed bs
parse_lem bs b = parse (suc (length bs)) bs (omega arith) b

pub stream-append : (ps qs : List (List ℕ)) → stream (ps ++ qs) ≡ stream ps ++ stream qs
unfolding stream
stream-append [] qs = refl
stream-append (p ∷ ps) qs =
    ap (λ t. frame p ++ t) (stream-append ps qs)
    ∙ sym (append_assoc (frame p) (stream ps) (stream qs))

pub AreShort-append : (ps qs : List (List ℕ)) → AreShort ps → AreShort qs → AreShort (ps ++ qs)
AreShort-append [] qs h k = k
AreShort-append (p ∷ ps) qs h k = (h.0, AreShort-append ps qs h.1 k)
