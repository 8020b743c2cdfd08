-- ===== src/Tconnd/Cut/Stops.antt =====
-- Where the loop of `tconnd_socket_recv` stops.
use tsf4g.Prelude.{
  ℕ, zero, suc, ◌+◌, ◌<◌, ◌≡◌, sym, ◌∙◌, ap, subst, inl, inr, List, [], ◌∷◌, ◌++◌, some,
  append_assoc, arith, length, length-append, Bool, ltb, leb, Bool-cases, ◌&&◌, ◌||◌, if◌then◌else◌,
}
use tsf4g.Frames.{word16, frame, stream, IsPartial, AreShort}
use tsf4g.Frames.Streams.{drop-append, take-append, word16-frame, length-frame}
use tsf4g.Tconnd.Cut.{
  closed, remain, cut_loop, closing, received, receive, cut_all, conclude, keep_rest,
}

-- No length that the stream has shown so far is over the limit.
unfoldable pub fits : ℕ → List (List ℕ) → List ℕ → Bool
fits max [] rest = ltb (length rest) 2 || leb (word16 rest) max
fits max (p ∷ ps) rest = leb (length p) max && fits max ps rest

cut_loop_partial :
    (fuel max : ℕ) (rest : List ℕ) (off : ℕ)
    → IsPartial rest
    → cut_loop (suc fuel) max rest off ≡ some (if fits max [] rest then remain off else closed)
unfolding cut_loop fits
cut_loop_partial fuel max rest off (inl h) = ground arith
cut_loop_partial fuel max rest off (inr h) = ground arith

cut_loop-frame :
    (fuel max : ℕ) (p t : List ℕ) (off : ℕ)
    → length p < 65536
    → cut_loop (suc fuel) max (frame p ++ t) off
      ≡ (if ltb max (length p) then some closed else cut_loop fuel max t (off + (2 + length p)))
unfolding cut_loop frame
cut_loop-frame fuel max p t off h =
    let e = word16-frame p t h in rw (e, drop-append p t, length-append p t) (ground arith)

-- The loop runs over whole packets and stops behind them, or at a length over the limit.
pub cut_loop_lem :
    (fuel max : ℕ) (ps : List (List ℕ)) (rest : List ℕ) (off : ℕ)
    → AreShort ps
    → IsPartial rest
    → length (stream ps ++ rest) < fuel
    → cut_loop fuel max (stream ps ++ rest) off
      ≡ some (if fits max ps rest then remain (off + length (stream ps)) else closed)
unfolding stream fits
cut_loop_lem zero max ps rest off s i h = absurd (omega arith)
cut_loop_lem (suc fuel) max [] rest off s i h =
    cut_loop_partial fuel max rest off i
    ∙ ap (λ (k : ℕ). some (if fits max [] rest then remain k else closed)) (omega arith)
cut_loop_lem (suc fuel) max (p ∷ ps) rest off s i h =
    let t = stream ps ++ rest in
    let lp = length-frame p in
    let here = cut_loop-frame fuel max p t off s.0 in
    let there = cut_loop_lem fuel max ps rest (off + (2 + length p)) s.1 i (
      omega (
        arith,
        length-append (frame p ++ stream ps) rest,
        length-append (frame p) (stream ps),
        length-append (stream ps) rest,
      )) in
    rw (append_assoc (frame p) (stream ps) rest)
      (ground (arith, here, there, length-append (frame p) (stream ps)))

keep_rest_lem :
    (max : ℕ) (w r : List ℕ) (off : ℕ)
    → off ≡ length w
    → keep_rest max (w ++ r) off ≡ (if leb (length r) max then received w r else closing)
unfolding keep_rest
keep_rest_lem max w r off e =
    rw (e, take-append w r, drop-append w r, length-append w r) (ground arith)

cut_all_lem :
    (max : ℕ) (ps : List (List ℕ)) (r : List ℕ)
    → AreShort ps
    → IsPartial r
    → cut_all max (stream ps ++ r)
      ≡ some (if fits max ps r && leb (length r) max then received (stream ps) r else closing)
unfolding cut_all conclude
cut_all_lem max ps r s i =
    let stops = cut_loop_lem (suc (length (stream ps ++ r))) max ps r 0 s i (omega arith) in
    let kept = keep_rest_lem max (stream ps) r (0 + length (stream ps)) (omega arith) in
    elim (Bool-cases (fits max ps r)) [
      | inl f ↦ rw (stops, cut_all, f) (ap some kept)
      | inr f ↦ rw (stops, cut_all, f)
    ]

-- A read either gives the whole packets, to be sent on together, and keeps the partial one, or
-- closes the connection: if a length shown is over the limit, or the partial packet with its
-- length is.
pub receive_lem :
    (max : ℕ) (rest chunk : List ℕ) (ps : List (List ℕ)) (r : List ℕ)
    → rest ++ chunk ≡ stream ps ++ r
    → AreShort ps
    → IsPartial r
    → receive max rest chunk
      ≡ some (if fits max ps r && leb (length r) max then received (stream ps) r else closing)
unfolding receive
receive_lem max rest chunk ps r e s i =
    subst
      (λ bs.
        cut_all max bs
        ≡ some (if fits max ps r && leb (length r) max then received (stream ps) r else closing))
      (sym e) (cut_all_lem max ps r s i)
