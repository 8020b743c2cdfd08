-- ===== src/Tconnd/Cut/Flow.antt =====
-- From the reads of one connection to its server's callbacks: however the network cuts the stream.
use tsf4g.Prelude.{
  flatten, ℕ, ◌≡◌, refl, sym, ◌∙◌, ap, subst, List, [], ◌∷◌, ◌++◌, append-nil, append_assoc, Option,
  some, none, some-injective, ◌&&◌, leb, length, arith, inl, if◌then◌else◌,
}
use tsf4g.Frames.{stream, IsPartial, AreBytes}
use tsf4g.Frames.Streams.{stream-append, parse_lem}
use tsf4g.Tconnd.Cut.{closing, received, receive}
use tsf4g.Tconnd.Cut.Stops.{receive_lem, fits}
use tsf4g.Tconnapi.{packets_of}
use tsf4g.Tconnapi.Read.{packets_of-stream}

-- The reads of a connection that stays open, with what is left in its package buffer before and
-- after: each sends one body on, which is not sent if it is empty.
pub data Reads (max : ℕ) : List ℕ → List (List ℕ) → List (List ℕ) → List ℕ → Type 0 where
  idle : {rest : List ℕ} → Reads max rest [] [] rest
  read :
      {rest c w r r' : List ℕ} {cs ws : List (List ℕ)}
      → receive max rest c ≡ some (received w r)
      → Reads max r cs ws r'
      → Reads max rest (c ∷ cs) (w ∷ ws) r'

-- The packets that the server is shown for these bodies.
unfoldable pub served : List (List ℕ) → Option (List (List ℕ))
served [] = some []
served (w ∷ ws) = elim (packets_of w) [
  | none ↦ none
  | some ps ↦ elim (served ws) [ none ↦ none | some qs ↦ some (ps ++ qs) ]
]

pub AreBytes-append : (xs ys : List ℕ) → AreBytes xs → AreBytes ys → AreBytes (xs ++ ys)
AreBytes-append [] ys h k = k
AreBytes-append (x ∷ xs) ys h k = (h.0, AreBytes-append xs ys h.1 k)

pub AreBytes-behind : (xs ys : List ℕ) → AreBytes (xs ++ ys) → AreBytes ys
AreBytes-behind [] ys h = h
AreBytes-behind (x ∷ xs) ys h = AreBytes-behind xs ys h.1

abbrev pub AllBytes : List (List ℕ) → Type 0
AllBytes [] = Unit {0}
AllBytes (c ∷ cs) = AreBytes c × AllBytes cs

pub received-parsed :
    (max : ℕ) (ps : List (List ℕ)) (w r r' : List ℕ)
    → (if fits max ps r' && leb (length r') max then received (stream ps) r' else closing)
      ≡ received w r
    → (w ≡ stream ps) × (r ≡ r')
received-parsed max ps w r r' e = ground arith

served-cons :
    (w : List ℕ) (ws ps qs : List (List ℕ))
    → packets_of w ≡ some ps
    → served ws ≡ some qs
    → served (w ∷ ws) ≡ some (ps ++ qs)
unfolding served
served-cons w ws ps qs shown all = rw (served, shown, all) refl

read_on :
    (rest c later : List ℕ) (ps qs : List (List ℕ)) (r r' : List ℕ)
    → rest ++ c ≡ stream ps ++ r
    → r ++ later ≡ stream qs ++ r'
    → rest ++ (c ++ later) ≡ stream (ps ++ qs) ++ r'
read_on rest c later ps qs r r' here there =
    sym (append_assoc rest c later)
    ∙ ap (λ t. t ++ later) here
    ∙ append_assoc (stream ps) r later
    ∙ ap (λ t. stream ps ++ t) there
    ∙ sym (append_assoc (stream ps) (stream qs) r')
    ∙ ap (λ t. t ++ r') (sym (stream-append ps qs))

reads_from :
    {max : ℕ} {rest : List ℕ} {cs ws : List (List ℕ)} {r : List ℕ}
    → AreBytes rest
    → IsPartial rest
    → AllBytes cs
    → Reads max rest cs ws r
    → (ps : List (List ℕ)) × (rest ++ flatten cs ≡ stream ps ++ r)
      × (served ws ≡ some ps)
      × IsPartial r
reads_from {rest = rest} b i a idle =
    ([], (unfold stream in append-nil rest), (unfold served in refl), i)
reads_from {max = max} b i a (read {rest} {c} {w} {r} {r'} {cs} {ws} e k) =
    let cut = parse_lem (rest ++ c) (AreBytes-append rest c b a.0) in
    let same = received-parsed max cut.packets w r cut.rest (
      some-injective _ _
        (sym (receive_lem max rest c cut.packets cut.rest cut.whole cut.short cut.partial) ∙ e)) in
    let bytes_left : AreBytes r = subst AreBytes (sym same.1) (
      AreBytes-behind (stream cut.packets) cut.rest
        (subst AreBytes cut.whole (AreBytes-append rest c b a.0))) in
    let (ps, whole, all, inside) =
      reads_from bytes_left (subst IsPartial (sym same.1) cut.partial) a.1 k in
    let shown : packets_of w ≡ some cut.packets =
      ap packets_of same.0 ∙ packets_of-stream cut.packets cut.short in
    (
      cut.packets ++ ps,
      read_on rest c (flatten cs) cut.packets ps cut.rest r' (cut.whole)
          (ap (λ q. q ++ flatten cs) (sym same.1) ∙ whole),
      served-cons w ws cut.packets ps shown all,
      inside,
    )

-- While the connection stays open, the packets that its server is shown are those that the client
-- wrote, in order, however the reads cut the stream; the package buffer holds what is behind them,
-- which is no whole packet.
pub served_lem :
    {max : ℕ} {r : List ℕ} {cs ws : List (List ℕ)}
    → AllBytes cs
    → Reads max [] cs ws r
    → (ps : List (List ℕ)) × (flatten cs ≡ stream ps ++ r) × (served ws ≡ some ps) × IsPartial r
served_lem a k = reads_from tt (inl (omega arith)) a k
