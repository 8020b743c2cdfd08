-- ===== src/Tests/StreamTests.antt =====
-- The streams of clients, and the messages of tconnd, at concrete bytes.
use tsf4g.Prelude.{
  ℕ, ◌≤◌, ◌≡◌, refl, List, [], ◌∷◌, ◌++◌, some, inl, inr, arith, length, take, length-take-bound,
  ap, flatten,
}
use tsf4g.Errors.{noerror}
use tsf4g.Frames.{stream, frame, word16, IsPartial}
use tsf4g.Sip.{Cid}
use tsf4g.Tconnd.Cut.{receive, received, cut_loop, keep_rest, conclude, cut_all}
use tsf4g.Tconnd.Cut.Stops.{receive_lem, fits}
use tsf4g.Tconnd.Cut.Flow.{Reads, idle, read, served, served_lem}
use tsf4g.Tconnd.Notice.{arrived, message}
use tsf4g.Tconnapi.{packet, on_recv}
use tsf4g.Tconnapi.Read.{on_recv-message, arrives}
use tsf4g.Socketapi.{Socketapi, Recv, got, process}
use tsf4g.Socketapi.Deliver.{process-kept, kept}
use tsf4g.Socketapi.Kept.{process-bound, process-again, Obeys, IsBounded}

-- A packet of two bytes and the front of one of three.
abbrev one_and_a_half : List ℕ
one_and_a_half = 2 ∷ 0 ∷ 7 ∷ 9 ∷ 3 ∷ 0 ∷ 5 ∷ []

abbrev front : List ℕ
front = 3 ∷ 0 ∷ 5 ∷ []

receive_lem_example : receive 4 [] one_and_a_half ≡ some (received (2 ∷ 0 ∷ 7 ∷ 9 ∷ []) front)
unfolding stream frame word16 fits
receive_lem_example =
    receive_lem 4 [] one_and_a_half ((7 ∷ 9 ∷ []) ∷ []) front refl (omega arith, tt)
      (inr (omega arith))

second_read : receive 4 front (6 ∷ 8 ∷ []) ≡ some (received (3 ∷ 0 ∷ 5 ∷ 6 ∷ 8 ∷ []) [])
unfolding receive cut_all cut_loop conclude keep_rest word16
second_read = refl

-- The rest of the second packet comes in the next read.
abbrev reads :
    Reads 4 []
      (one_and_a_half ∷ (6 ∷ 8 ∷ []) ∷ [])
      ((2 ∷ 0 ∷ 7 ∷ 9 ∷ []) ∷ (3 ∷ 0 ∷ 5 ∷ 6 ∷ 8 ∷ []) ∷ [])
      []
reads = read receive_lem_example (read second_read idle)

served_lem_example :
    (ps : List (List ℕ)) × (flatten (one_and_a_half ∷ (6 ∷ 8 ∷ []) ∷ []) ≡ stream ps ++ [])
    × (served ((2 ∷ 0 ∷ 7 ∷ 9 ∷ []) ∷ (3 ∷ 0 ∷ 5 ∷ 6 ∷ 8 ∷ []) ∷ []) ≡ some ps)
    × IsPartial []
served_lem_example =
    served_lem
      (
        (
          omega arith,
          (
            omega arith,
            (omega arith, (omega arith, (omega arith, (omega arith, (omega arith, tt))))),
          ),
        ),
        ((omega arith, (omega arith, tt)), tt),
      )
      reads

abbrev client : Cid
client = record { sn = 5000000000; id = 3 }

on_recv-message_example :
    on_recv (message client (arrived (2 ∷ 0 ∷ 7 ∷ 9 ∷ []))) ≡ some (packet client (7 ∷ 9 ∷ []) ∷ [])
unfolding stream frame
on_recv-message_example =
    on_recv-message (record { sn_in = omega arith; id_in = omega arith })
      (arrives ((7 ∷ 9 ∷ []) ∷ []) (2 ∷ 0 ∷ 7 ∷ 9 ∷ []) refl (omega arith, tt) (omega arith)
        (omega arith))

abbrev fresh_client : Socketapi
fresh_client = record { socket_fd = some 4; recvbuf = [] }

abbrev zeros : ℕ → ℕ
zeros i = 0

abbrev gives : List ℕ → ℕ → Recv
gives b n = got b

process-kept_example :
    process zeros fresh_client (gives one_and_a_half)
    ≡ some (record {
      ret = noerror;
      self = record { socket_fd = some 4; recvbuf = front };
      calls = (7 ∷ 9 ∷ []) ∷ [];
    })
unfolding stream frame word16 kept
process-kept_example =
    process-kept zeros fresh_client 4 (gives one_and_a_half) one_and_a_half ((7 ∷ 9 ∷ []) ∷ [])
      front refl refl refl (omega arith, tt) (inr (omega arith)) (inr (omega arith))

abbrev bytes_of : Recv → List ℕ
bytes_of (got b) = b
bytes_of _ = []

-- A kernel that has these bytes to give.
abbrev holding : List ℕ → ℕ → Recv
holding bs n = got (take n bs)

holding-Obeys : (bs : List ℕ) → Obeys (holding bs)
holding-Obeys bs n b e = omega (arith, ap (λ r. length (bytes_of r)) e, length-take-bound n bs)

process-bound_example : IsBounded (process zeros fresh_client (holding one_and_a_half))
process-bound_example =
    process-bound zeros fresh_client (holding one_and_a_half) (omega arith)
      (holding-Obeys one_and_a_half)

process-again_example :
    (mid : Socketapi) × (bs : List ℕ) × (process zeros fresh_client (gives (1 ∷ 0 ∷ 7 ∷ []))
      ≡ some (record { ret = noerror; self = mid; calls = (7 ∷ []) ∷ [] }))
    × (process zeros mid (gives (1 ∷ 0 ∷ 9 ∷ 2 ∷ []))
        ≡ some (record {
          ret = noerror;
          self = record { socket_fd = some 4; recvbuf = bs };
          calls = (7 ∷ []) ∷ (9 ∷ []) ∷ [];
        }))
    × (1 ≤ 6 → bs ≡ 2 ∷ [])
unfolding stream frame kept
process-again_example =
    process-again zeros 4 (7 ∷ []) [] ((9 ∷ []) ∷ []) (2 ∷ []) (gives (1 ∷ 0 ∷ 7 ∷ []))
      (gives (1 ∷ 0 ∷ 9 ∷ 2 ∷ [])) (omega arith, tt) (omega arith, tt) (inl (omega arith)) refl refl
