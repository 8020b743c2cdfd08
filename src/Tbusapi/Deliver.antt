-- ===== src/Tbusapi/Deliver.antt =====
-- The callbacks of a client: which packets its `on_recv` sees.
use tsf4g.Prelude.{
  ℕ, suc, ◌+◌, ◌≤◌, ◌≡◌, true, false, List, [], ◌∷◌, some, arith, Memory, length, slice,
}
use tsf4g.Tbus.{Iovec}
use tsf4g.Tbus.Release.{packets}
use tsf4g.Tbusapi.{OnRecv, recv_from}

-- A client is shown one packet after the other until it refuses one: how many it took.
unfoldable pub deliver : {S : Type 0} → OnRecv S → S → List (List ℕ) → ℕ × S
deliver f s [] = (0, s)
deliver f s (p ∷ ps) =
    let (more, s') = f s p in
    let (n, t) = deliver f s' ps in elim more [ true ↦ (suc n, t) | false ↦ (0, s') ]

pub deliver-le :
    {S : Type 0} (f : OnRecv S) (s : S) (ps : List (List ℕ)) → (deliver f s ps).0 ≤ length ps
unfolding deliver
deliver-le f s [] = omega arith
deliver-le f s (p ∷ ps) = ground (arith, deliver-le f (f s p).1 ps)

pub recv_from_lem :
    {S : Type 0} (f : OnRecv S) (s : S) (m : Memory) (vs : List Iovec) (i : ℕ)
    → recv_from (some f) s m vs i
      ≡ (i + (deliver f s (packets m vs)).0, (deliver f s (packets m vs)).1)
unfolding recv_from deliver
recv_from_lem f s m [] i = ground arith
recv_from_lem f s m (v ∷ vs) i =
    ground (arith, recv_from_lem f (f s (slice m v.base v.len)).1 m vs (i + 1))
