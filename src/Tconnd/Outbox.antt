-- ===== src/Tconnd/Outbox.antt =====
-- tconnd/source/tconnd_socket.c and tconnd_listen.c: a message enters the ring to the server.
use tsf4g.Prelude.{
  ℕ, ◌%◌, ◌≤◌, ◌<◌, ◌≡◌, refl, ap, subst, inl, inr, List, [], ◌∷◌, ◌++◌, some, none, arith, length,
  take-length, u32_mod, ltb, true,
}
use tsf4g.Tbus.{Tbus, Grant}
use tsf4g.Tbus.Position.{IsBounded, Position}
use tsf4g.Tbus.Send.{Fits, begun, send_begin_lem}
use tsf4g.Tbus.SendEnd.{IsFree-le-size}
use tsf4g.Tbus.Channel.{Holds}
use tsf4g.Tbus.Channel.Steps.{begin-Holds}
use tsf4g.Tbusapi.{Encoded, put}
use tsf4g.Tbusapi.Transmit.{sender, put-Holds, after}
use tsf4g.Tconnd.{Kernel}
use tsf4g.Tconnd.Receive.{transmit}

-- A ring that holds packets.
pub record Ring (tb : Tbus) (ps : List (List ℕ)) : Type 0 where
  pub bounded : IsBounded tb
  pub queue : Position tb tb.head_offset ps

-- A ring whose sender was granted a place.
pub record Granted (tb : Tbus) (g : Grant) (ps : List (List ℕ)) : Type 0 where
  pub fits : Fits tb g
  pub holds : Holds (sender tb (some g)) ps

-- The part of the sender is dropped.
pub Granted-Ring : {tb : Tbus} {g : Grant} {ps : List (List ℕ)} → Granted tb g ps → Ring tb ps
Granted-Ring h = record { bounded = h.holds.bounded; queue = h.holds.queue }

pub begun-Granted :
    (tb : Tbus) (ps : List (List ℕ)) → Ring tb ps → Granted (begun tb).0 (begun tb).1 ps
begun-Granted tb ps r =
    let h : Holds (sender tb none) ps = record {
      bounded = r.bounded;
      queue = r.queue;
      granted = tt;
      leased = tt;
    } in
    let h' = begin-Holds (sender tb none) ps (begun tb).0 (begun tb).1 (send_begin_lem tb) h in
    record { fits = h'.granted; holds = h' }

room-small : (tb : Tbus) (g : Grant) (ps : List (List ℕ)) → Granted tb g ps → g.room < u32_mod
room-small tb g ps h = elim h.fits [
  | inl r ↦ omega (arith, ap (λ (x : Grant). x.room) r)
  | inr (b, l, f) ↦ omega (arith, h.holds.bounded.small, IsFree-le-size tb h.holds.bounded f)
]

put-transmit :
    {W : Type 0} (kernel : Kernel W) (tb : Tbus) (g : Grant) (bs : List ℕ)
    → length bs < u32_mod
    → 0 < length bs
    → (put (record { bytes = bs; size = length bs }) (tb, g)).0 ≡ transmit kernel tb g bs
unfolding put
put-transmit kernel tb g bs small z =
    let same_size : length bs % u32_mod ≡ length bs = omega arith in
    let positive : ltb 0 (length bs) ≡ true = ground (arith, z) in rw (same_size, positive) refl

-- The message is the next packet of the ring.
pub transmit-Ring :
    {W : Type 0} (kernel : Kernel W) (tb : Tbus) (g : Grant) (ps : List (List ℕ)) (bs : List ℕ)
    → Granted tb g ps
    → 0 < length bs
    → length bs ≤ g.room
    → Ring (transmit kernel tb g bs) (ps ++ bs ∷ [])
transmit-Ring kernel tb g ps bs h z l =
    let e : Encoded = record { bytes = bs; size = length bs } in
    let (t, k, r) = put-Holds ps e tb g l (omega arith) h.fits h.holds in
    let positive : ltb 0 (length bs) ≡ true = ground (arith, z) in
    let sent : after ps e ≡ ps ++ bs ∷ [] = rw (positive, take-length bs) refl in
    subst (λ tb'. Ring tb' (ps ++ bs ∷ []))
      (put-transmit kernel tb g bs (omega (arith, room-small tb g ps h)) z)
      (subst (Ring (put e (tb, g)).0) sent (record { bounded = k.bounded; queue = k.queue }))
