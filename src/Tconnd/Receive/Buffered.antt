-- ===== src/Tconnd/Receive/Buffered.antt =====
-- tconnd/source/tconnd_socket.c, `tconnd_socket_recv`: what a package buffer holds.
use tsf4g.Prelude.{
  ℕ, ◌≤◌, ◌≡◌, refl, sym, ◌∙◌, ap, subst, Bool, true, List, ◌++◌, some, some-injective, arith,
  length, if◌then◌else◌, ◌&&◌, leb,
}
use tsf4g.Errors.{ErrorCode, noerror, is_noerror}
use tsf4g.Frames.{AreBytes, IsPartial, stream}
use tsf4g.Frames.Streams.{parse_lem}
use tsf4g.Mempool.{Mempool}
use tsf4g.Tconnd.{Kernel, Arrival, Tconnd}
use tsf4g.Tconnd.Cut.{closing, received, receive}
use tsf4g.Tconnd.Cut.Stops.{receive_lem, fits}
use tsf4g.Tconnd.Cut.Flow.{AreBytes-append, AreBytes-behind, received-parsed}
use tsf4g.Tconnd.Receive.{bytes_of, recv}
use tsf4g.Tconnd.Queues.{IsQueued}
use tsf4g.Tconnd.Timely.{IsTimely}
use tsf4g.Tconnd.Outbox.{Ring}
use tsf4g.Tconnd.Receive.Outcomes.{
  IsReader, Heard, silent, hung_up, overlong, heard, granted_room, reading,
}
use tsf4g.Tconnd.Receive.Arrivals.{IsOpen, recv_lem}

-- Bytes that a package buffer may hold.
pub record IsRest (max : ℕ) (bs : List ℕ) : Type 0 where
  pub bytes : AreBytes bs
  pub short : length bs ≤ max
  pub partial : IsPartial bs

short_if :
    (f : Bool) (max n : ℕ) (x y w r : List ℕ)
    → (if f && leb n max then received x y else closing) ≡ received w r
    → n ≤ max
short_if f max n x y w r e = ground arith

-- What the cut leaves.
receive-IsRest :
    (max : ℕ) (rest b w r : List ℕ)
    → AreBytes rest
    → AreBytes b
    → receive max rest b ≡ some (received w r)
    → IsRest max r
receive-IsRest max rest b w r k are e =
    let all = AreBytes-append rest b k are in
    let cut = parse_lem (rest ++ b) all in
    let both = fits max cut.packets cut.rest && leb (length cut.rest) max in
    let shape : (if both then received (stream cut.packets) cut.rest else closing) ≡ received w r =
      some-injective _ _
        (sym (receive_lem max rest b cut.packets cut.rest cut.whole cut.short cut.partial) ∙ e) in
    let (same_front, same_rest) = received-parsed max cut.packets w r cut.rest shape in
    let left : IsRest max cut.rest = record {
      bytes = AreBytes-behind (stream cut.packets) cut.rest (subst AreBytes cut.whole all);
      short =
          short_if (fits max cut.packets cut.rest) max (length cut.rest) (stream cut.packets)
            cut.rest w r shape;
      partial = cut.partial;
    } in
    subst (IsRest max) (sym same_rest) left

-- What is heard and kept.
Heard-IsRest :
    {W : Type 0} {kernel : Kernel W} {t : Tconnd W} {id room : ℕ} {a : Arrival} {ps : List (List ℕ)}
    {r : ErrorCode × Tconnd W}
    → Heard kernel t id room a ps r
    → IsOpen t id
    → is_noerror r.0 ≡ true
    → IsOpen r.1 id × IsRest t.config.package_size (bytes_of (r.1.sockets id).package_buff)
Heard-IsRest (silent n c q e r) o h = absurd (ground arith)
Heard-IsRest (hung_up x e r) o h = absurd (ground arith)
Heard-IsRest (overlong b x e a r) o h = absurd (ground arith)
Heard-IsRest {t = t} {id = id} (heard b w {u} x e are a r) o h =
    let rest =
      receive-IsRest t.config.package_size (bytes_of (t.sockets id).package_buff) b w
        (bytes_of (u.sockets id).package_buff) o.kept are e in
    (
      record {
        live = λ z. o.live (ap (λ (p : Mempool). p.entry_sn id) (sym a.pool) ∙ z);
        status = a.status ∙ o.status;
        kept = rest.bytes;
      },
      rest,
    )

-- If a call of `tconnd_socket_recv` for a live, established connection answers with no error, the
-- connection stays live and established. Its package buffer then holds bytes, no more of them than
-- `package_size`, and no whole packet: less than the two bytes of a length, or less than the length
-- says. The queues are in order before, with their times within the limits, the ring to the server
-- holds packets, and the system's `recv` reads bytes, as many as there is room for at most.
pub recv-IsRest :
    {W : Type 0} (kernel : Kernel W) (t u : Tconnd W) (id : ℕ) (ps : List (List ℕ))
    → IsReader kernel
    → IsOpen t id
    → Ring t.output_tbus ps
    → IsQueued t
    → IsTimely t
    → recv kernel t id ≡ some (noerror, u)
    → IsOpen u id × IsRest t.config.package_size (bytes_of (u.sockets id).package_buff)
recv-IsRest kernel t u id ps reads o ring k s e =
    let (r, e', l, k', s') = recv_lem kernel t id ps reads o ring k s in
    let same : r ≡ (noerror, u) = some-injective _ _ (sym e' ∙ e) in
    Heard-IsRest (subst (Heard kernel t id (granted_room t) (reading kernel t id) ps) same l) o refl
