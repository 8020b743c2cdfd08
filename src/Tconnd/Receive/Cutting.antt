-- ===== src/Tconnd/Receive/Cutting.antt =====
-- tconnd/source/tconnd_socket.c, `tconnd_socket_recv`: the bytes of a read are cut.
use tsf4g.Prelude.{
  ℕ, ◌+◌, ◌≤◌, ◌≡◌, refl, sym, ◌∙◌, ap, subst, inl, inr, List, [], ◌∷◌, ◌++◌, some, arith, length,
  length-append, Bool-cases, if◌then◌else◌, ◌&&◌, leb,
}
use tsf4g.Errors.{noerror, close}
use tsf4g.Frames.{AreBytes, stream}
use tsf4g.Frames.Streams.{parse_lem}
use tsf4g.Tconnd.Cut.Flow.{AreBytes-append}
use tsf4g.Mempool.{Mempool}
use tsf4g.Sip.{req_size}
use tsf4g.Tbus.{Grant}
use tsf4g.Tconnd.{status_established, Kernel, bytes_read, Tconnd}
use tsf4g.Tconnd.Cut.{closing, received, receive}
use tsf4g.Tconnd.Cut.Stops.{receive_lem, fits}
use tsf4g.Tconnd.Queues.{IsLive, IsQueued}
use tsf4g.Tconnd.Timely.{IsTimely}
use tsf4g.Tconnd.Steady.{at-IsQueued, at-IsTimely}
use tsf4g.Tconnd.Outbox.{Ring, Granted, Granted-Ring}
use tsf4g.Tconnd.Receive.{bytes_of, release, send_on, cut_result, arrive}
use tsf4g.Tconnd.Receive.Parts.{Around}
use tsf4g.Tconnd.Receive.Buffers.{Around-refl, Around-trans, HasRoom, release_lem, retain_lem}
use tsf4g.Tconnd.Receive.Outcomes.{with_sent, overlong, heard, Returns, send_on-Ring, calls_at}

-- What is sent on changes the ring only.
abbrev SentOn : {W : Type 0} → Tconnd W → ℕ → Tconnd W → Type 0
SentOn u id v = Around u id v × (v.sockets ≡ u.sockets) × IsQueued v × IsTimely v

send_on-SentOn :
    {W : Type 0} (kernel : Kernel W) (u : Tconnd W) (id : ℕ) (g : Grant) (w : List ℕ)
    → IsQueued u
    → IsTimely u
    → SentOn u id (send_on kernel u id g w)
send_on-SentOn kernel u id g [] k s = (Around-refl u id, refl, k, s)
send_on-SentOn kernel u id g (w ∷ ws) k s =
    let o = (send_on kernel u id g (w ∷ ws)).output_tbus in
    (calls_at u id u.world o, refl, at-IsQueued u u.world o k, at-IsTimely u u.world o s)

module _ {W : Type 0} (kernel : Kernel W) (t : Tconnd W) (id : ℕ) (g : Grant)
    (ps : List (List ℕ)) where
  -- The state between the two parts of the work with buffers.
  abbrev freed : Tconnd W
  freed = release kernel (t.sockets id).package_buff t id

  -- What a call needs, but for the room that it was granted.
  pub record Ready : Type 0 where
    pub live : IsLive t id
    pub status : (t.sockets id).status ≡ status_established
    pub room : HasRoom t
    pub granted : Granted t.output_tbus g ps
    pub queued : IsQueued t
    pub timely : IsTimely t

  module _ (y : Ready) where
    closing-Returns :
        (b : List ℕ)
        → receive t.config.package_size (bytes_of (t.sockets id).package_buff) b ≡ some closing
        → Returns kernel t id g.room (bytes_read b) ps (some (close, freed))
    closing-Returns b e =
        let (kept, absent, none_left, room) =
          release_lem kernel t id y.queued y.timely (t.sockets id).package_buff refl y.room in
        (
          (close, freed),
          refl,
          overlong b refl e kept.around
              (subst (λ o. Ring o ps) (sym kept.output) (Granted-Ring y.granted)),
          kept.queued,
          kept.timely,
        )

    received-Returns :
        (b w r : List ℕ)
        → receive t.config.package_size (bytes_of (t.sockets id).package_buff) b
          ≡ some (received w r)
        → AreBytes b
        → req_size + length w ≤ g.room
        → Returns kernel t id g.room (bytes_read b) ps (cut_result kernel freed id g (received w r))
    received-Returns b w r e are l =
        let (kept, absent, none_left, room) =
          release_lem kernel t id y.queued y.timely (t.sockets id).package_buff refl y.room in
        let live : IsLive freed id =
          λ z. y.live (ap (λ (p : Mempool). p.entry_sn id) (sym kept.around.pool) ∙ z) in
        let (u, given, kept', bytes) =
          retain_lem kernel freed id kept.queued kept.timely r live (kept.around.status ∙ y.status)
            none_left absent room in
        let a = Around-trans kept.around kept'.around in
        let granted = subst (λ o. Granted o g ps) (sym (kept'.output ∙ kept.output)) y.granted in
        let v = send_on kernel u id g w in
        let (b', same, queued, timely) = send_on-SentOn kernel u id g w kept'.queued kept'.timely in
        let left : receive t.config.package_size (bytes_of (t.sockets id).package_buff) b
            ≡ some (received w (bytes_of (v.sockets id).package_buff)) =
          e
          ∙ ap (λ r. some (received w r))
              (sym bytes ∙ ap (λ f. bytes_of (f id).package_buff) (sym same)) in
        let ring =
          subst
            (λ (p : Mempool).
              Ring v.output_tbus (with_sent ps (record { sn = p.entry_sn id; id = id }) w))
            a.pool (send_on-Ring kernel u id g ps w granted l) in
        (
          (noerror, v),
          rw (cut_result, given) refl,
          heard b w refl left are (Around-trans a b') ring,
          queued,
          timely,
        )

    pub arrived-Returns :
        (b : List ℕ)
        → AreBytes b
        → AreBytes (bytes_of (t.sockets id).package_buff)
        → req_size + length (bytes_of (t.sockets id).package_buff) + length b ≤ g.room
        → Returns kernel t id g.room (bytes_read b) ps (arrive kernel t id g (bytes_read b))
    arrived-Returns b are kept l =
        let rest = bytes_of (t.sockets id).package_buff in
        let max = t.config.package_size in
        let cut = parse_lem (rest ++ b) (AreBytes-append rest b kept are) in
        let e = receive_lem max rest b cut.packets cut.rest cut.whole cut.short cut.partial in
        let size : length rest + length b ≡ length (stream cut.packets) + length cut.rest =
          sym (length-append rest b)
          ∙ ap (λ (l : List ℕ). length l) cut.whole
          ∙ length-append (stream cut.packets) cut.rest in
        elim (Bool-cases (fits max cut.packets cut.rest && leb (length cut.rest) max)) [
          | inl c ↦
              let e' =
                e
                ∙ ap (λ c. some (if c then received (stream cut.packets) cut.rest else closing))
                    c in
              rw (arrive, e')
                (received-Returns b (stream cut.packets) cut.rest e' are (omega (arith, size)))
          | inr c ↦
              let e' =
                e
                ∙ ap (λ c. some (if c then received (stream cut.packets) cut.rest else closing))
                    c in
              rw (arrive, e') (closing-Returns b e')
        ]
