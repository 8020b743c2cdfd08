-- ===== src/Tconnd/Epoll/Loop.antt =====
-- tconnd/source/tconnd_epoll.c, `tconnd_epool_proc`: one socket after the other is served.
use mathlib.Core.List.{Memᴰ}
use mathlib.Core.List.Memᴰ.{head, tail}
use tsf4g.Prelude.{
  ℕ, suc, ◌≤◌, ◌≡◌, ◌≢◌, refl, sym, ◌∙◌, ap, subst, false, Option, some, List, [], ◌∷◌, ◌++◌,
  append-nil, append_assoc, arith, length,
}
use tsf4g.Errors.{ErrorCode, would_block}
use tsf4g.Sip.{Cid}
use tsf4g.Mempool.{Mempool}
use tsf4g.Tconnd.{Arrival}
use tsf4g.Tconnd.{Ready, listener, connection, Kernel, Tconnd}
use tsf4g.Tconnd.Queues.{IsQueued, IsLive}
use tsf4g.Tconnd.Timely.{IsTimely}
use tsf4g.Tconnd.Steady.{Untouched}
use tsf4g.Tconnd.Outbox.{Ring}
use tsf4g.Tconnd.Receive.{cid_of}
use tsf4g.Tconnd.Receive.Parts.{Around}
use tsf4g.Tconnd.Receive.Outcomes.{IsReader, Heard, silent, hung_up, overlong, heard, with_sent}
use tsf4g.Tconnd.Receive.Arrivals.{IsOpen, recv_lem}
use tsf4g.Tconnd.Receive.Supply.{supply, Spends, is_no_memory, recv-Spends}
use tsf4g.Tconnd.Listen.Entry.{Listened, declined, admitted}
use tsf4g.Tconnd.Listen.Admission.{listen_lem}
use tsf4g.Tconnd.Epoll.{
  Next, goes_on, ends, on_answer, serve, serve_all, serve_readable, on_waited, epool_proc,
}
use tsf4g.Tconnd.Epoll.Supply.{listen-Spends}
use tsf4g.Tconnd.Epoll.Rounds.{Sound, Round, IsOpen-kept, delete-Round}
use tsf4g.Tconnd.Notice.{connect, disconnect, arrived, message}
use tsf4g.Mempool.{invalid_id}
use tsf4g.Tconnd.Epoll.Serving.{Goes, on_answer-Goes}

Untouched-IsOpen : {W : Type 0} {t u : Tconnd W} (j : ℕ) → Untouched t u → IsOpen t j → IsOpen u j
Untouched-IsOpen j n o =
    IsOpen-kept j (ap (λ (p : Mempool). p.entry_sn j) n.pool) (ap (λ v. v j) n.sockets) o

Around-IsOpen :
    {W : Type 0} {t u : Tconnd W} (id j : ℕ) → Around t id u → id ≢ j → IsOpen t j → IsOpen u j
Around-IsOpen id j a n o =
    IsOpen-kept j (ap (λ (p : Mempool). p.entry_sn j) a.pool) (a.others j n) o

-- What serving a socket did to the packets.
more_sent :
    (ps : List (List ℕ)) (cid : Cid) (w : List ℕ)
    → (new : List (List ℕ)) × (with_sent ps cid w ≡ ps ++ new)
more_sent ps cid [] = ([], sym (append-nil ps))
more_sent ps cid (w ∷ ws) = (message cid (arrived (w ∷ ws)) ∷ [], refl)

module _ {W : Type 0} (kernel : Kernel W) (t : Tconnd W) (ps : List (List ℕ)) (rs : List Ready)
    (ret : ErrorCode) where
  Listened-Goes :
      {a : ErrorCode × Tconnd W}
      → Round t ps (listener ∷ rs)
      → Listened t ps a
      → is_no_memory a.0 ≡ false
      → length rs ≤ supply a.1
      → IsQueued a.1
      → IsTimely a.1
      → Goes kernel ps rs (on_answer kernel a.0 ret listener a.1)
  Listened-Goes k (declined {code} {u} n e ring) m room queued timely =
      let next : Round u (ps ++ []) rs = record {
        sound = record {
          ring = subst (Ring u.output_tbus) (sym (append-nil ps)) ring;
          queued = queued;
          timely = timely;
        };
        opens = λ j i. Untouched-IsOpen j e (k.opens j (tail i));
        once = k.once;
        room = room;
      } in
      on_answer-Goes kernel ps rs u [] next code ret listener m (λ c. next)
  Listened-Goes k (admitted id {u} e ring) m room queued timely =
      let apart : (j : ℕ) → Memᴰ (connection j) rs → id ≢ j = λ j i here.
        (k.opens j (tail i)).live
          (subst (λ i. t.socket_pool.entry_sn i ≡ invalid_id) here e.fresh) in
      (
        message (record { sn = t.socket_pool.sn; id = id }) connect ∷ [],
        record {
          sound = record { ring = ring; queued = queued; timely = timely };
          opens = λ j i.
              IsOpen-kept j (e.numbers j (apart j i)) (e.others j (apart j i)) (k.opens j (tail i));
          once = k.once;
          room = room;
        },
      )

  Heard-Goes :
      (id : ℕ) {room : ℕ} {answer : Arrival} {a : ErrorCode × Tconnd W}
      → Round t ps (connection id ∷ rs)
      → Heard kernel t id room answer ps a
      → is_no_memory a.0 ≡ false
      → length rs ≤ supply a.1
      → IsQueued a.1
      → IsTimely a.1
      → Goes kernel ps rs (on_answer kernel a.0 ret (connection id) a.1)
  Heard-Goes id k (silent {code} {u} n c q e ring) m room queued timely =
      let next : Round u (ps ++ []) rs = record {
        sound = record {
          ring = subst (Ring u.output_tbus) (sym (append-nil ps)) ring;
          queued = queued;
          timely = timely;
        };
        opens = λ j i. Untouched-IsOpen j e (k.opens j (tail i));
        once = k.once.1;
        room = room;
      } in
      on_answer-Goes kernel ps rs u [] next code ret (connection id) m (λ d. absurd (ground arith))
  Heard-Goes id k (hung_up {u} read e ring) m room queued timely =
      let next : Round u (ps ++ message (cid_of kernel t id) disconnect ∷ []) rs = record {
        sound = record { ring = ring; queued = queued; timely = timely };
        opens = λ j i. Untouched-IsOpen j e (k.opens j (tail i));
        once = k.once.1;
        room = room;
      } in
      (
        message (cid_of kernel t id) disconnect ∷ [],
        delete-Round kernel u id (Untouched-IsOpen id e (k.opens id (head refl))).live k.once.0
            next,
      )
  Heard-Goes id k (overlong b {u} read e a ring) m room queued timely =
      let apart : (j : ℕ) → Memᴰ (connection j) rs → id ≢ j =
        λ j i here. k.once.0 (subst (λ i. Memᴰ (connection i) rs) (sym here) i) in
      let live : IsLive u id =
        λ z. (k.opens id (head refl)).live (ap (λ (p : Mempool). p.entry_sn id) (sym a.pool) ∙ z) in
      let next : Round u (ps ++ []) rs = record {
        sound = record {
          ring = subst (Ring u.output_tbus) (sym (append-nil ps)) ring;
          queued = queued;
          timely = timely;
        };
        opens = λ j i. Around-IsOpen id j a (apart j i) (k.opens j (tail i));
        once = k.once.1;
        room = room;
      } in
      ([], delete-Round kernel u id live k.once.0 next)
  Heard-Goes id k (heard b w {u} read e are a ring) m room queued timely =
      let (new, more) = more_sent ps (cid_of kernel t id) w in
      let apart : (j : ℕ) → Memᴰ (connection j) rs → id ≢ j =
        λ j i here. k.once.0 (subst (λ i. Memᴰ (connection i) rs) (sym here) i) in
      (
        new,
        record {
          sound = record {
            ring = subst (Ring u.output_tbus) more ring;
            queued = queued;
            timely = timely;
          };
          opens = λ j i. Around-IsOpen id j a (apart j i) (k.opens j (tail i));
          once = k.once.1;
          room = room;
        },
      )

-- What is said of a result holds of the result that there is.
spent :
    {W : Type 0} {n : ℕ} {o : Option (ErrorCode × Tconnd W)} {a : ErrorCode × Tconnd W}
    → o ≡ some a
    → Spends n o
    → (is_no_memory a.0 ≡ false) × (n ≤ suc (supply a.1))
spent {n = n} e s = subst (Spends n) e s

module _ {W : Type 0} (kernel : Kernel W) (reads : IsReader kernel) where
  serve-Goes :
      (r : Ready) (rs : List Ready) (t : Tconnd W) (ps : List (List ℕ)) (ret : ErrorCode)
      → Round t ps (r ∷ rs)
      → (a : ErrorCode × Tconnd W) × (serve kernel r t ≡ some a)
        × Goes kernel ps rs (on_answer kernel a.0 ret r a.1)
  serve-Goes listener rs t ps ret k =
      let (a, e, l, queued, timely) =
        listen_lem kernel t ps k.sound.ring k.sound.queued k.sound.timely in
      let (memory, left) = spent e (listen-Spends kernel t) in
      (
        a,
        e,
        Listened-Goes kernel t ps rs ret k l memory (omega (arith, k.room, left)) queued timely,
      )
  serve-Goes (connection id) rs t ps ret k =
      let (a, e, h, queued, timely) =
        recv_lem kernel t id ps reads (k.opens id (head refl)) k.sound.ring k.sound.queued
          k.sound.timely in
      let (memory, left) = spent e (recv-Spends kernel id t (omega (arith, k.room))) in
      (
        a,
        e,
        Heard-Goes kernel t ps rs ret id k h memory (omega (arith, k.room, left)) queued timely,
      )

  -- What the loop returns, with what it has sent.
  abbrev Served : List (List ℕ) → Option (ErrorCode × Tconnd W) → Type 0
  Served ps o =
      (r : ErrorCode × Tconnd W) × (new : List (List ℕ)) × (o ≡ some r) × Sound r.1 (ps ++ new)

  abbrev follow : List Ready → Next kernel → Option (ErrorCode × Tconnd W)
  follow rs (goes_on ret u) = serve_all kernel rs ret u
  follow rs (ends code u) = some (code, u)

  follow-Served :
      (rs : List Ready) (ps : List (List ℕ)) (n : Next kernel)
      → ((u : Tconnd W) (qs : List (List ℕ)) (ret : ErrorCode)
          → Round u qs rs
          → Served qs (serve_all kernel rs ret u))
      → Goes kernel ps rs n
      → Served ps (follow rs n)
  follow-Served rs ps (goes_on ret u) go (new, k) =
      let (r, newer, e, s) = go u (ps ++ new) ret k in
      (r, new ++ newer, e, subst (Sound r.1) (append_assoc ps new newer) s)
  follow-Served rs ps (ends code u) go (new, s) = ((code, u), new, refl, s)

  serve_all-Served :
      (rs : List Ready) (t : Tconnd W) (ps : List (List ℕ)) (ret : ErrorCode)
      → Round t ps rs
      → Served ps (serve_all kernel rs ret t)
  unfolding serve_all
  serve_all-Served [] t ps ret k =
      ((ret, t), [], refl, subst (Sound t) (sym (append-nil ps)) k.sound)
  serve_all-Served (r ∷ rs) t ps ret k =
      let (a, e, g) = serve-Goes r rs t ps ret k in
      let (o, new, f, s) =
        follow-Served rs ps (on_answer kernel a.0 ret r a.1)
          (λ u qs ret k. serve_all-Served rs u qs ret k) g in
      (o, new, rw (serve_all, e) f, s)

-- `tconnd_epool_proc` returns while sockets stand in its list, whatever the kernel answers: the ring to
-- the server then holds what it held, and what the call has sent behind that; the two queues are in order, with
-- their times in the limits. The connections in the list are open, each stands in it
-- once, and there is a free package buffer for each socket in it; the system's `recv` reads bytes, as
-- many as there is room for at most.
pub epool_proc-Sound :
    {W : Type 0} (kernel : Kernel W) (t : Tconnd W) (ps : List (List ℕ)) (r : Ready)
    (rs : List Ready)
    → IsReader kernel
    → t.readable_list ≡ r ∷ rs
    → Round t ps (r ∷ rs)
    → (a : ErrorCode × Tconnd W) × (new : List (List ℕ)) × (epool_proc kernel t ≡ some a)
      × Sound a.1 (ps ++ new)
unfolding epool_proc
epool_proc-Sound kernel t ps r rs reads e k =
    let (a, new, f, s) = serve_all-Served kernel reads (r ∷ rs) t ps would_block k in
    let waits = kernel.epoll_wait t.world in
    let listed : epool_proc kernel t ≡ serve_readable kernel would_block t =
      ap
        (λ (l : List Ready). elim l [
          | [] ↦ on_waited kernel (record t { world = waits.0 }) waits.1
          | x ∷ xs ↦ serve_readable kernel would_block t
        ])
        e in
    let served : serve_readable kernel would_block t ≡ serve_all kernel (r ∷ rs) would_block t =
      ap
        (λ (l : List Ready). elim l [
          | [] ↦ some (would_block, t)
          | x ∷ xs ↦ serve_all kernel (x ∷ xs) would_block t
        ])
        e in
    (a, new, listed ∙ served ∙ f, s)
