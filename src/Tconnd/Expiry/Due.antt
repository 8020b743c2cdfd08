-- ===== src/Tconnd/Expiry/Due.antt =====
-- `tconnd_timer_process` closes the connections whose time is up, and no others.
use mathlib.Core.List.{Memᴰ}
use mathlib.Core.List.Memᴰ.{head, tail, cases_cons, not-nil}
use tsf4g.Prelude.{
  ℕ, ◌≤◌, ◌<◌, ◌≡◌, ◌≢◌, refl, sym, ◌∙◌, ap, subst, inl, inr, List, [], ◌∷◌, arith, ltb, lt_or_le,
  true, false,
}
use tsf4g.Mempool.{Mempool, invalid_id}
use tsf4g.Mempool.Handles.{Distinct, free-own}
use tsf4g.Mempool.Lists.{Before, Before-map}
use tsf4g.Tconnd.{status_closed, status_syn_sent, Socket, Kernel, Tconnd}
use tsf4g.Tconnd.Sockets.{delete}
use tsf4g.Tconnd.Sockets.Deletion.{package_after, Deleted, delete-Deleted}
use tsf4g.Tconnd.Queues.{
  IsLive, IsQueued, live-after, delete-IsQueued, packages-kept, packages-within,
}
use tsf4g.Tconnd.Expiry.{expire, timer_process}
use tsf4g.Tconnd.Expiry.Closing.{
  due, closed_all, delete-world, due-same, closed_all-same, due-within, due-none, due-one,
}

abbrev pub IsGone : {W : Type 0} → Tconnd W → ℕ → Type 0
IsGone t id = t.socket_pool.entry_sn id ≡ invalid_id

-- A connection that a run has not touched.
pub record IsSame {W : Type 0} (t u : Tconnd W) (id : ℕ) : Type 0 where
  pub number : u.socket_pool.entry_sn id ≡ t.socket_pool.entry_sn id
  pub socket : u.sockets id ≡ t.sockets id

Deleted-IsSame :
    {W : Type 0} {t u : Tconnd W} {id : ℕ} (j : ℕ) → Deleted t id u → id ≢ j → IsSame t u j
Deleted-IsSame j d n = record { number = live-after d j n; socket = d.others j n }

Deleted-IsGone : {W : Type 0} {t u : Tconnd W} {id : ℕ} → Deleted t id u → IsGone u id
Deleted-IsGone {t = t} {id = id} d =
    ap (λ (p : Mempool). p.entry_sn id) d.pool ∙ free-own t.socket_pool id

IsSame-trans : {W : Type 0} {t u v : Tconnd W} {j : ℕ} → IsSame t u j → IsSame u v j → IsSame t v j
IsSame-trans a b = record { number = b.number ∙ a.number; socket = b.socket ∙ a.socket }

-- What the loop over a queue does: those whose time is up are gone, and all else is as it was.
pub record Expired {W : Type 0} (kernel : Kernel W) (ticks : Socket → ℕ) (l : List ℕ)
    (t u : Tconnd W) : Type 0 where
  pub closed : u.world ≡ closed_all kernel t (due ticks t l) t.world
  pub packages :
      ((id : ℕ) → Memᴰ id l → (t.sockets id).status ≡ status_syn_sent)
      → u.package_list ≡ t.package_list
  pub clock : u.cur_ticks ≡ t.cur_ticks
  pub gone : (id : ℕ) → Memᴰ id l → ticks (t.sockets id) ≤ t.cur_ticks → IsGone u id
  pub same : (id : ℕ) → (Memᴰ id l → t.cur_ticks < ticks (t.sockets id)) → IsSame t u id
  pub keeps :
      (id : ℕ)
      → (Memᴰ id l → t.cur_ticks < ticks (t.sockets id))
      → Memᴰ id t.package_list
      → Memᴰ id u.package_list
  pub within : (id : ℕ) → Memᴰ id u.package_list → Memᴰ id t.package_list
  pub queues : IsQueued u

module _ {W : Type 0} (kernel : Kernel W) (ticks : Socket → ℕ) where
  abbrev Order : Tconnd W → ℕ → ℕ → Type 0
  Order t i j = ticks (t.sockets i) ≤ ticks (t.sockets j)

  expire-early :
      (id : ℕ) (ids : List ℕ) (t : Tconnd W)
      → t.cur_ticks < ticks (t.sockets id)
      → expire kernel ticks (id ∷ ids) t ≡ t
  unfolding expire
  expire-early id ids t h =
      let b : ltb t.cur_ticks (ticks (t.sockets id)) ≡ true = ground (arith, h) in
      rw (expire, b) refl

  expire-late :
      (id : ℕ) (ids : List ℕ) (t : Tconnd W)
      → ticks (t.sockets id) ≤ t.cur_ticks
      → expire kernel ticks (id ∷ ids) t ≡ expire kernel ticks ids (delete kernel t id)
  unfolding expire
  expire-late id ids t h =
      let b : ltb t.cur_ticks (ticks (t.sockets id)) ≡ false = ground (arith, h) in
      rw (expire, b) refl

  none-due :
      (id : ℕ) (ids : List ℕ) (t : Tconnd W)
      → t.cur_ticks < ticks (t.sockets id)
      → Before (Order t) (id ∷ ids)
      → IsQueued t
      → Expired kernel ticks (id ∷ ids) t t
  none-due id ids t h b k = record {
    closed = sym (
        ap (λ d. closed_all kernel t d t.world)
          (due-none ticks t (id ∷ ids) (λ j m. elim (cases_cons m) [
            | inl e ↦ subst (λ j. t.cur_ticks < ticks (t.sockets j)) (sym e) h
            | inr m' ↦ omega (arith, h, b.0 j m')
          ])));
    packages = λ _. refl;
    clock = refl;
    gone = λ j m late. elim (cases_cons m) [
      | inl e ↦ absurd (omega (arith, h, subst (λ j. ticks (t.sockets j) ≤ t.cur_ticks) e late))
      | inr m' ↦ absurd (omega (arith, h, late, b.0 j m'))
    ];
    same = λ j e. record { number = refl; socket = refl };
    keeps = λ j e m. m;
    within = λ j m. m;
    queues = k;
  }

  one-due :
      (id : ℕ) (ids : List ℕ) (t u v : Tconnd W)
      → ticks (t.sockets id) ≤ t.cur_ticks
      → Distinct (id ∷ ids)
      → Deleted t id u
      → u.world ≡ kernel.close t.world (t.sockets id).socketfd
      → Expired kernel ticks ids u v
      → Expired kernel ticks (id ∷ ids) t v
  one-due id ids t u v late d del shut e =
      let left : (j : ℕ) → (Memᴰ j (id ∷ ids) → t.cur_ticks < ticks (t.sockets j)) → id ≢ j =
        λ j early h. omega (arith, late, early (head (sym h)), ap (λ i. ticks (t.sockets i)) h) in
      let early_after : (j : ℕ)
          → (n : id ≢ j) → (Memᴰ j (id ∷ ids) → t.cur_ticks < ticks (t.sockets j))
          → Memᴰ j ids
          → u.cur_ticks < ticks (u.sockets j) =
        λ j n early m. rw (del.others j n, del.ticks) (early (tail m)) in
      let other : (j : ℕ) → Memᴰ j ids → id ≢ j =
        λ j m h. d.0 (subst (λ i. Memᴰ i ids) (sym h) m) in
      record {
        closed =
            e.closed
            ∙ ap (λ d. closed_all kernel u d u.world)
                (due-same ticks t u ids del.ticks (λ j m. del.others j (other j m)))
            ∙ closed_all-same kernel t u (due ticks t ids) u.world
                (λ j m. del.others j (other j (due-within ticks t ids j m)))
            ∙ ap (λ w. closed_all kernel t (due ticks t ids) w) shut
            ∙ sym (ap (λ d. closed_all kernel t d t.world) (due-one ticks t id ids late));
        packages = λ kind.
            e.packages (λ j m. rw (del.others j (other j m)) (kind j (tail m)))
            ∙ del.packages
            ∙ ap (λ st. package_after st (t.sockets id).package_buff id t.package_list)
                (kind id (head refl));
        clock = e.clock ∙ del.ticks;
        gone = λ j m h. elim (cases_cons m) [
          | inl here ↦
              let s = e.same id (λ m'. absurd (d.0 m')) in
              subst (IsGone v) (sym here) (s.number ∙ Deleted-IsGone del)
          | inr m' ↦ e.gone j m' (rw (del.others j (other j m'), del.ticks) h)
        ];
        same = λ j early.
            IsSame-trans (Deleted-IsSame j del (left j early))
              (e.same j (early_after j (left j early) early));
        keeps = λ j early m.
            e.keeps j (early_after j (left j early) early) (packages-kept j del (left j early) m);
        within = λ j m. packages-within j del (e.within j m);
        queues = e.queues;
      }

  -- The loop closes the connections of a queue whose time is up, if they are in order.
  expire_lem :
      (l : List ℕ) (t : Tconnd W)
      → Distinct l
      → Before (Order t) l
      → ((id : ℕ) → Memᴰ id l → IsLive t id)
      → ((id : ℕ) → Memᴰ id l → (t.sockets id).status ≢ status_closed)
      → IsQueued t
      → Expired kernel ticks l t (expire kernel ticks l t)
  expire_lem [] t d b live in_use k =
      unfold expire in
      record {
        closed = refl;
        packages = λ _. refl;
        clock = refl;
        gone = λ j m late. absurd (not-nil m);
        same = λ j e. record { number = refl; socket = refl };
        keeps = λ j e m. m;
        within = λ j m. m;
        queues = k;
      }
  expire_lem (id ∷ ids) t d b live in_use k =
      let u = delete kernel t id in
      let del = delete-Deleted kernel t id in
      let other : (j : ℕ) → Memᴰ j ids → id ≢ j =
        λ j m h. d.0 (subst (λ i. Memᴰ i ids) (sym h) m) in
      elim (lt_or_le t.cur_ticks (ticks (t.sockets id))) [
        | inl h ↦
            subst (Expired kernel ticks (id ∷ ids) t) (sym (expire-early id ids t h))
              (none-due id ids t h b k)
        | inr h ↦ subst (Expired kernel ticks (id ∷ ids) t) (sym (expire-late id ids t h)) (
            one-due id ids t u (expire kernel ticks ids u) h d del
              (delete-world kernel t id (in_use id (head refl)))
              (expire_lem ids u d.1
                (Before-map (Order t) (Order u) ids
                  (λ i j m n h. rw (del.others i (other i m), del.others j (other j n)) h) b.1)
                (λ j m e. live j (tail m) (sym (live-after del j (other j m)) ∙ e))
                (λ j m e.
                  in_use j (tail m)
                    (sym (ap (λ (s : Socket). s.status) (del.others j (other j m))) ∙ e))
                (delete-IsQueued kernel t id (live id (head refl)) k)))
      ]

-- What `tconnd_timer_process` does.
pub record TimedOut {W : Type 0} (kernel : Kernel W) (t u : Tconnd W) : Type 0 where
  pub closed :
      u.world
      ≡ closed_all kernel t
          (due (λ s. s.package_ticks) t t.package_list)
          (closed_all kernel t (due (λ s. s.pending_ticks) t t.pending_list) t.world)
  pub pending_gone :
      (id : ℕ) → Memᴰ id t.pending_list → (t.sockets id).pending_ticks ≤ t.cur_ticks → IsGone u id
  pub package_gone :
      (id : ℕ) → Memᴰ id t.package_list → (t.sockets id).package_ticks ≤ t.cur_ticks → IsGone u id
  pub same :
      (id : ℕ)
      → (Memᴰ id t.pending_list → t.cur_ticks < (t.sockets id).pending_ticks)
      → (Memᴰ id t.package_list → t.cur_ticks < (t.sockets id).package_ticks)
      → IsSame t u id
  pub queues : IsQueued u

-- From queues that are in order, `tconnd_timer_process` closes the descriptor of each connection that
-- has waited too long to be accepted, then of each that has waited too long for the rest of a packet,
-- in the order of the queues, and no other descriptor. Their handles are not valid any
-- more. It leaves every other connection as it is, and leaves the queues in order.
pub timer_process_lem :
    {W : Type 0} (kernel : Kernel W) (t : Tconnd W)
    → IsQueued t
    → TimedOut kernel t (timer_process kernel t)
unfolding timer_process
timer_process_lem kernel t k =
    let u = expire kernel (λ s. s.pending_ticks) t.pending_list t in
    let a =
      expire_lem kernel (λ s. s.pending_ticks) t.pending_list t k.pending_once k.pending_order
        (λ id m. (k.pending_kind id m).live)
        (λ id m e. ground (arith, (k.pending_kind id m).status)) k in
    let q = a.queues in
    let b =
      expire_lem kernel (λ s. s.package_ticks) u.package_list u q.package_once q.package_order
        (λ id m. (q.package_kind id m).live)
        (λ id m e. ground (arith, (q.package_kind id m).status)) q in
    let apart : (id : ℕ) → Memᴰ id t.package_list → Memᴰ id t.pending_list → ⊥ =
      λ id m n. ground (arith, (k.package_kind id m).status, (k.pending_kind id n).status) in
    let same_list : u.package_list ≡ t.package_list =
      a.packages (λ id m. (k.pending_kind id m).status) in
    let same_sockets : (j : ℕ) → Memᴰ j t.package_list → u.sockets j ≡ t.sockets j =
      λ j m. (a.same j (λ n. absurd (apart j m n))).socket in
    let late = due (λ s. s.package_ticks) t t.package_list in
    record {
      closed =
          b.closed
          ∙ ap (λ l. closed_all kernel u (due (λ s. s.package_ticks) u l) u.world) same_list
          ∙ ap (λ d. closed_all kernel u d u.world)
              (due-same (λ s. s.package_ticks) t u t.package_list a.clock same_sockets)
          ∙ closed_all-same kernel t u late u.world
              (λ j m. same_sockets j (due-within (λ s. s.package_ticks) t t.package_list j m))
          ∙ ap (λ w. closed_all kernel t late w) a.closed;
      pending_gone = λ id m late.
          let gone = a.gone id m late in
          let s = b.same id (λ n. absurd ((q.package_kind id n).live gone)) in s.number ∙ gone;
      package_gone = λ id m late.
          let early : Memᴰ id t.pending_list → t.cur_ticks < (t.sockets id).pending_ticks =
            λ n. absurd (apart id m n) in
          let s = a.same id early in b.gone id (a.keeps id early m) (rw (s.socket, a.clock) late);
      same = λ id early1 early2.
          let s = a.same id early1 in
          IsSame-trans s (b.same id (λ n. rw (s.socket, a.clock) (early2 (a.within id n))));
      queues = b.queues;
    }
