-- ===== src/Tconnd/Receive/Parts.antt =====
-- tconnd/source/tconnd_socket.c, `tconnd_socket_recv`: the package buffer of a connection is given
-- back, or taken.
use mathlib.Core.List.{Memᴰ}
use tsf4g.Prelude.{
  ℕ, ◌+◌, ◌≤◌, ◌≡◌, ◌≢◌, refl, sym, ◌∙◌, ap, subst, inl, inr, [], ◌∷◌, ◌++◌, arith, eq_or_ne,
}
use tsf4g.Mempool.{Mempool, unlink_id}
use tsf4g.Mempool.Handles.{IsMempool, Distinct}
use tsf4g.Mempool.Lists.{
  Before, Before-map, Before-snoc, Distinct-snoc, unlink_id-within, unlink_id-gone,
  unlink_id-Distinct, unlink_id-Before,
}
use tsf4g.Tconnd.{Socket, Tconnd}
use tsf4g.Tconnd.Queues.{IsLive, IsPending, HasPart, IsQueued, PendingOrder, PackageOrder}
use tsf4g.Tconnd.Timely.{IsTimely, snoc_cases}

-- Only one connection has changed, and not in what the pending list shows of it.
pub record Around {W : Type 0} (t : Tconnd W) (id : ℕ) (u : Tconnd W) : Type 0 where
  pub pool : u.socket_pool ≡ t.socket_pool
  pub pending : u.pending_list ≡ t.pending_list
  pub clock : u.cur_ticks ≡ t.cur_ticks
  pub config : u.config ≡ t.config
  pub others : (j : ℕ) → id ≢ j → u.sockets j ≡ t.sockets j
  pub status : (u.sockets id).status ≡ (t.sockets id).status
  pub ticks : (u.sockets id).pending_ticks ≡ (t.sockets id).pending_ticks

-- A connection without part of a packet.
abbrev pub IsAbsent : {W : Type 0} → Tconnd W → ℕ → Type 0
IsAbsent t id = Memᴰ id t.package_list → ⊥

module _ {W : Type 0} {t u : Tconnd W} {id : ℕ} (a : Around t id u) where
  status_at : (j : ℕ) → (u.sockets j).status ≡ (t.sockets j).status
  status_at j = elim (eq_or_ne id j) [
    | inl e ↦ subst (λ i. (u.sockets i).status ≡ (t.sockets i).status) e a.status
    | inr n ↦ ap (λ (s : Socket). s.status) (a.others j n)
  ]

  ticks_at : (j : ℕ) → (u.sockets j).pending_ticks ≡ (t.sockets j).pending_ticks
  ticks_at j = elim (eq_or_ne id j) [
    | inl e ↦ subst (λ i. (u.sockets i).pending_ticks ≡ (t.sockets i).pending_ticks) e a.ticks
    | inr n ↦ ap (λ (s : Socket). s.pending_ticks) (a.others j n)
  ]

  IsLive-around : (j : ℕ) → IsLive t j → IsLive u j
  IsLive-around j n e = n (ap (λ (p : Mempool). p.entry_sn j) (sym a.pool) ∙ e)

  IsPending-around : (j : ℕ) → IsPending t j → IsPending u j
  IsPending-around j p = record { live = IsLive-around j p.live; status = status_at j ∙ p.status }

  HasPart-around : (j : ℕ) → id ≢ j → HasPart t j → HasPart u j
  HasPart-around j n p = record {
    live = IsLive-around j p.live;
    status = status_at j ∙ p.status;
    holds = λ e. p.holds (ap (λ (s : Socket). s.package_buff) (sym (a.others j n)) ∙ e);
  }

  -- The packages stand as they are shown to.
  Around-IsQueued :
      IsQueued t
      → Distinct u.package_list
      → ((j : ℕ) → Memᴰ j u.package_list → HasPart u j)
      → Before (PackageOrder u) u.package_list
      → IsQueued u
  Around-IsQueued k once kind order = record {
    pool = subst IsMempool (sym a.pool) k.pool;
    pending_once = subst Distinct (sym a.pending) k.pending_once;
    pending_kind = λ j m. IsPending-around j (k.pending_kind j (subst (Memᴰ j) a.pending m));
    pending_order = subst (Before (PendingOrder u)) (sym a.pending) (
        Before-map (PendingOrder t) (PendingOrder u) t.pending_list
          (λ i j m n h. rw (ticks_at i, ticks_at j) h) k.pending_order);
    package_once = once;
    package_kind = kind;
    package_order = order;
  }

  Around-IsTimely :
      IsTimely t
      → ((j : ℕ)
          → Memᴰ j u.package_list
          → (u.sockets j).package_ticks ≤ t.cur_ticks + t.config.package_ticks_limit)
      → IsTimely u
  Around-IsTimely s soon = record {
    pending_soon =
        λ j m. rw (a.clock, a.config, ticks_at j) (s.pending_soon j (subst (Memᴰ j) a.pending m));
    package_soon = λ j m. rw (a.clock, a.config) (soon j m);
    accept_in = rw (a.clock, a.config) s.accept_in;
    package_in = rw (a.clock, a.config) s.package_in;
  }

  -- The connection leaves the list.
  module _ (out : u.package_list ≡ unlink_id id t.package_list) (k : IsQueued t) where
    left_apart : (j : ℕ) → Memᴰ j u.package_list → id ≢ j
    left_apart j m e =
        unlink_id-gone id t.package_list k.package_once
          (subst (Memᴰ id) out (subst (λ i. Memᴰ i u.package_list) (sym e) m))

    left_within : (j : ℕ) → Memᴰ j u.package_list → Memᴰ j t.package_list
    left_within j m = unlink_id-within id j t.package_list (subst (Memᴰ j) out m)

    pub Around-IsAbsent : IsAbsent u id
    Around-IsAbsent m = left_apart id m refl

    pub leave-IsQueued : IsQueued u
    leave-IsQueued =
        Around-IsQueued k
          (subst Distinct (sym out) (unlink_id-Distinct id t.package_list k.package_once))
          (λ j m. HasPart-around j (left_apart j m) (k.package_kind j (left_within j m)))
          (Before-map (PackageOrder t) (PackageOrder u) u.package_list
            (λ i j m n h. rw (a.others i (left_apart i m), a.others j (left_apart j n)) h)
            (subst (Before (PackageOrder t)) (sym out)
              (unlink_id-Before (PackageOrder t) id t.package_list k.package_order)))

    pub leave-IsTimely : IsTimely t → IsTimely u
    leave-IsTimely s =
        Around-IsTimely s
          (λ j m. rw (a.others j (left_apart j m)) (s.package_soon j (left_within j m)))

  -- The connection comes to stand at the end of the list.
  module _ (into : u.package_list ≡ t.package_list ++ id ∷ []) (absent : IsAbsent t id)
      (part : HasPart u id)
      (set : (u.sockets id).package_ticks ≡ t.cur_ticks + t.config.package_ticks_limit)
      (k : IsQueued t) (s : IsTimely t) where
    stay_apart : (j : ℕ) → Memᴰ j t.package_list → id ≢ j
    stay_apart j m e = absent (subst (λ i. Memᴰ i t.package_list) (sym e) m)

    pub join-IsQueued : IsQueued u
    join-IsQueued =
        Around-IsQueued k
          (subst Distinct (sym into) (Distinct-snoc t.package_list id absent k.package_once))
          (λ j m. elim (snoc_cases j t.package_list id (subst (Memᴰ j) into m)) [
            | inl m' ↦ HasPart-around j (stay_apart j m') (k.package_kind j m')
            | inr e ↦ subst (HasPart u) e part
          ])
          (subst (Before (PackageOrder u)) (sym into) (
            Before-snoc (PackageOrder u) t.package_list id
              (λ j m. rw (a.others j (stay_apart j m), set) (s.package_soon j m))
              (Before-map (PackageOrder t) (PackageOrder u) t.package_list
                (λ i j m n h. rw (a.others i (stay_apart i m), a.others j (stay_apart j n)) h)
                k.package_order)))

    pub join-IsTimely : IsTimely u
    join-IsTimely = Around-IsTimely s (λ j m.
        elim (snoc_cases j t.package_list id (subst (Memᴰ j) into m)) [
          | inl m' ↦ rw (a.others j (stay_apart j m')) (s.package_soon j m')
          | inr e ↦ omega (arith, ap (λ i. (u.sockets i).package_ticks) (sym e), set)
        ])
