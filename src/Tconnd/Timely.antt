-- ===== src/Tconnd/Timely.antt =====
-- The times in the two queues of tconnd, and a connection that is added to one of them.
use mathlib.Core.List.{Memᴰ}
use mathlib.Core.List.Memᴰ.{cases_cons, not-nil, append_cases}
use tsf4g.Prelude.{
  ℕ, ◌+◌, ◌≤◌, ◌<◌, ◌≡◌, ◌≢◌, refl, sym, ◌∙◌, ap, subst, inl, inr, List, [], ◌∷◌, ◌++◌, arith,
  u64_mod, ◌⊎◌,
}
use tsf4g.Mempool.{invalid_id}
use tsf4g.Mempool.Handles.{IsMempool, Distinct}
use tsf4g.Mempool.Lists.{Before, Before-map, Before-snoc, Distinct-snoc}
use tsf4g.Tconnd.{status_syn_sent, Socket, Tconnd}
use tsf4g.Tconnd.Queues.{IsLive, IsPending, HasPart, IsQueued, PendingOrder, PackageOrder}

-- No time in a queue is further ahead than the limits say, and the clock is not near its end.
pub record IsTimely {W : Type 0} (t : Tconnd W) : Type 0 where
  pub pending_soon :
      (id : ℕ)
      → Memᴰ id t.pending_list
      → (t.sockets id).pending_ticks ≤ t.cur_ticks + t.config.accept_ticks_limit
  pub package_soon :
      (id : ℕ)
      → Memᴰ id t.package_list
      → (t.sockets id).package_ticks ≤ t.cur_ticks + t.config.package_ticks_limit
  pub accept_in : t.cur_ticks + t.config.accept_ticks_limit < u64_mod
  pub package_in : t.cur_ticks + t.config.package_ticks_limit < u64_mod

-- What is in a list with one more behind it.
pub snoc_cases : (j : ℕ) (l : List ℕ) (x : ℕ) → Memᴰ j (l ++ x ∷ []) → Memᴰ j l ⊎ (x ≡ j)
snoc_cases j l x m = elim (append_cases l m) [
  | inl m' ↦ inl m'
  | inr m' ↦ elim (cases_cons m') [
    | inl e ↦ inr (sym e)
    | inr none_left ↦ absurd (not-nil none_left)
  ]
]

-- A connection that has come to stand at the end of the pending list.
pub record Enlisted {W : Type 0} (t : Tconnd W) (id : ℕ) (u : Tconnd W) : Type 0 where
  pub fresh : t.socket_pool.entry_sn id ≡ invalid_id
  pub pool : IsMempool u.socket_pool
  pub live : IsLive u id
  pub numbers : (j : ℕ) → id ≢ j → u.socket_pool.entry_sn j ≡ t.socket_pool.entry_sn j
  pub others : (j : ℕ) → id ≢ j → u.sockets j ≡ t.sockets j
  pub status : (u.sockets id).status ≡ status_syn_sent
  pub ticks : (u.sockets id).pending_ticks ≡ t.cur_ticks + t.config.accept_ticks_limit
  pub pending : u.pending_list ≡ t.pending_list ++ id ∷ []
  pub packages : u.package_list ≡ t.package_list
  pub clock : u.cur_ticks ≡ t.cur_ticks
  pub config : u.config ≡ t.config

module _ {W : Type 0} {t u : Tconnd W} {id : ℕ} (e : Enlisted t id u) (k : IsQueued t)
    (h : IsTimely t) where
  pending-apart : (j : ℕ) → Memᴰ j t.pending_list → id ≢ j
  pending-apart j m here =
      (k.pending_kind j m).live (subst (λ i. t.socket_pool.entry_sn i ≡ invalid_id) here e.fresh)

  package-apart : (j : ℕ) → Memᴰ j t.package_list → id ≢ j
  package-apart j m here =
      (k.package_kind j m).live (subst (λ i. t.socket_pool.entry_sn i ≡ invalid_id) here e.fresh)

  IsPending-beside : (j : ℕ) → id ≢ j → IsPending t j → IsPending u j
  IsPending-beside j n p = record {
    live = λ g. p.live (sym (e.numbers j n) ∙ g);
    status = ap (λ (s : Socket). s.status) (e.others j n) ∙ p.status;
  }

  HasPart-beside : (j : ℕ) → id ≢ j → HasPart t j → HasPart u j
  HasPart-beside j n p = record {
    live = λ g. p.live (sym (e.numbers j n) ∙ g);
    status = ap (λ (s : Socket). s.status) (e.others j n) ∙ p.status;
    holds = λ g. p.holds (ap (λ (s : Socket). s.package_buff) (sym (e.others j n)) ∙ g);
  }

  enlisted_kind : (j : ℕ) → Memᴰ j u.pending_list → IsPending u j
  enlisted_kind j m = elim (snoc_cases j t.pending_list id (subst (Memᴰ j) e.pending m)) [
    | inl m' ↦ IsPending-beside j (pending-apart j m') (k.pending_kind j m')
    | inr here ↦ subst (IsPending u) here (record { live = e.live; status = e.status })
  ]

  enlisted_order : Before (PendingOrder u) (t.pending_list ++ id ∷ [])
  enlisted_order =
      Before-snoc (PendingOrder u) t.pending_list id
        (λ j m. rw (e.others j (pending-apart j m), e.ticks) (h.pending_soon j m))
        (Before-map (PendingOrder t) (PendingOrder u) t.pending_list
          (λ i j m n r. rw (e.others i (pending-apart i m), e.others j (pending-apart j n)) r)
          k.pending_order)

  pub Enlisted-IsQueued : IsQueued u
  Enlisted-IsQueued = record {
    pool = e.pool;
    pending_once =
        subst Distinct (sym e.pending)
          (Distinct-snoc t.pending_list id (λ m. pending-apart id m refl) k.pending_once);
    pending_kind = enlisted_kind;
    pending_order = subst (Before (PendingOrder u)) (sym e.pending) enlisted_order;
    package_once = subst Distinct (sym e.packages) k.package_once;
    package_kind = λ j m.
        let m' = subst (Memᴰ j) e.packages m in
        HasPart-beside j (package-apart j m') (k.package_kind j m');
    package_order = subst (Before (PackageOrder u)) (sym e.packages) (
        Before-map (PackageOrder t) (PackageOrder u) t.package_list
          (λ i j m n r. rw (e.others i (package-apart i m), e.others j (package-apart j n)) r)
          k.package_order);
  }

  pub Enlisted-IsTimely : IsTimely u
  Enlisted-IsTimely = record {
    pending_soon = λ j m.
        rw (e.clock, e.config)
          (elim (snoc_cases j t.pending_list id (subst (Memᴰ j) e.pending m)) [
            | inl m' ↦ rw (e.others j (pending-apart j m')) (h.pending_soon j m')
            | inr here ↦ omega (arith, ap (λ i. (u.sockets i).pending_ticks) (sym here), e.ticks)
          ]);
    package_soon = λ j m.
        let m' = subst (Memᴰ j) e.packages m in
        rw (e.clock, e.config, e.others j (package-apart j m')) (h.package_soon j m');
    accept_in = rw (e.clock, e.config) h.accept_in;
    package_in = rw (e.clock, e.config) h.package_in;
  }
