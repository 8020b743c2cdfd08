-- ===== src/Tconnd/Queues.antt =====
-- The invariant of tconnd: which sockets stand in its two queues, and in which order.
use mathlib.Core.List.{Memᴰ}
use tsf4g.Prelude.{ℕ, ◌≤◌, ◌≡◌, ◌≢◌, refl, sym, ◌∙◌, ap, subst, Option, none, some, List, arith}
use tsf4g.Mempool.{Mempool, invalid_id, unlink_id}
use tsf4g.Mempool.Handles.{IsMempool, Distinct, free-IsMempool, free-sn}
use tsf4g.Mempool.Lists.{
  unlink_id-other, unlink_id-within, unlink_id-gone, unlink_id-Before, unlink_id-Distinct, Before,
  Before-map,
}
use tsf4g.Tconnd.{
  Status, status_closed, status_syn_sent, status_established, status_listen, Package, Socket,
  Kernel, Tconnd,
}
use tsf4g.Tconnd.Sockets.{delete}
use tsf4g.Tconnd.Sockets.Deletion.{Deleted, delete-Deleted, pending_after, package_after}

abbrev pub IsLive : {W : Type 0} → Tconnd W → ℕ → Type 0
IsLive t id = t.socket_pool.entry_sn id ≢ invalid_id

-- A connection that the server has not accepted.
pub record IsPending {W : Type 0} (t : Tconnd W) (id : ℕ) : Type 0 where
  pub live : IsLive t id
  pub status : (t.sockets id).status ≡ status_syn_sent

-- A connection with part of a packet.
pub record HasPart {W : Type 0} (t : Tconnd W) (id : ℕ) : Type 0 where
  pub live : IsLive t id
  pub status : (t.sockets id).status ≡ status_established
  pub holds : (t.sockets id).package_buff ≢ none

abbrev pub PendingOrder : {W : Type 0} → Tconnd W → ℕ → ℕ → Type 0
PendingOrder t i j = (t.sockets i).pending_ticks ≤ (t.sockets j).pending_ticks

abbrev pub PackageOrder : {W : Type 0} → Tconnd W → ℕ → ℕ → Type 0
PackageOrder t i j = (t.sockets i).package_ticks ≤ (t.sockets j).package_ticks

-- Each queue has connections of its kind, each once, in the order of their times.
pub record IsQueued {W : Type 0} (t : Tconnd W) : Type 0 where
  pub pool : IsMempool t.socket_pool
  pub pending_once : Distinct t.pending_list
  pub pending_kind : (id : ℕ) → Memᴰ id t.pending_list → IsPending t id
  pub pending_order : Before (PendingOrder t) t.pending_list
  pub package_once : Distinct t.package_list
  pub package_kind : (id : ℕ) → Memᴰ id t.package_list → HasPart t id
  pub package_order : Before (PackageOrder t) t.package_list

module _ {W : Type 0} {t u : Tconnd W} {id : ℕ} (d : Deleted t id u) where
  pub live-after : (j : ℕ) → id ≢ j → u.socket_pool.entry_sn j ≡ t.socket_pool.entry_sn j
  live-after j n = ap (λ (p : Mempool). p.entry_sn j) d.pool ∙ free-sn t.socket_pool id j n

  IsPending-after : (j : ℕ) → id ≢ j → IsPending t j → IsPending u j
  IsPending-after j n p = record {
    live = λ e. p.live (sym (live-after j n) ∙ e);
    status = ap (λ (s : Socket). s.status) (d.others j n) ∙ p.status;
  }

  HasPart-after : (j : ℕ) → id ≢ j → HasPart t j → HasPart u j
  HasPart-after j n p = record {
    live = λ e. p.live (sym (live-after j n) ∙ e);
    status = ap (λ (s : Socket). s.status) (d.others j n) ∙ p.status;
    holds = λ e. p.holds (ap (λ (s : Socket). s.package_buff) (sym (d.others j n)) ∙ e);
  }

-- A queue that a socket may have been taken out of.
data Thinned (id : ℕ) (l l' : List ℕ) : Type 0 where
  kept : l' ≡ l → Thinned id l l'
  taken : l' ≡ unlink_id id l → Thinned id l l'

Thinned-within : {id : ℕ} {l l' : List ℕ} (j : ℕ) → Thinned id l l' → Memᴰ j l' → Memᴰ j l
Thinned-within j (kept e) m = subst (Memᴰ j) e m
Thinned-within {id} {l} j (taken e) m = unlink_id-within id j l (subst (Memᴰ j) e m)

Thinned-Distinct : {id : ℕ} {l l' : List ℕ} → Thinned id l l' → Distinct l → Distinct l'
Thinned-Distinct (kept e) d = subst Distinct (sym e) d
Thinned-Distinct {id} {l} (taken e) d = subst Distinct (sym e) (unlink_id-Distinct id l d)

Thinned-Before :
    (R : ℕ → ℕ → Type 0) {id : ℕ} {l l' : List ℕ} → Thinned id l l' → Before R l → Before R l'
Thinned-Before R (kept e) b = subst (Before R) (sym e) b
Thinned-Before R {id} {l} (taken e) b = subst (Before R) (sym e) (unlink_id-Before R id l b)

pending_after-Thinned : (st : Status) (id : ℕ) (l : List ℕ) → Thinned id l (pending_after st id l)
pending_after-Thinned status_closed id l = kept refl
pending_after-Thinned status_syn_sent id l = taken refl
pending_after-Thinned status_established id l = kept refl
pending_after-Thinned status_listen id l = kept refl

package_after-Thinned :
    (st : Status) (p : Option Package) (id : ℕ) (l : List ℕ)
    → Thinned id l (package_after st p id l)
package_after-Thinned status_closed p id l = kept refl
package_after-Thinned status_syn_sent p id l = kept refl
package_after-Thinned status_established none id l = kept refl
package_after-Thinned status_established (some p) id l = taken refl
package_after-Thinned status_listen p id l = kept refl

-- A pending connection that is deleted is not pending afterwards.
pending-gone :
    (st : Status) (id : ℕ) (l : List ℕ)
    → Distinct l
    → (Memᴰ id l → st ≡ status_syn_sent)
    → Memᴰ id (pending_after st id l)
    → ⊥
pending-gone status_closed id l d k m = absurd (ground (arith, k m))
pending-gone status_syn_sent id l d k m = unlink_id-gone id l d m
pending-gone status_established id l d k m = absurd (ground (arith, k m))
pending-gone status_listen id l d k m = absurd (ground (arith, k m))

package-gone :
    (st : Status) (p : Option Package) (id : ℕ) (l : List ℕ)
    → Distinct l
    → (Memᴰ id l → (st ≡ status_established) × (p ≢ none))
    → Memᴰ id (package_after st p id l)
    → ⊥
package-gone status_closed p id l d k m = absurd (ground (arith, (k m).0))
package-gone status_syn_sent p id l d k m = absurd (ground (arith, (k m).0))
package-gone status_established none id l d k m = (k m).1 refl
package-gone status_established (some p) id l d k m = unlink_id-gone id l d m
package-gone status_listen p id l d k m = absurd (ground (arith, (k m).0))

Thinned-keeps : {id : ℕ} {l l' : List ℕ} (j : ℕ) → Thinned id l l' → id ≢ j → Memᴰ j l → Memᴰ j l'
Thinned-keeps j (kept e) n m = subst (Memᴰ j) (sym e) m
Thinned-keeps {id} {l} j (taken e) n m = subst (Memᴰ j) (sym e) (unlink_id-other id j l n m)

Deleted-packages :
    {W : Type 0} {t u : Tconnd W} {id : ℕ}
    → Deleted t id u
    → Thinned id t.package_list u.package_list
Deleted-packages {t = t} {id = id} d =
    subst (Thinned id t.package_list) (sym d.packages)
      (package_after-Thinned (t.sockets id).status (t.sockets id).package_buff id t.package_list)

-- The others stay in the queue of partial packets, and no connection comes to it.
pub packages-kept :
    {W : Type 0} {t u : Tconnd W} {id : ℕ} (j : ℕ)
    → Deleted t id u
    → id ≢ j
    → Memᴰ j t.package_list
    → Memᴰ j u.package_list
packages-kept j d n m = Thinned-keeps j (Deleted-packages d) n m

pub packages-within :
    {W : Type 0} {t u : Tconnd W} {id : ℕ} (j : ℕ)
    → Deleted t id u
    → Memᴰ j u.package_list
    → Memᴰ j t.package_list
packages-within j d m = Thinned-within j (Deleted-packages d) m

pub pending-within :
    {W : Type 0} {t u : Tconnd W} {id : ℕ} (j : ℕ)
    → Deleted t id u
    → Memᴰ j u.pending_list
    → Memᴰ j t.pending_list
pending-within {t = t} {id = id} j d m =
    Thinned-within j
      (subst (Thinned id t.pending_list) (sym d.pending)
        (pending_after-Thinned (t.sockets id).status id t.pending_list))
      m

Deleted-IsQueued :
    {W : Type 0} {t u : Tconnd W} {id : ℕ} → Deleted t id u → IsLive t id → IsQueued t → IsQueued u
Deleted-IsQueued {W} {t} {u} {id} d live k =
    let st = (t.sockets id).status in
    let pending : Thinned id t.pending_list u.pending_list =
      subst (Thinned id t.pending_list) (sym d.pending)
        (pending_after-Thinned st id t.pending_list) in
    let packages : Thinned id t.package_list u.package_list = Deleted-packages d in
    let pending_left : (j : ℕ) → Memᴰ j u.pending_list → id ≢ j = λ j m e.
      pending-gone st id t.pending_list k.pending_once (λ m. (k.pending_kind id m).status)
        (subst (Memᴰ id) d.pending (subst (λ i. Memᴰ i u.pending_list) (sym e) m)) in
    let package_left : (j : ℕ) → Memᴰ j u.package_list → id ≢ j = λ j m e.
      package-gone st (t.sockets id).package_buff id t.package_list k.package_once
        (λ m. ((k.package_kind id m).status, (k.package_kind id m).holds))
        (subst (Memᴰ id) d.packages (subst (λ i. Memᴰ i u.package_list) (sym e) m)) in
    record {
      pool = subst IsMempool (sym d.pool) (free-IsMempool t.socket_pool id live k.pool);
      pending_once = Thinned-Distinct pending k.pending_once;
      pending_kind = λ j m.
          IsPending-after d j (pending_left j m) (k.pending_kind j (Thinned-within j pending m));
      pending_order =
          Before-map (PendingOrder t) (PendingOrder u) u.pending_list
            (λ i j m n h. rw (d.others i (pending_left i m), d.others j (pending_left j n)) h)
            (Thinned-Before (PendingOrder t) pending k.pending_order);
      package_once = Thinned-Distinct packages k.package_once;
      package_kind = λ j m.
          HasPart-after d j (package_left j m) (k.package_kind j (Thinned-within j packages m));
      package_order =
          Before-map (PackageOrder t) (PackageOrder u) u.package_list
            (λ i j m n h. rw (d.others i (package_left i m), d.others j (package_left j n)) h)
            (Thinned-Before (PackageOrder t) packages k.package_order);
    }

-- A deletion of a connection leaves the queues in order.
pub delete-IsQueued :
    {W : Type 0} (kernel : Kernel W) (t : Tconnd W) (id : ℕ)
    → IsLive t id
    → IsQueued t
    → IsQueued (delete kernel t id)
delete-IsQueued kernel t id live k = Deleted-IsQueued (delete-Deleted kernel t id) live k
