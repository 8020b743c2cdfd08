-- ===== src/Tconnd/Sockets/Similar.antt =====
-- Changes of sockets that their queues do not show.
use mathlib.Core.List.{Memᴰ}
use tsf4g.Prelude.{ℕ, ◌≡◌, refl, sym, ◌∙◌, ap, subst, inl, inr}
use tsf4g.Mempool.{Mempool}
use tsf4g.Mempool.Handles.{IsMempool, Distinct}
use tsf4g.Mempool.Lists.{Before, Before-map}
use tsf4g.Tconnd.{Socket, Tconnd, set_socket, put_socket-cases}
use tsf4g.Tconnd.Queues.{IsQueued, PendingOrder, PackageOrder}

-- Sockets that stand alike with the queues.
pub record Alike (s s' : Socket) : Type 0 where
  pub status : s'.status ≡ s.status
  pub package_buff : s'.package_buff ≡ s.package_buff
  pub pending_ticks : s'.pending_ticks ≡ s.pending_ticks
  pub package_ticks : s'.package_ticks ≡ s.package_ticks

pub alike : (s : Socket) → Alike s s
alike s = record { status = refl; package_buff = refl; pending_ticks = refl; package_ticks = refl }

-- States with the same queues.
pub record Similar {W : Type 0} (t u : Tconnd W) : Type 0 where
  pub pool : u.socket_pool ≡ t.socket_pool
  pub pending : u.pending_list ≡ t.pending_list
  pub packages : u.package_list ≡ t.package_list
  pub sockets : (j : ℕ) → Alike (t.sockets j) (u.sockets j)

pub Similar-IsQueued : {W : Type 0} {t u : Tconnd W} → Similar t u → IsQueued t → IsQueued u
Similar-IsQueued {W} {t} {u} s k = record {
  pool = subst IsMempool (sym s.pool) k.pool;
  pending_once = subst Distinct (sym s.pending) k.pending_once;
  pending_kind = λ j m.
      let p = k.pending_kind j (subst (Memᴰ j) s.pending m) in
      record {
        live = λ e. p.live (ap (λ (q : Mempool). q.entry_sn j) (sym s.pool) ∙ e);
        status = (s.sockets j).status ∙ p.status;
      };
  pending_order = subst (Before (PendingOrder u)) (sym s.pending) (
      Before-map (PendingOrder t) (PendingOrder u) t.pending_list
        (λ i j m n h. rw ((s.sockets i).pending_ticks, (s.sockets j).pending_ticks) h)
        k.pending_order);
  package_once = subst Distinct (sym s.packages) k.package_once;
  package_kind = λ j m.
      let p = k.package_kind j (subst (Memᴰ j) s.packages m) in
      record {
        live = λ e. p.live (ap (λ (q : Mempool). q.entry_sn j) (sym s.pool) ∙ e);
        status = (s.sockets j).status ∙ p.status;
        holds = λ e. p.holds (sym (s.sockets j).package_buff ∙ e);
      };
  package_order = subst (Before (PackageOrder u)) (sym s.packages) (
      Before-map (PackageOrder t) (PackageOrder u) t.package_list
        (λ i j m n h. rw ((s.sockets i).package_ticks, (s.sockets j).package_ticks) h)
        k.package_order);
}

-- A socket is changed, but not for the queues.
pub set_socket-Similar :
    {W : Type 0} (t : Tconnd W) (id : ℕ) (s : Socket)
    → Alike (t.sockets id) s
    → Similar t (set_socket t id s)
set_socket-Similar t id s a = record {
  pool = refl;
  pending = refl;
  packages = refl;
  sockets = λ j. elim (put_socket-cases t.sockets id s j) [
    | inl (here, set) ↦
        subst (Alike (t.sockets j)) (sym set) (subst (λ i. Alike (t.sockets i) s) here a)
    | inr (other, set) ↦ subst (Alike (t.sockets j)) (sym set) (alike (t.sockets j))
  ];
}

pub set_socket-IsQueued :
    {W : Type 0} (t : Tconnd W) (id : ℕ) (s : Socket)
    → Alike (t.sockets id) s
    → IsQueued t
    → IsQueued (set_socket t id s)
set_socket-IsQueued t id s a = Similar-IsQueued (set_socket-Similar t id s a)
