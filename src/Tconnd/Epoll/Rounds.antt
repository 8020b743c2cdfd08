-- ===== src/Tconnd/Epoll/Rounds.antt =====
-- tconnd/source/tconnd_epoll.c: what holds while the readable sockets are served.
use mathlib.Core.List.{Memᴰ}
use tsf4g.Prelude.{ℕ, ◌≤◌, ◌≡◌, ◌≢◌, sym, ◌∙◌, ap, subst, List, [], ◌∷◌, arith, length}
use tsf4g.Mempool.{Mempool, invalid_id}
use tsf4g.Mempool.Handles.{free-own}
use tsf4g.Tconnd.{Socket, Ready, listener, connection, Kernel, Tconnd}
use tsf4g.Tconnd.Sockets.{delete}
use tsf4g.Tconnd.Sockets.Similar.{Similar, Similar-IsQueued}
use tsf4g.Tconnd.Sockets.Deletion.{delete-Deleted}
use tsf4g.Tconnd.Queues.{
  IsLive, IsQueued, live-after, delete-IsQueued, packages-within, pending-within,
}
use tsf4g.Tconnd.Timely.{IsTimely}
use tsf4g.Tconnd.Outbox.{Ring}
use tsf4g.Tconnd.Receive.Arrivals.{IsOpen}
use tsf4g.Tconnd.Receive.Supply.{supply}
use tsf4g.Tconnd.Epoll.Supply.{delete-Aside}

-- No connection stands in the list twice.
abbrev pub ReadyOnce : List Ready → Type 0
ReadyOnce [] = Unit {0}
ReadyOnce (listener ∷ rs) = ReadyOnce rs
ReadyOnce (connection id ∷ rs) = (Memᴰ (connection id) rs → ⊥) × ReadyOnce rs

-- The ring to the server holds some packets, and the queues are in order.
pub record Sound {W : Type 0} (t : Tconnd W) (ps : List (List ℕ)) : Type 0 where
  pub ring : Ring t.output_tbus ps
  pub queued : IsQueued t
  pub timely : IsTimely t

-- The sockets to serve are open, and there is a package buffer for each.
pub record Round {W : Type 0} (t : Tconnd W) (ps : List (List ℕ)) (rs : List Ready) : Type 0 where
  pub sound : Sound t ps
  pub opens : (id : ℕ) → Memᴰ (connection id) rs → IsOpen t id
  pub once : ReadyOnce rs
  pub room : length rs ≤ supply t

pub IsOpen-kept :
    {W : Type 0} {t u : Tconnd W} (j : ℕ)
    → u.socket_pool.entry_sn j ≡ t.socket_pool.entry_sn j
    → u.sockets j ≡ t.sockets j
    → IsOpen t j
    → IsOpen u j
IsOpen-kept j n s o = record {
  live = λ z. o.live (sym n ∙ z);
  status = ap (λ (x : Socket). x.status) s ∙ o.status;
  kept = rw s o.kept;
}

-- What the queues do not show, and the rest does not need.
pub record Beside {W : Type 0} (t u : Tconnd W) : Type 0 where
  pub similar : Similar t u
  pub output : u.output_tbus ≡ t.output_tbus
  pub clock : u.cur_ticks ≡ t.cur_ticks
  pub config : u.config ≡ t.config
  pub packages_left : supply t ≤ supply u

Beside-IsTimely : {W : Type 0} {t u : Tconnd W} → Beside t u → IsTimely t → IsTimely u
Beside-IsTimely b s = record {
  pending_soon = λ id m.
      rw (b.clock, b.config, (b.similar.sockets id).pending_ticks)
        (s.pending_soon id (subst (Memᴰ id) b.similar.pending m));
  package_soon = λ id m.
      rw (b.clock, b.config, (b.similar.sockets id).package_ticks)
        (s.package_soon id (subst (Memᴰ id) b.similar.packages m));
  accept_in = rw (b.clock, b.config) s.accept_in;
  package_in = rw (b.clock, b.config) s.package_in;
}

pub Beside-Round :
    {W : Type 0} {t u : Tconnd W} {ps : List (List ℕ)} {rs : List Ready}
    → Beside t u
    → Round t ps rs
    → Round u ps rs
Beside-Round {ps = ps} b r = record {
  sound = record {
    ring = subst (λ o. Ring o ps) (sym b.output) r.sound.ring;
    queued = Similar-IsQueued b.similar r.sound.queued;
    timely = Beside-IsTimely b r.sound.timely;
  };
  opens = λ id m.
      let o = r.opens id m in
      record {
        live = λ z. o.live (ap (λ (p : Mempool). p.entry_sn id) (sym b.similar.pool) ∙ z);
        status = (b.similar.sockets id).status ∙ o.status;
        kept = rw ((b.similar.sockets id).package_buff) o.kept;
      };
  once = r.once;
  room = omega (arith, r.room, b.packages_left);
}

module _ {W : Type 0} (kernel : Kernel W) (t : Tconnd W) (id : ℕ) where
  abbrev u : Tconnd W
  u = delete kernel t id

  gone_after : (j : ℕ) → u.socket_pool.entry_sn j ≢ invalid_id → id ≢ j
  gone_after j live e =
      let d = delete-Deleted kernel t id in
      live (
        subst (λ i. u.socket_pool.entry_sn i ≡ invalid_id) e
          (ap (λ (p : Mempool). p.entry_sn id) d.pool ∙ free-own t.socket_pool id))

  delete-IsTimely : IsQueued u → IsTimely t → IsTimely u
  delete-IsTimely k s =
      let d = delete-Deleted kernel t id in
      let a = delete-Aside kernel t id in
      record {
        pending_soon = λ j m.
            rw (a.clock, a.config, d.others j (gone_after j (k.pending_kind j m).live))
              (s.pending_soon j (pending-within j d m));
        package_soon = λ j m.
            rw (a.clock, a.config, d.others j (gone_after j (k.package_kind j m).live))
              (s.package_soon j (packages-within j d m));
        accept_in = rw (a.clock, a.config) s.accept_in;
        package_in = rw (a.clock, a.config) s.package_in;
      }

  -- A connection is closed that is not to be served any more.
  pub delete-Round :
      {ps : List (List ℕ)} {rs : List Ready}
      → IsLive t id
      → (Memᴰ (connection id) rs → ⊥)
      → Round t ps rs
      → Round (delete kernel t id) ps rs
  delete-Round {ps} {rs} live n r =
      let d = delete-Deleted kernel t id in
      let a = delete-Aside kernel t id in
      let k = delete-IsQueued kernel t id live r.sound.queued in
      let apart : (j : ℕ) → Memᴰ (connection j) rs → id ≢ j =
        λ j m e. n (subst (λ i. Memᴰ (connection i) rs) (sym e) m) in
      record {
        sound = record {
          ring = subst (λ o. Ring o ps) (sym a.output) r.sound.ring;
          queued = k;
          timely = delete-IsTimely k r.sound.timely;
        };
        opens = λ j m.
            IsOpen-kept j (live-after d j (apart j m)) (d.others j (apart j m)) (r.opens j m);
        once = r.once;
        room = omega (arith, r.room, a.packages_left);
      }
