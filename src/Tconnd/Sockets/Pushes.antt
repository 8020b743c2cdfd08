-- ===== src/Tconnd/Sockets/Pushes.antt =====
-- What an operation of the server on a socket leaves.
use mathlib.Core.List.{Memᴰ}
use tsf4g.Prelude.{
  ℕ, ◌≤◌, ◌≡◌, ◌≢◌, refl, sym, ◌∙◌, ap, subst, false, List, [], ◌∷◌, ◌++◌, arith, if_both, if_cases,
  not, ◌+◌, ◌==◌, length, ltb, leb, ◌||◌, ◌-◌,
}
use tsf4g.Sip.{cmd_send, cmd_accept, cmd_close}
use tsf4g.Errors.{ErrorCode, is_noerror}
use tsf4g.Mempool.{unlink_id}
use tsf4g.Mempool.Lists.{
  unlink_id-within, unlink_id-gone, unlink_id-Before, unlink_id-Distinct, Before-map,
}
use tsf4g.Tconnd.{
  Status, status_closed, status_syn_sent, status_established, status_listen, Socket, Kernel,
  Written, wrote, write_failed, Tconnd, set_socket, put_socket, put_socket-other, put_socket-own,
}
use tsf4g.Tconnd.Sockets.{
  flush, written, push_iov, on_cmd_send, on_cmd_accept, push_pkg, is_established, is_syn_sent,
  ssize_max, op_list_max,
}
use tsf4g.Tconnd.Queues.{IsQueued, PendingOrder, PackageOrder}
use tsf4g.Tconnd.Sockets.Similar.{Alike, alike, Similar, Similar-IsQueued, set_socket-Similar}

-- What an operation on a socket has to do with the others, and with the queues.
pub record Pushed {W : Type 0} (t : Tconnd W) (id : ℕ) (u : Tconnd W) : Type 0 where
  pub pool : u.socket_pool ≡ t.socket_pool
  pub others : (j : ℕ) → id ≢ j → u.sockets j ≡ t.sockets j
  pub writable : (u.sockets id).writable ≡ (t.sockets id).writable
  pub queues : IsQueued t → IsQueued u

pub unpushed :
    {W : Type 0} (t u : Tconnd W) (id : ℕ) → Similar t u → u.sockets ≡ t.sockets → Pushed t id u
unpushed t u id s e = record {
  pool = s.pool;
  others = λ j n. ap (λ v. v j) e;
  writable = ap (λ v. (v id).writable) e;
  queues = Similar-IsQueued s;
}

pub set_socket-Pushed :
    {W : Type 0} (t : Tconnd W) (id : ℕ) (s : Socket)
    → Alike (t.sockets id) s
    → s.writable ≡ (t.sockets id).writable
    → Pushed t id (set_socket t id s)
set_socket-Pushed t id s a w = record {
  pool = refl;
  others = λ j n. put_socket-other t.sockets id s j n;
  writable = ap (λ (s : Socket). s.writable) (put_socket-own t.sockets id s) ∙ w;
  queues = Similar-IsQueued (set_socket-Similar t id s a);
}

pub Pushed-trans :
    {W : Type 0} {t u v : Tconnd W} {id : ℕ} → Pushed t id u → Pushed u id v → Pushed t id v
Pushed-trans a b = record {
  pool = b.pool ∙ a.pool;
  others = λ j n. b.others j n ∙ a.others j n;
  writable = b.writable ∙ a.writable;
  queues = λ k. b.queues (a.queues k);
}

module _ {W : Type 0} (kernel : Kernel W) (id : ℕ) where
  abbrev Leaves : Tconnd W → ErrorCode × Tconnd W → Type 0
  Leaves t r = Pushed t id r.1

  elsewhere : (t : Tconnd W) (w : W) → Pushed t id (record t { world = w })
  elsewhere t w =
      unpushed t (record t { world = w }) id
        (record {
          pool = refl;
          pending = refl;
          packages = refl;
          sockets = λ j. alike (t.sockets j);
        })
        refl

  unchanged : (t : Tconnd W) → Pushed t id t
  unchanged t =
      unpushed t t id
        (record {
          pool = refl;
          pending = refl;
          packages = refl;
          sockets = λ j. alike (t.sockets j);
        })
        refl

  written-Pushed : (t : Tconnd W) (r : Written) → Leaves t (written kernel t id r)
  written-Pushed t write_failed = unchanged t
  written-Pushed t (wrote n) =
      if_both (Leaves t) (n == (t.sockets id).iov_total_size)
        (set_socket-Pushed t id (record (t.sockets id) { iov = []; iov_total_size = 0 })
          (record {
            status = refl;
            package_buff = refl;
            pending_ticks = refl;
            package_ticks = refl;
          })
          refl)
        (unchanged t)

  pub flush-Pushed : (t : Tconnd W) → Leaves t (flush kernel t id)
  unfolding flush
  flush-Pushed t =
      let s = t.sockets id in
      let r = kernel.writev t.world s.socketfd s.iov in
      let u = record t { world = r.0 } in
      if_both (Leaves t) (not (is_established kernel s.status)) (unchanged t) (
        if_both (Leaves t) (length s.iov == 0) (unchanged t)
          (Pushed-trans (elsewhere t r.0) (written-Pushed u r.1)))

  push_iov-Pushed : (t : Tconnd W) (body : List ℕ) → Pushed t id (push_iov kernel t id body)
  push_iov-Pushed t body =
      set_socket-Pushed t id
        (record (t.sockets id) {
          iov = (t.sockets id).iov ++ body ∷ [];
          iov_total_size = (t.sockets id).iov_total_size + length body;
        })
        (record { status = refl; package_buff = refl; pending_ticks = refl; package_ticks = refl })
        refl

  on_cmd_send-Pushed : (t : Tconnd W) (body : List ℕ) → Leaves t (on_cmd_send kernel t id body)
  unfolding on_cmd_send
  on_cmd_send-Pushed t body =
      let s = t.sockets id in
      let f = flush-Pushed t in
      if_both (Leaves t) (ltb ssize_max (length body) || (length body == 0)) (unchanged t) (
        if_both (Leaves t)
          (leb op_list_max (length s.iov) || ltb (ssize_max - length body) s.iov_total_size)
          (if_both (Leaves t) (is_noerror (flush kernel t id).0)
            (Pushed-trans f (push_iov-Pushed (flush kernel t id).1 body)) f)
          (push_iov-Pushed t body))

  -- The connection leaves the queue of those that wait to be accepted.
  unpended-IsQueued :
      (t : Tconnd W) (w : W)
      → IsQueued t
      → IsQueued (record t { pending_list = unlink_id id t.pending_list; world = w })
  unpended-IsQueued t w k = record {
    pool = k.pool;
    pending_once = unlink_id-Distinct id t.pending_list k.pending_once;
    pending_kind = λ j m.
        let p = k.pending_kind j (unlink_id-within id j t.pending_list m) in
        record { live = p.live; status = p.status };
    pending_order = unlink_id-Before (PendingOrder t) id t.pending_list k.pending_order;
    package_once = k.package_once;
    package_kind = λ j m.
        let p = k.package_kind j m in record { live = p.live; status = p.status; holds = p.holds };
    package_order = k.package_order;
  }

  unpended-Pushed :
      (t : Tconnd W) (w : W)
      → Pushed t id (record t { pending_list = unlink_id id t.pending_list; world = w })
  unpended-Pushed t w = record {
    pool = refl;
    others = λ j n. refl;
    writable = refl;
    queues = unpended-IsQueued t w;
  }

  abbrev established : Tconnd W → Socket
  established t = record (t.sockets id) { status = status_established }

  accepted-IsQueued :
      (t : Tconnd W) (w : W)
      → (t.sockets id).status ≡ status_syn_sent
      → IsQueued t
      → IsQueued (
          set_socket
            (record t { pending_list = unlink_id id t.pending_list; world = w })
            id
            (established t))
  accepted-IsQueued t w syn k =
      let u = unpended-IsQueued t w k in
      let same : (j : ℕ) → id ≢ j → put_socket t.sockets id (established t) j ≡ t.sockets j =
        λ j n. put_socket-other t.sockets id (established t) j n in
      let left : (j : ℕ) → Memᴰ j (unlink_id id t.pending_list) → id ≢ j = λ j m e.
        unlink_id-gone id t.pending_list k.pending_once
          (subst (λ i. Memᴰ i (unlink_id id t.pending_list)) (sym e) m) in
      let whole : (j : ℕ) → Memᴰ j t.package_list → id ≢ j = λ j m e.
        ground (arith, syn, ap (λ i. (t.sockets i).status) e ∙ (k.package_kind j m).status) in
      record {
        pool = k.pool;
        pending_once = u.pending_once;
        pending_kind = λ j m.
            let p = u.pending_kind j m in
            record {
              live = p.live;
              status = ap (λ (s : Socket). s.status) (same j (left j m)) ∙ p.status;
            };
        pending_order =
            Before-map (PendingOrder t)
              (λ i j.
                (put_socket t.sockets id (established t) i).pending_ticks
                ≤ (put_socket t.sockets id (established t) j).pending_ticks)
              (unlink_id id t.pending_list)
              (λ i j m n h. rw (same i (left i m), same j (left j n)) h) u.pending_order;
        package_once = k.package_once;
        package_kind = λ j m.
            let p = k.package_kind j m in
            record {
              live = p.live;
              status = ap (λ (s : Socket). s.status) (same j (whole j m)) ∙ p.status;
              holds =
                  λ e. p.holds (ap (λ (s : Socket). s.package_buff) (sym (same j (whole j m))) ∙ e);
            };
        package_order =
            Before-map (PackageOrder t)
              (λ i j.
                (put_socket t.sockets id (established t) i).package_ticks
                ≤ (put_socket t.sockets id (established t) j).package_ticks)
              t.package_list (λ i j m n h. rw (same i (whole i m), same j (whole j n)) h)
              k.package_order;
      }

  accepted-Pushed :
      (t : Tconnd W) (w : W)
      → (t.sockets id).status ≡ status_syn_sent
      → Pushed t id (
          set_socket
            (record t { pending_list = unlink_id id t.pending_list; world = w })
            id
            (established t))
  accepted-Pushed t w syn = record {
    pool = refl;
    others = λ j n. put_socket-other t.sockets id (established t) j n;
    writable = ap (λ (s : Socket). s.writable) (put_socket-own t.sockets id (established t));
    queues = accepted-IsQueued t w syn;
  }

  syn_sent-eq : (st : Status) → not (is_syn_sent kernel st) ≡ false → st ≡ status_syn_sent
  syn_sent-eq status_syn_sent h = refl
  syn_sent-eq status_closed h = absurd (ground (arith, h))
  syn_sent-eq status_established h = absurd (ground (arith, h))
  syn_sent-eq status_listen h = absurd (ground (arith, h))

  on_cmd_accept-Pushed : (t : Tconnd W) → Leaves t (on_cmd_accept kernel t id)
  unfolding on_cmd_accept
  on_cmd_accept-Pushed t =
      let s = t.sockets id in
      let r = kernel.epoll_add t.world s.socketfd in
      let u = record t { pending_list = unlink_id id t.pending_list; world = r.0 } in
      if_cases (Leaves t) (not (is_syn_sent kernel s.status)) (λ h. unchanged t)
        (λ h.
          if_both (Leaves t) r.1 (accepted-Pushed t r.0 (syn_sent-eq s.status h))
            (unpended-Pushed t r.0))

  pub push_pkg-Pushed :
      (t : Tconnd W) (cmd : ℕ) (body : List ℕ) → Leaves t (push_pkg kernel t id cmd body)
  unfolding push_pkg
  push_pkg-Pushed t cmd body = if_both (Leaves t) (cmd == cmd_send) (on_cmd_send-Pushed t body) (
      if_both (Leaves t) (cmd == cmd_accept) (on_cmd_accept-Pushed t) (
        if_both (Leaves t) (cmd == cmd_close)
          (if_both (Leaves t) (is_established kernel (t.sockets id).status) (flush-Pushed t)
            (unchanged t))
          (unchanged t)))

-- An operation of the server on a socket, `tconnd_socket_push_pkg` with any command, leaves the other
-- sockets and the pool as they are, and the queues in order.
pub push_pkg-IsQueued :
    {W : Type 0} (kernel : Kernel W) (t : Tconnd W) (id cmd : ℕ) (body : List ℕ)
    → IsQueued t
    → let u = (push_pkg kernel t id cmd body).1 in
      IsQueued u × (u.socket_pool ≡ t.socket_pool) × ((j : ℕ) → id ≢ j → u.sockets j ≡ t.sockets j)
push_pkg-IsQueued kernel t id cmd body k =
    let p = push_pkg-Pushed kernel id t cmd body in (p.queues k, p.pool, p.others)
