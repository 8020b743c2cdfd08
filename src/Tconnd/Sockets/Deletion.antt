-- ===== src/Tconnd/Sockets/Deletion.antt =====
-- What the deletion of a socket leaves.
use tsf4g.Prelude.{ℕ, ◌≡◌, ◌≢◌, refl, ap, Bool, true, false, Option, none, some, List}
use tsf4g.Mempool.{free, unlink_id}
use tsf4g.Tconnd.{
  Status, status_closed, status_syn_sent, status_established, status_listen, Package, Socket, Ready,
  connection, Kernel, Tconnd, set_socket, put_socket-other,
}
use tsf4g.Tconnd.Sockets.{close_fd, drop_readable, drop_package, destruct_as, destruct, delete}

abbrev pub pending_after : Status → ℕ → List ℕ → List ℕ
pending_after status_syn_sent id l = unlink_id id l
pending_after _ id l = l

abbrev pub unlinked : Option Package → ℕ → List ℕ → List ℕ
unlinked none id l = l
unlinked (some p) id l = unlink_id id l

abbrev pub package_after : Status → Option Package → ℕ → List ℕ → List ℕ
package_after status_established p id l = unlinked p id l
package_after _ p id l = l

-- A state with one socket less in its queues.
pub record Destructed {W : Type 0} (st : Status) (t : Tconnd W) (id : ℕ) (u : Tconnd W)
    : Type 0 where
  pub pool : u.socket_pool ≡ t.socket_pool
  pub ticks : u.cur_ticks ≡ t.cur_ticks
  pub others : (j : ℕ) → id ≢ j → u.sockets j ≡ t.sockets j
  pub pending : u.pending_list ≡ pending_after st id t.pending_list
  pub packages : u.package_list ≡ package_after st (t.sockets id).package_buff id t.package_list

module _ {W : Type 0} (kernel : Kernel W) where
  -- A state that differs in its list of readable sockets only.
  drop_readable-Destructed :
      (b : Bool) (st : Status) (t u : Tconnd W) (id : ℕ) (r : Ready)
      → Destructed st t id u
      → Destructed st t id (drop_readable kernel u r b)
  drop_readable-Destructed true st t u id r d = record {
    pool = d.pool;
    ticks = d.ticks;
    others = d.others;
    pending = d.pending;
    packages = d.packages;
  }
  drop_readable-Destructed false st t u id r d = d

  established-Destructed :
      (p : Option Package) (t : Tconnd W) (id : ℕ) (s : Socket)
      → p ≡ (t.sockets id).package_buff
      → Destructed status_established t id
          (set_socket (drop_package kernel (close_fd kernel t (t.sockets id)) id p) id s)
  established-Destructed none t id s e = record {
    pool = refl;
    ticks = refl;
    others = λ j n. put_socket-other t.sockets id s j n;
    pending = refl;
    packages = ap (λ p. unlinked p id t.package_list) e;
  }
  established-Destructed (some p) t id s e = record {
    pool = refl;
    ticks = refl;
    others = λ j n. put_socket-other t.sockets id s j n;
    pending = refl;
    packages = ap (λ p. unlinked p id t.package_list) e;
  }

  destruct_as-Destructed :
      (st : Status) (t : Tconnd W) (id : ℕ) → Destructed st t id (destruct_as kernel st t id)
  destruct_as-Destructed status_closed t id = record {
    pool = refl;
    ticks = refl;
    others = λ j n. refl;
    pending = refl;
    packages = refl;
  }
  destruct_as-Destructed status_syn_sent t id = record {
    pool = refl;
    ticks = refl;
    others = λ j n. refl;
    pending = refl;
    packages = refl;
  }
  destruct_as-Destructed status_established t id =
      let s = t.sockets id in
      drop_readable-Destructed s.readable status_established t
        (set_socket (drop_package kernel (close_fd kernel t s) id s.package_buff) id
          (record s { package_buff = none }))
        id (connection id)
        (established-Destructed s.package_buff t id (record s { package_buff = none }) refl)
  destruct_as-Destructed status_listen t id =
      drop_readable-Destructed (t.sockets id).readable status_listen t
        (close_fd kernel t (t.sockets id)) id (connection id)
        (record {
          pool = refl;
          ticks = refl;
          others = λ j n. refl;
          pending = refl;
          packages = refl;
        })

  pub destruct-Destructed :
      (t : Tconnd W) (id : ℕ) → Destructed (t.sockets id).status t id (destruct kernel t id)
  unfolding destruct
  destruct-Destructed t id = destruct_as-Destructed (t.sockets id).status t id

-- A state with one socket less.
pub record Deleted {W : Type 0} (t : Tconnd W) (id : ℕ) (u : Tconnd W) : Type 0 where
  pub pool : u.socket_pool ≡ free t.socket_pool id
  pub ticks : u.cur_ticks ≡ t.cur_ticks
  pub others : (j : ℕ) → id ≢ j → u.sockets j ≡ t.sockets j
  pub pending : u.pending_list ≡ pending_after (t.sockets id).status id t.pending_list
  pub packages :
      u.package_list
      ≡ package_after (t.sockets id).status (t.sockets id).package_buff id t.package_list

pub delete-Deleted :
    {W : Type 0} (kernel : Kernel W) (t : Tconnd W) (id : ℕ) → Deleted t id (delete kernel t id)
unfolding delete
delete-Deleted kernel t id =
    let d = destruct-Destructed kernel t id in
    record {
      pool = ap (λ p. free p id) d.pool;
      ticks = d.ticks;
      others = d.others;
      pending = d.pending;
      packages = d.packages;
    }
