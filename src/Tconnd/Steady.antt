-- ===== src/Tconnd/Steady.antt =====
-- What does not touch the connections of tconnd.

use tsf4g.Prelude.{◌≡◌, refl, sym, subst}
use tsf4g.Tbus.{Tbus}
use tsf4g.Tconnd.{Errno, Tconnd}
use tsf4g.Tconnd.Queues.{IsQueued}
use tsf4g.Tconnd.Sockets.Similar.{Similar-IsQueued, Alike, alike}
use tsf4g.Tconnd.Timely.{IsTimely}

-- The connections are as they were.
pub record Untouched {W : Type 0} (t u : Tconnd W) : Type 0 where
  pub pool : u.socket_pool ≡ t.socket_pool
  pub sockets : u.sockets ≡ t.sockets
  pub pending : u.pending_list ≡ t.pending_list
  pub packages : u.package_list ≡ t.package_list
  pub clock : u.cur_ticks ≡ t.cur_ticks
  pub config : u.config ≡ t.config

-- A call of the kernel changes nothing of it.
abbrev pub at : {W : Type 0} → Tconnd W → W → Tbus → Tconnd W
at t w o = record t { world = w; output_tbus = o }

pub at-IsQueued : {W : Type 0} (t : Tconnd W) (w : W) (o : Tbus) → IsQueued t → IsQueued (at t w o)
at-IsQueued t w o k =
    Similar-IsQueued
      (record { pool = refl; pending = refl; packages = refl; sockets = λ j. alike (t.sockets j) })
      k

pub at-IsTimely : {W : Type 0} (t : Tconnd W) (w : W) (o : Tbus) → IsTimely t → IsTimely (at t w o)
at-IsTimely t w o s = record {
  pending_soon = s.pending_soon;
  package_soon = s.package_soon;
  accept_in = s.accept_in;
  package_in = s.package_in;
}

pub at-Untouched :
    {W : Type 0} (t : Tconnd W) (w : W) (o : Tbus) {u : Tconnd W}
    → Untouched (at t w o) u
    → Untouched t u
at-Untouched t w o e = record {
  pool = e.pool;
  sockets = e.sockets;
  pending = e.pending;
  packages = e.packages;
  clock = e.clock;
  config = e.config;
}

-- A failure that the kernel causes.
pub failed :
    {W : Type 0} (t : Tconnd W) (w : W) (e : Errno)
    → Untouched t (record t { world = w; errno = e })
failed t w e = record {
  pool = refl;
  sockets = refl;
  pending = refl;
  packages = refl;
  clock = refl;
  config = refl;
}

pub Untouched-IsQueued : {W : Type 0} {t u : Tconnd W} → Untouched t u → IsQueued t → IsQueued u
Untouched-IsQueued {t = t} n k =
    Similar-IsQueued
      (record {
        pool = n.pool;
        pending = n.pending;
        packages = n.packages;
        sockets = λ j. subst (λ v. Alike (t.sockets j) (v j)) (sym n.sockets) (alike (t.sockets j));
      })
      k

pub Untouched-IsTimely : {W : Type 0} {t u : Tconnd W} → Untouched t u → IsTimely t → IsTimely u
Untouched-IsTimely n s = record {
  pending_soon = rw (n.pending, n.sockets, n.clock, n.config) s.pending_soon;
  package_soon = rw (n.packages, n.sockets, n.clock, n.config) s.package_soon;
  accept_in = rw (n.clock, n.config) s.accept_in;
  package_in = rw (n.clock, n.config) s.package_in;
}
