-- ===== src/Tconnd/Receive/Buffers.antt =====
-- tconnd/source/tconnd_socket.c, `tconnd_socket_recv`: a package buffer is given back, and taken, as
-- the queues need it.

use tsf4g.Prelude.{
  ℕ, ◌+◌, ◌%◌, ◌≡◌, refl, sym, ◌∙◌, ap, List, [], ◌∷◌, ◌++◌, Option, none, some, arith, u64_mod,
}
use tsf4g.Mempool.{alloc, alloc_first, free}
use tsf4g.Tconnd.{
  status_established, Package, Socket, put_socket, Kernel, Tconnd, put_socket-own, put_socket-other,
}
use tsf4g.Tconnd.Queues.{IsLive, IsQueued, HasPart}
use tsf4g.Tconnd.Timely.{IsTimely}
use tsf4g.Tconnd.Receive.{bytes_of, release, retain}
use tsf4g.Tconnd.Receive.Parts.{
  Around, IsAbsent, Around-IsAbsent, leave-IsQueued, leave-IsTimely, join-IsQueued, join-IsTimely,
}

pub Around-refl : {W : Type 0} (t : Tconnd W) (id : ℕ) → Around t id t
Around-refl t id = record {
  pool = refl;
  pending = refl;
  clock = refl;
  config = refl;
  others = λ j n. refl;
  status = refl;
  ticks = refl;
}

pub Around-trans :
    {W : Type 0} {t u v : Tconnd W} {id : ℕ} → Around t id u → Around u id v → Around t id v
Around-trans a b = record {
  pool = b.pool ∙ a.pool;
  pending = b.pending ∙ a.pending;
  clock = b.clock ∙ a.clock;
  config = b.config ∙ a.config;
  others = λ j n. b.others j n ∙ a.others j n;
  status = b.status ∙ a.status;
  ticks = b.ticks ∙ a.ticks;
}

-- A state that a call leads to, with all that it keeps.
pub record Kept {W : Type 0} (t : Tconnd W) (id : ℕ) (u : Tconnd W) : Type 0 where
  pub around : Around t id u
  pub output : u.output_tbus ≡ t.output_tbus
  pub queued : IsQueued u
  pub timely : IsTimely u

-- Room in the pool of package buffers.
abbrev pub HasRoom : {W : Type 0} → Tconnd W → Type 0
HasRoom t = (x : ℕ) × (xs : List ℕ) × (t.package_pool.unused_list ≡ x ∷ xs)

module _ {W : Type 0} (kernel : Kernel W) (t : Tconnd W) (id : ℕ) (k : IsQueued t)
    (s : IsTimely t) where
  pub release_lem :
      (p : Option Package)
      → (t.sockets id).package_buff ≡ p
      → HasRoom t
      → let u = release kernel p t id in
        Kept t id u × IsAbsent u id × ((u.sockets id).package_buff ≡ none) × HasRoom u
  unfolding free
  release_lem none e h = (
    record { around = Around-refl t id; output = refl; queued = k; timely = s },
    (λ m. (k.package_kind id m).holds e),
    e,
    h,
  )
  release_lem (some p) e h =
      let x : Socket = record (t.sockets id) { package_buff = none } in
      let own = put_socket-own t.sockets id x in
      let u = release kernel (some p) t id in
      let a : Around t id u = record {
        pool = refl;
        pending = refl;
        clock = refl;
        config = refl;
        others = λ j n. put_socket-other t.sockets id x j n;
        status = ap (λ (s : Socket). s.status) own;
        ticks = ap (λ (s : Socket). s.pending_ticks) own;
      } in
      (
        record {
          around = a;
          output = refl;
          queued = leave-IsQueued a refl k;
          timely = leave-IsTimely a refl k s;
        },
        Around-IsAbsent a refl k,
        ap (λ (s : Socket). s.package_buff) own,
        (p.slot, t.package_pool.unused_list, refl),
      )

  pub retain_lem :
      (r : List ℕ)
      → IsLive t id
      → (t.sockets id).status ≡ status_established
      → (t.sockets id).package_buff ≡ none
      → IsAbsent t id
      → HasRoom t
      → (u : Tconnd W) × (retain kernel t id r ≡ some u)
        × Kept t id u
        × (bytes_of (u.sockets id).package_buff ≡ r)
  unfolding alloc
  retain_lem [] live status e n h = (
    t,
    refl,
    record { around = Around-refl t id; output = refl; queued = k; timely = s },
    ap bytes_of e,
  )
  retain_lem (b ∷ bs) live status e n (y, ys, h) =
      let x : Socket = record (t.sockets id) {
        package_buff = some (record { slot = y; bytes = b ∷ bs });
        package_ticks = (t.cur_ticks + t.config.package_ticks_limit) % u64_mod;
      } in
      let own = put_socket-own t.sockets id x in
      let u : Tconnd W = record t {
        package_pool = alloc_first t.package_pool y ys;
        package_list = t.package_list ++ id ∷ [];
        sockets = put_socket t.sockets id x;
      } in
      let a : Around t id u = record {
        pool = refl;
        pending = refl;
        clock = refl;
        config = refl;
        others = λ j n. put_socket-other t.sockets id x j n;
        status = ap (λ (s : Socket). s.status) own;
        ticks = ap (λ (s : Socket). s.pending_ticks) own;
      } in
      let part : HasPart u id = record {
        live = live;
        status = ap (λ (s : Socket). s.status) own ∙ status;
        holds = λ z.
            let clash : some (record { slot = y; bytes = b ∷ bs }) ≡ none =
              sym (ap (λ (s : Socket). s.package_buff) own) ∙ z in
            ground arith;
      } in
      let set : (u.sockets id).package_ticks ≡ t.cur_ticks + t.config.package_ticks_limit =
        ap (λ (s : Socket). s.package_ticks) own ∙ omega (arith, s.package_in) in
      (
        u,
        rw (retain, alloc, h) refl,
        record {
          around = a;
          output = refl;
          queued = join-IsQueued a refl n part set k s;
          timely = join-IsTimely a refl n part set k s;
        },
        ap (λ (s : Socket). bytes_of s.package_buff) own,
      )
