-- ===== src/Tconnd/Listen/Admission.antt =====
-- tconnd/source/tconnd_listen.c, `tconnd_listen`: a connection comes in, or nothing does.

use tsf4g.Prelude.{
  ℕ, ◌≤◌, ◌≡◌, ◌≢◌, refl, ap, inl, inr, false, Option, some, List, ◌∷◌, arith, if_both, if_cases,
  List-cases, ltb, ◌==◌,
}
use tsf4g.Errors.{ErrorCode, is_noerror, error, errno, too_many_socket, tbus_not_enough_space}
use tsf4g.Mempool.{invalid_id}
use tsf4g.Sip.{req_size}
use tsf4g.Tbus.{Tbus, Grant}
use tsf4g.Tbus.Send.{begun, send_begin_lem}
use tsf4g.Tconnd.{Kernel, Accepted, accepted, accept_failed, errno_other, Tconnd}
use tsf4g.Tconnd.Queues.{IsQueued}
use tsf4g.Tconnd.Steady.{
  at, at-IsQueued, at-IsTimely, at-Untouched, failed, Untouched-IsQueued, Untouched-IsTimely,
}
use tsf4g.Tconnd.Timely.{IsTimely, Enlisted, Enlisted-IsQueued, Enlisted-IsTimely}
use tsf4g.Tconnd.Receive.{is_nil}
use tsf4g.Tconnd.Outbox.{Ring, Granted, Granted-Ring, begun-Granted}
use tsf4g.Tconnd.Listen.{greet, listen_granted, listen}
use tsf4g.Tconnd.Listen.Entry.{Listened, declined, admitted, Returns, admit_lem}

at-Enlisted :
    {W : Type 0} (t : Tconnd W) (w : W) (o : Tbus) (id : ℕ) {u : Tconnd W}
    → Enlisted (at t w o) id u
    → Enlisted t id u
at-Enlisted t w o id e = record {
  fresh = e.fresh;
  pool = e.pool;
  live = e.live;
  numbers = e.numbers;
  others = e.others;
  status = e.status;
  ticks = e.ticks;
  pending = e.pending;
  packages = e.packages;
  clock = e.clock;
  config = e.config;
}

at-Listened :
    {W : Type 0} (t : Tconnd W) (w : W) (o : Tbus) (ps : List (List ℕ)) {r : ErrorCode × Tconnd W}
    → Listened (at t w o) ps r
    → Listened t ps r
at-Listened t w o ps (declined n e r) = declined n (at-Untouched t w o e) r
at-Listened t w o ps (admitted id e r) = admitted id (at-Enlisted t w o id e) r

at-Returns :
    {W : Type 0} (t : Tconnd W) (w : W) (o : Tbus) (ps : List (List ℕ))
    {x : Option (ErrorCode × Tconnd W)}
    → Returns (at t w o) ps x
    → Returns t ps x
at-Returns t w o ps (r, e, l) = (r, e, at-Listened t w o ps l)

module _ {W : Type 0} (kernel : Kernel W) (t : Tconnd W) (g : Grant) (ps : List (List ℕ)) where
  greet_lem :
      (a : Accepted) (id : ℕ) (rest : List ℕ)
      → t.socket_pool.sn ≢ invalid_id
      → t.socket_pool.unused_list ≡ id ∷ rest
      → req_size ≤ g.room
      → Granted t.output_tbus g ps
      → IsQueued t
      → IsTimely t
      → Returns t ps (greet kernel t g a)
  greet_lem (accept_failed e) id rest n u l h k s =
      ((errno, record t { errno = e }), refl, declined refl (failed t t.world e) (Granted-Ring h))
  greet_lem (accepted fd) id rest n u l h k s =
      let r = kernel.set_nonblocking t.world fd in
      let w = kernel.close r.0 fd in
      if_both (Returns t ps) r.1
        (at-Returns t r.0 t.output_tbus ps (
          admit_lem kernel (at t r.0 t.output_tbus) g ps fd id rest n u l h
            (at-IsQueued t r.0 t.output_tbus k) (at-IsTimely t r.0 t.output_tbus s)))
        (
          (errno, record t { world = w; errno = errno_other }),
          refl,
          declined refl (failed t w errno_other) (Granted-Ring h),
        )

module _ {W : Type 0} (kernel : Kernel W) (t : Tconnd W) (g : Grant) (ps : List (List ℕ)) where
  untouched :
      (code : ErrorCode)
      → is_noerror code ≡ false
      → Granted t.output_tbus g ps
      → Returns t ps (some (code, t))
  untouched code n h = (
    (code, t),
    refl,
    declined n
        (record {
          pool = refl;
          sockets = refl;
          pending = refl;
          packages = refl;
          clock = refl;
          config = refl;
        })
        (Granted-Ring h),
  )

  listen_granted_lem :
      Granted t.output_tbus g ps
      → IsQueued t
      → IsTimely t
      → Returns t ps (listen_granted kernel t g)
  unfolding listen_granted
  listen_granted_lem h k s =
      let r = kernel.accept t.world t.listen_socket.socketfd in
      if_cases (Returns t ps) (ltb g.room req_size) (λ b. untouched tbus_not_enough_space refl h)
        (λ b.
          if_cases (Returns t ps) (t.socket_pool.sn == invalid_id) (λ c. untouched error refl h)
            (λ c. elim (List-cases t.socket_pool.unused_list) [
              | inl e ↦ rw (ap is_nil e) (untouched too_many_socket refl h)
              | inr (id, rest, e) ↦ rw (ap is_nil e) (
                  at-Returns t r.0 t.output_tbus ps (
                    greet_lem kernel (at t r.0 t.output_tbus) g ps r.1 id rest (ground arith) e
                      (ground arith) h (at-IsQueued t r.0 t.output_tbus k)
                      (at-IsTimely t r.0 t.output_tbus s)))
            ]))

Listened-IsQueued :
    {W : Type 0} {t : Tconnd W} {ps : List (List ℕ)} {r : ErrorCode × Tconnd W}
    → Listened t ps r
    → IsQueued t
    → IsTimely t
    → IsQueued r.1 × IsTimely r.1
Listened-IsQueued (declined n e r) k s = (Untouched-IsQueued e k, Untouched-IsTimely e s)
Listened-IsQueued (admitted id e r) k s = (Enlisted-IsQueued e k s, Enlisted-IsTimely e k s)

-- `tconnd_listen` returns. Either it gives the code of no error, a unit of the pool that was free
-- has become a connection that waits at the end of its queue, with its time limit, the ring to the
-- server holds one message more, which names it by its handle, and no other connection has
-- changed; or it gives another code, and the connections, the queues and the packets of the ring
-- are as they were. The queues are in order before and after, the times in them within their
-- limits, and the ring is well formed.
pub listen_lem :
    {W : Type 0} (kernel : Kernel W) (t : Tconnd W) (ps : List (List ℕ))
    → Ring t.output_tbus ps
    → IsQueued t
    → IsTimely t
    → (r : ErrorCode × Tconnd W) × (listen kernel t ≡ some r)
      × Listened t ps r
      × IsQueued r.1
      × IsTimely r.1
unfolding listen
listen_lem kernel t ps h k s =
    let b = begun t.output_tbus in
    let u = at t t.world b.0 in
    let (r, e, l) =
      listen_granted_lem kernel u b.1 ps (begun-Granted t.output_tbus ps h)
        (at-IsQueued t t.world b.0 k) (at-IsTimely t t.world b.0 s) in
    let l' = at-Listened t t.world b.0 ps l in
    let (queued, timely) = Listened-IsQueued l' k s in
    (r, rw (listen, send_begin_lem t.output_tbus) e, l', queued, timely)
