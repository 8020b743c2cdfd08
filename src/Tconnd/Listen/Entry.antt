-- ===== src/Tconnd/Listen/Entry.antt =====
-- tconnd/source/tconnd_listen.c, `tconnd_listen`: a new socket enters the queue of those that wait.
use mathlib.Core.List.{Memᴰ}
use mathlib.Core.List.Memᴰ.{head}
use tsf4g.Prelude.{
  ℕ, ◌+◌, ◌%◌, ◌≤◌, ◌≡◌, ◌≢◌, refl, sym, ◌∙◌, ap, subst, false, Option, some, List, [], ◌∷◌, ◌++◌,
  arith, u64_mod, length, ◌==◌,
}
use tsf4g.Errors.{ErrorCode, noerror, is_noerror}
use tsf4g.Mempool.{invalid_id, alloc, alloc_first}
use tsf4g.Mempool.Handles.{alloc_first-IsMempool, alloc_first-sn, alloc_first-own}
use tsf4g.Sip.{Cid, req_size, length-encode_req}
use tsf4g.Tbus.{Grant}
use tsf4g.Tconnd.{
  status_syn_sent, Socket, Kernel, Tconnd, set_socket, put_socket-own, put_socket-other,
}
use tsf4g.Tconnd.Sockets.{new_socket, construct}
use tsf4g.Tconnd.Queues.{IsQueued}
use tsf4g.Tconnd.Steady.{Untouched}
use tsf4g.Tconnd.Timely.{IsTimely, Enlisted}
use tsf4g.Tconnd.Notice.{connect, message}
use tsf4g.Tconnd.Outbox.{Ring, Granted, transmit-Ring}
use tsf4g.Tconnd.Listen.{enlist, admit}

-- What a call does: a connection comes to wait for the server, which is told of it by the handle
-- that the pool gave it; or nothing changes and nothing is sent.
pub data Listened {W : Type 0} (t : Tconnd W) (ps : List (List ℕ))
    : ErrorCode × Tconnd W → Type 0 where
  declined :
      {code : ErrorCode} {u : Tconnd W}
      → is_noerror code ≡ false
      → Untouched t u
      → Ring u.output_tbus ps
      → Listened t ps (code, u)
  admitted :
      (id : ℕ) {u : Tconnd W}
      → Enlisted t id u
      → Ring u.output_tbus (ps ++ message (record { sn = t.socket_pool.sn; id = id }) connect ∷ [])
      → Listened t ps (noerror, u)

abbrev pub Returns :
    {W : Type 0} → Tconnd W → List (List ℕ) → Option (ErrorCode × Tconnd W) → Type 0
Returns {W} t ps o = (r : ErrorCode × Tconnd W) × (o ≡ some r) × Listened t ps r

length-connect : (cid : Cid) → length (message cid connect) ≡ req_size
unfolding message
length-connect cid = length-encode_req (record { cmd = 1; size = 0; cid = cid })

-- The state with a new socket of the pool.
abbrev opened : {W : Type 0} → Tconnd W → ℕ → List ℕ → Tconnd W
opened t id rest =
    set_socket (record t { socket_pool = alloc_first t.socket_pool id rest }) id
      (construct (t.sockets id))

new_socket_lem :
    {W : Type 0} (t : Tconnd W) (id : ℕ) (rest : List ℕ)
    → t.socket_pool.sn ≢ invalid_id
    → t.socket_pool.unused_list ≡ id ∷ rest
    → new_socket t ≡ some (id, opened t id rest)
unfolding new_socket alloc
new_socket_lem t id rest n e =
    let b : (t.socket_pool.sn == invalid_id) ≡ false = ground arith in rw (b, e) refl

enlist-Enlisted :
    {W : Type 0} (kernel : Kernel W) (t : Tconnd W) (g : Grant) (fd id : ℕ) (rest : List ℕ)
    → t.socket_pool.sn ≢ invalid_id
    → t.socket_pool.unused_list ≡ id ∷ rest
    → IsQueued t
    → IsTimely t
    → Enlisted t id (enlist kernel (opened t id rest) g fd id)
enlist-Enlisted kernel t g fd id rest n e k h =
    let o = opened t id rest in
    let s : Socket = record (o.sockets id) {
      socketfd = fd;
      pending_ticks = (t.cur_ticks + t.config.accept_ticks_limit) % u64_mod;
      status = status_syn_sent;
    } in
    let own = put_socket-own o.sockets id s in
    record {
      fresh = k.pool.unused id (subst (Memᴰ id) (sym e) (head refl));
      pool = alloc_first-IsMempool t.socket_pool id rest n e k.pool;
      live = λ z. n (sym (alloc_first-own t.socket_pool id rest) ∙ z);
      numbers = λ j a. alloc_first-sn t.socket_pool id rest j a;
      others = λ j a.
          put_socket-other o.sockets id s j a
          ∙ put_socket-other t.sockets id (construct (t.sockets id)) j a;
      status = ap (λ (x : Socket). x.status) own;
      ticks = ap (λ (x : Socket). x.pending_ticks) own ∙ omega (arith, h.accept_in);
      pending = refl;
      packages = refl;
      clock = refl;
      config = refl;
    }

module _ {W : Type 0} (kernel : Kernel W) (t : Tconnd W) (g : Grant) (ps : List (List ℕ)) where
  pub admit_lem :
      (fd id : ℕ) (rest : List ℕ)
      → t.socket_pool.sn ≢ invalid_id
      → t.socket_pool.unused_list ≡ id ∷ rest
      → req_size ≤ g.room
      → Granted t.output_tbus g ps
      → IsQueued t
      → IsTimely t
      → Returns t ps (admit kernel t g fd)
  admit_lem fd id rest n e l h k s =
      let o = opened t id rest in
      let cid : Cid = record { sn = t.socket_pool.sn; id = id } in
      let size = length-connect cid in
      let ring =
        transmit-Ring kernel t.output_tbus g ps (message cid connect) h (omega (arith, size))
          (omega (arith, size)) in
      let named : o.socket_pool.entry_sn id ≡ t.socket_pool.sn =
        alloc_first-own t.socket_pool id rest in
      (
        (noerror, enlist kernel o g fd id),
        rw (admit, new_socket_lem t id rest n e) refl,
        admitted id (enlist-Enlisted kernel t g fd id rest n e k s) (rw named ring),
      )
