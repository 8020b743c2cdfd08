-- ===== src/Tconnd/Epoll/Supply.antt =====
-- tconnd/source/tconnd_epoll.c: the package buffers that serving a socket leaves.
use tsf4g.Prelude.{
  ℕ, ◌≤◌, ◌≡◌, refl, subst, inl, inr, Bool, true, false, Option, none, some, arith, ltb, ◌==◌,
  if_cases, if_both, Option-cases,
}
use tsf4g.Mempool.{alloc, free, invalid_id}
use tsf4g.Sip.{req_size}
use tsf4g.Tbus.{Grant}
use tsf4g.Tbus.Send.{begun, send_begin_lem}
use tsf4g.Tconnd.{
  Status, status_closed, status_syn_sent, status_established, status_listen, Package, Ready,
  connection, Kernel, Accepted, accepted, accept_failed, Tconnd, set_socket,
}
use tsf4g.Tconnd.Sockets.{
  new_socket, destruct, destruct_as, drop_readable, drop_package, delete, close_fd,
}
use tsf4g.Tconnd.Receive.{is_nil}
use tsf4g.Tconnd.Receive.Supply.{supply, Spends}
use tsf4g.Tconnd.Listen.{admit, greet, listen_granted, listen}

-- A socket that was opened, with the package buffers as they were.
abbrev Opens : {W : Type 0} → ℕ → Option (ℕ × Tconnd W) → Type 0
Opens n none = Unit {0}
Opens n (some r) = supply r.1 ≡ n

new_socket-Opens : {W : Type 0} (t : Tconnd W) → Opens (supply t) (new_socket t)
unfolding new_socket
new_socket-Opens t =
    if_cases (Opens (supply t)) (t.socket_pool.sn == invalid_id) (λ b. tt)
      (λ b. elim (Option-cases (alloc t.socket_pool)) [ inl e ↦ rw e tt | inr (r, e) ↦ rw e refl ])

module _ {W : Type 0} (kernel : Kernel W) (g : Grant) where
  admit-Spends : (t : Tconnd W) (fd : ℕ) → Spends (supply t) (admit kernel t g fd)
  admit-Spends t fd = elim (Option-cases (new_socket t)) [
    | inl e ↦ rw (admit, e) tt
    | inr (r, e) ↦
        let same : supply r.1 ≡ supply t = subst (Opens (supply t)) e (new_socket-Opens t) in
        rw (admit, e) (refl, omega (arith, same))
  ]

  greet-Spends : (t : Tconnd W) (a : Accepted) → Spends (supply t) (greet kernel t g a)
  greet-Spends t (accept_failed e) = (refl, omega arith)
  greet-Spends t (accepted fd) =
      let r = kernel.set_nonblocking t.world fd in
      if_both (Spends (supply t)) r.1 (admit-Spends (record t { world = r.0 }) fd)
        (refl, omega arith)

  listen_granted-Spends : (t : Tconnd W) → Spends (supply t) (listen_granted kernel t g)
  unfolding listen_granted
  listen_granted-Spends t =
      let r = kernel.accept t.world t.listen_socket.socketfd in
      if_both (Spends (supply t)) (ltb g.room req_size) (refl, omega arith)
        (if_both (Spends (supply t)) (t.socket_pool.sn == invalid_id) (refl, omega arith)
          (if_both (Spends (supply t)) (is_nil t.socket_pool.unused_list) (refl, omega arith)
            (greet-Spends (record t { world = r.0 }) r.1)))

pub listen-Spends :
    {W : Type 0} (kernel : Kernel W) (t : Tconnd W) → Spends (supply t) (listen kernel t)
unfolding listen
listen-Spends kernel t =
    let b = begun t.output_tbus in
    rw (listen, send_begin_lem t.output_tbus)
      (listen_granted-Spends kernel b.1 (record t { output_tbus = b.0 }))

-- What a deletion leaves besides the sockets and the queues.
pub record Aside {W : Type 0} (t u : Tconnd W) : Type 0 where
  pub output : u.output_tbus ≡ t.output_tbus
  pub clock : u.cur_ticks ≡ t.cur_ticks
  pub config : u.config ≡ t.config
  pub packages_left : supply t ≤ supply u

drop_readable-Aside :
    {W : Type 0} (kernel : Kernel W) (t u : Tconnd W) (me : Ready) (b : Bool)
    → Aside t u
    → Aside t (drop_readable kernel u me b)
drop_readable-Aside kernel t u me true a = record {
  output = a.output;
  clock = a.clock;
  config = a.config;
  packages_left = a.packages_left;
}
drop_readable-Aside kernel t u me false a = a

drop_package-supply :
    {W : Type 0} (kernel : Kernel W) (t : Tconnd W) (id : ℕ) (p : Option Package)
    → Aside t (drop_package kernel t id p)
unfolding free
drop_package-supply kernel t id none = record {
  output = refl;
  clock = refl;
  config = refl;
  packages_left = omega arith;
}
drop_package-supply kernel t id (some p) = record {
  output = refl;
  clock = refl;
  config = refl;
  packages_left = omega arith;
}

destruct_as-Aside :
    {W : Type 0} (kernel : Kernel W) (st : Status) (t : Tconnd W) (id : ℕ)
    → Aside t (destruct_as kernel st t id)
destruct_as-Aside kernel status_closed t id = record {
  output = refl;
  clock = refl;
  config = refl;
  packages_left = omega arith;
}
destruct_as-Aside kernel status_syn_sent t id = record {
  output = refl;
  clock = refl;
  config = refl;
  packages_left = omega arith;
}
destruct_as-Aside kernel status_established t id =
    let s = t.sockets id in
    let c = close_fd kernel t s in
    let a = drop_package-supply kernel c id s.package_buff in
    drop_readable-Aside kernel t
      (set_socket (drop_package kernel c id s.package_buff) id (record s { package_buff = none }))
      (connection id) s.readable
      (record {
        output = a.output;
        clock = a.clock;
        config = a.config;
        packages_left = a.packages_left;
      })
destruct_as-Aside kernel status_listen t id =
    let s = t.sockets id in
    drop_readable-Aside kernel t (close_fd kernel t s) (connection id) s.readable
      (record { output = refl; clock = refl; config = refl; packages_left = omega arith })

pub delete-Aside :
    {W : Type 0} (kernel : Kernel W) (t : Tconnd W) (id : ℕ) → Aside t (delete kernel t id)
unfolding delete destruct
delete-Aside kernel t id =
    let a = destruct_as-Aside kernel (t.sockets id).status t id in
    record {
      output = a.output;
      clock = a.clock;
      config = a.config;
      packages_left = a.packages_left;
    }
