-- ===== src/Tconnd/Epoll.antt =====
-- tconnd/source/tconnd_epoll.c, `tconnd_epool_proc`: the sockets that can be read.
pub mod Supply
pub mod Rounds
pub mod Serving
pub mod Loop
use Prim.Native.Nat.{ℕ}
use mathlib.Core.Bool.{Bool, true, false}
use mathlib.Core.Option.{Option, none, some}
use mathlib.Core.List.{List, [], ◌∷◌, ◌++◌}
use tsf4g.Prelude.{if◌then◌else◌}
use tsf4g.Errors.{
  ErrorCode, noerror, error, errno, would_block, close, no_memory, tbus_not_enough_space,
  too_many_socket,
}
use tsf4g.Tconnd.{
  Ready, listener, connection, Errno, errno_again, errno_intr, errno_other, Happening, socket_event,
  timer_event, Waited, happened, wait_failed, Kernel, Tconnd, set_socket, unlink_ready,
}
use tsf4g.Tconnd.Sockets.{delete}
use tsf4g.Tconnd.Expiry.{on_tick}
use tsf4g.Tconnd.Receive.{recv}
use tsf4g.Tconnd.Listen.{listen}

module _ {W : Type 0} (kernel : Kernel W) where
  abbrev pub is_readable : Tconnd W → Ready → Bool
  is_readable t listener = t.listen_socket.readable
  is_readable t (connection id) = (t.sockets id).readable

  abbrev pub set_readable : Tconnd W → Ready → Bool → Tconnd W
  set_readable t listener b = record t { listen_socket = record t.listen_socket { readable = b } }
  set_readable t (connection id) b = set_socket t id (record (t.sockets id) { readable = b })

  -- The loop over the events, with `ret` as it stands: the answer that ends the call, if there is
  -- one, and what `ret` is then.
  unfoldable pub take_events :
      List Happening → ErrorCode → Tconnd W → Option ErrorCode × ErrorCode × Tconnd W
  take_events [] ret t = (none, ret, t)
  take_events (timer_event ∷ es) ret t = take_events es noerror (on_tick kernel t)
  take_events (socket_event r ∷ es) ret t =
      let u = set_readable t r true in
      let rest = take_events es ret (record u { readable_list = u.readable_list ++ r ∷ [] }) in
      if is_readable t r then (some error, ret, t) else rest

  -- Whether the loop over the readable sockets goes on, with what `ret` then is, or ends with a
  -- code.
  pub data Next : Type 0 where
    goes_on : ErrorCode → Tconnd W → Next
    ends : ErrorCode → Tconnd W → Next

  abbrev pub on_errno : Errno → ErrorCode → Ready → Tconnd W → Next
  on_errno errno_again ret r t =
      let u = set_readable t r false in
      goes_on ret (record u { readable_list = unlink_ready r u.readable_list })
  on_errno errno_intr ret r t = goes_on ret t
  on_errno errno_other ret r t = ends errno t

  -- The connection that has waited longest for the rest of a packet is closed.
  abbrev pub on_no_memory : List ℕ → ErrorCode → Tconnd W → Next
  on_no_memory [] ret t = goes_on no_memory t
  on_no_memory (id ∷ ids) ret t = goes_on ret (delete kernel t id)

  abbrev pub drop_ready : Ready → Tconnd W → Tconnd W
  drop_ready listener t = t
  drop_ready (connection id) t = delete kernel t id

  -- The `switch` on the answer for a socket. The listening socket never answers to be closed.
  abbrev pub on_answer : ErrorCode → ErrorCode → Ready → Tconnd W → Next
  on_answer noerror ret r t = goes_on noerror t
  on_answer tbus_not_enough_space ret r t = ends would_block t
  on_answer too_many_socket ret r t = goes_on ret t
  on_answer would_block ret r t = goes_on ret t
  on_answer errno ret r t = on_errno t.errno ret r t
  on_answer no_memory ret r t = on_no_memory t.package_list ret t
  on_answer close ret r t = goes_on ret (drop_ready r t)
  on_answer code ret r t = ends code t

  abbrev pub serve : Ready → Tconnd W → Option (ErrorCode × Tconnd W)
  serve listener t = listen kernel t
  serve (connection id) t = recv kernel t id

  -- The loop over the readable sockets. The next one is saved before a socket is served, so that
  -- the loop runs over the list as it was, deleted sockets too.
  unfoldable pub serve_all : List Ready → ErrorCode → Tconnd W → Option (ErrorCode × Tconnd W)
  serve_all [] ret t = some (ret, t)
  serve_all (r ∷ rs) ret t = elim (serve r t) [
    | none ↦ none
    | some a ↦ (elim (on_answer a.0 ret r a.1) [
      | goes_on ret' u ↦ serve_all rs ret' u
      | ends code u ↦ some (code, u)
    ])
  ]

  abbrev pub serve_readable : ErrorCode → Tconnd W → Option (ErrorCode × Tconnd W)
  serve_readable ret t = elim t.readable_list [
    | [] ↦ some (would_block, t)
    | r ∷ rs ↦ serve_all (r ∷ rs) ret t
  ]

  abbrev pub taken_events : Option ErrorCode × ErrorCode × Tconnd W → Option (ErrorCode × Tconnd W)
  taken_events (some code, ret, t) = some (code, t)
  taken_events (none, ret, t) = serve_readable ret t

  abbrev pub on_waited : Tconnd W → Waited → Option (ErrorCode × Tconnd W)
  on_waited t (wait_failed errno_intr) = some (noerror, t)
  on_waited t (wait_failed errno_again) = some (errno, t)
  on_waited t (wait_failed errno_other) = some (errno, t)
  on_waited t (happened es) = taken_events (take_events es would_block t)

  -- `tconnd_epool_proc`
  unfoldable pub epool_proc : Tconnd W → Option (ErrorCode × Tconnd W)
  unfolding serve_all take_events
  epool_proc t =
      let r = kernel.epoll_wait t.world in
      elim t.readable_list [
        | [] ↦ on_waited (record t { world = r.0 }) r.1
        | x ∷ xs ↦ serve_readable would_block t
      ]
