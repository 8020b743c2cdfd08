-- ===== src/Tests/ConnectionTests.antt =====
-- tconnd with a kernel whose state counts the descriptors that were closed.
use tsf4g.Prelude.{
  ℕ, suc, ◌≡◌, ◌≢◌, refl, true, false, none, some, List, [], ◌∷◌, arith, length, ◌≤◌, if◌then◌else◌,
  ◌==◌,
}
use tsf4g.Errors.{noerror, ErrorCode}
use tsf4g.Mempool.{Mempool, init, ids_from, alloc_first}
use tsf4g.Mempool.Handles.{IsMempool, init-IsMempool, alloc_first-IsMempool}
use tsf4g.Sip.{Cid, cmd_send, cmd_accept, encode_rsp}
use tsf4g.Tconnd.{
  Arrival, status_closed, status_syn_sent, status_established, Socket, Kernel, wrote, read_again,
  bytes_read, accepted, wait_failed, errno_again, Tconnd,
}
use tsf4g.Tconnd.Sockets.{push_pkg}
use tsf4g.Tconnd.Sockets.Pushes.{push_pkg-IsQueued}
use tsf4g.Tconnd.Queues.{IsQueued, IsLive}
use tsf4g.Tconnd.Expiry.{timer_process}
use tsf4g.Tconnd.Expiry.Due.{TimedOut, timer_process_lem}
use tsf4g.Tconnd.Timely.{IsTimely}
use tsf4g.Tconnd.Outbox.{Ring}
use tsf4g.Tconnd.Listen.{listen}
use tsf4g.Tconnd.Listen.Admission.{listen_lem}
use tsf4g.Tconnd.Listen.Entry.{Listened}
use tsf4g.Tconnd.Receive.{recv, recv_granted}
use tsf4g.Tbus.{send_begin, send_begin_fuel}
use tsf4g.Mempool.{alloc}
use tsf4g.Tconnd.Receive.Outcomes.{IsReader, Heard}
use tsf4g.Tconnd.Receive.Arrivals.{IsOpen, recv_lem}
use tsf4g.Tconnd.{put_socket}
use tsf4g.Tconnd.Receive.Buffered.{IsRest, recv-IsRest}
use tsf4g.Tconnd.Cut.{receive, cut_all, cut_loop, conclude, keep_rest}
use tsf4g.Frames.{word16}
use tsf4g.Tconnd.{listener, connection}
use tsf4g.Tconnd.Epoll.{epool_proc}
use tsf4g.Tconnd.Epoll.Rounds.{Round, Sound}
use tsf4g.Tconnd.Epoll.Loop.{epool_proc-Sound}
use tsf4g.Tconnd.Input.{handle_messages}
use tsf4g.Tconnd.Input.Flushing.{IsIdle, handle_messages-IsIdle}
use tsf4g.Tconnd.Queues.{IsPending}
use tsf4g.Tests.TbusTests.{empty_ring, empty_ring-Holds, wide_ring, wide_ring-Holds}
use mathlib.Core.List.Memᴰ.{cases_cons, not-nil}
use tsf4g.Prelude.{inl, inr, subst, sym, ap, Bool-cases, ◌++◌, if_both}

abbrev pub kernel : Kernel ℕ
kernel = record {
  writev = λ w fd iov. (w, wrote (length iov));
  recv = λ w fd room. (w, (if room == 0 then read_again else bytes_read (7 ∷ [])));
  accept = λ w fd. (w, accepted 9);
  set_nonblocking = λ w fd. (w, true);
  epoll_add = λ w fd. (w, true);
  epoll_wait = λ w. (w, wait_failed errno_again);
  close = λ w fd. suc w;
  read_timer = λ w. (w, 1);
}

abbrev closed_socket : Socket
closed_socket = record {
  status = status_closed;
  socketfd = 0;
  pending_ticks = 0;
  package_ticks = 0;
  package_buff = none;
  writable = false;
  readable = false;
  iov = [];
  iov_total_size = 0;
}

-- A connection that the server has not accepted, due at tick 5.
abbrev waiting_socket : Socket
waiting_socket = record closed_socket { status = status_syn_sent; socketfd = 8; pending_ticks = 5 }

abbrev pool : Mempool
pool = alloc_first (init 2) 0 (1 ∷ [])

-- The handle of the connection is that of the first unit of the pool, with number 0.
abbrev pub waiting : Tconnd ℕ
waiting = record {
  world = 0;
  config = record { package_size = 100; accept_ticks_limit = 10; package_ticks_limit = 10 };
  socket_pool = pool;
  package_pool = init 2;
  sockets = λ i. if i == 0 then waiting_socket else closed_socket;
  listen_socket = closed_socket;
  pending_list = 0 ∷ [];
  package_list = [];
  readable_list = [];
  cur_ticks = 6;
  input_tbus = empty_ring.bus;
  output_tbus = empty_ring.bus;
  errno = errno_again;
}

pool-IsMempool : IsMempool pool
unfolding init ids_from
pool-IsMempool =
    alloc_first-IsMempool (init 2) 0 (1 ∷ []) (λ e. omega (arith, e)) refl (init-IsMempool 2)

IsLive-waiting : IsLive waiting 0
unfolding alloc_first init
IsLive-waiting e = omega (arith, e)

waiting-IsQueued : IsQueued waiting
waiting-IsQueued = record {
  pool = pool-IsMempool;
  pending_once = ((λ m. not-nil m), tt);
  pending_kind = λ id m. elim (cases_cons m) [
    | inl e ↦ subst (IsPending waiting) (sym e) (record { live = IsLive-waiting; status = refl })
    | inr n ↦ absurd (not-nil n)
  ];
  pending_order = ((λ j m. absurd (not-nil m)), tt);
  package_once = tt;
  package_kind = λ id m. absurd (not-nil m);
  package_order = tt;
}

timer_process_lem_example : TimedOut kernel waiting (timer_process kernel waiting)
timer_process_lem_example = timer_process_lem kernel waiting waiting-IsQueued

-- The connection is accepted, and has no time left to wait.
abbrev opened : Tconnd ℕ
opened = (push_pkg kernel waiting 0 cmd_accept []).1

push_pkg-IsQueued_example :
    IsQueued opened
    × (opened.socket_pool ≡ pool)
    × ((j : ℕ) → 0 ≢ j → opened.sockets j ≡ waiting.sockets j)
push_pkg-IsQueued_example = push_pkg-IsQueued kernel waiting 0 cmd_accept [] waiting-IsQueued

waiting-IsIdle : IsIdle kernel waiting
waiting-IsIdle = record {
  queued = waiting-IsQueued;
  once = tt;
  held = λ j m. absurd (not-nil m);
  listed = λ j l e.
      let n : (waiting.sockets j).writable ≡ false =
        if_both (λ (s : Socket). s.writable ≡ false) (j == 0) refl refl in
      absurd (ground arith);
  idle = λ j l e. if_both (λ (s : Socket). s.iov ≡ []) (j == 0) refl refl;
}

-- The server accepts the connection and sends it two bytes.
abbrev pub cid : Cid
cid = record { sn = 0; id = 0 }

abbrev pub accept_message : List ℕ
accept_message = encode_rsp (record { cmd = cmd_accept; size = 0; cid_list = cid ∷ [] })

abbrev pub send_message : List ℕ
send_message = encode_rsp (record { cmd = cmd_send; size = 2; cid_list = cid ∷ [] }) ++ 7 ∷ 9 ∷ []

handle_messages-IsIdle_example :
    IsIdle kernel (handle_messages kernel waiting (accept_message ∷ send_message ∷ []))
handle_messages-IsIdle_example =
    handle_messages-IsIdle kernel waiting (accept_message ∷ send_message ∷ []) waiting-IsIdle

empty_Ring : Ring empty_ring.bus []
empty_Ring = record { bounded = empty_ring-Holds.bounded; queue = empty_ring-Holds.queue }

waiting-IsTimely : IsTimely waiting
waiting-IsTimely = record {
  pending_soon = λ id m. elim (cases_cons m) [
    | inl e ↦ subst (λ i. (waiting.sockets i).pending_ticks ≤ 16) (sym e) (omega arith)
    | inr n ↦ absurd (not-nil n)
  ];
  package_soon = λ id m. absurd (not-nil m);
  accept_in = omega arith;
  package_in = omega arith;
}

listen_lem_example :
    (r : ErrorCode × Tconnd ℕ) × (listen kernel waiting ≡ some r)
    × Listened waiting [] r
    × IsQueued r.1
    × IsTimely r.1
listen_lem_example = listen_lem kernel waiting [] empty_Ring waiting-IsQueued waiting-IsTimely

-- The connection accepted.
abbrev accepted_one : Tconnd ℕ
accepted_one = record waiting {
  sockets =
      λ i. if i == 0 then record waiting_socket { status = status_established } else closed_socket;
  pending_list = [];
  output_tbus = wide_ring.bus;
}

wide_Ring : Ring wide_ring.bus []
wide_Ring = record { bounded = wide_ring-Holds.bounded; queue = wide_ring-Holds.queue }

accepted_one-IsQueued : IsQueued accepted_one
accepted_one-IsQueued = record {
  pool = pool-IsMempool;
  pending_once = tt;
  pending_kind = λ id m. absurd (not-nil m);
  pending_order = tt;
  package_once = tt;
  package_kind = λ id m. absurd (not-nil m);
  package_order = tt;
}

accepted_one-IsTimely : IsTimely accepted_one
accepted_one-IsTimely = record {
  pending_soon = λ id m. absurd (not-nil m);
  package_soon = λ id m. absurd (not-nil m);
  accept_in = omega arith;
  package_in = omega arith;
}

abbrev answer : ℕ → Arrival
answer room = if room == 0 then read_again else bytes_read (7 ∷ [])

answer-bytes : (room : ℕ) (b : List ℕ) → answer room ≡ bytes_read b → (room ≢ 0) × (b ≡ 7 ∷ [])
answer-bytes room b e = elim (Bool-cases (room == 0)) [
  | inl z ↦
      let clash : read_again ≡ bytes_read b =
        subst (λ c. (if c then read_again else bytes_read (7 ∷ [])) ≡ bytes_read b) z e in
      absurd (ground arith)
  | inr z ↦
      let same : bytes_read (7 ∷ []) ≡ bytes_read b =
        subst (λ c. (if c then read_again else bytes_read (7 ∷ [])) ≡ bytes_read b) z e in
      (ground arith, ground arith)
]

kernel-IsReader : IsReader kernel
kernel-IsReader = record {
  some_read = λ w fd room b e. rw (answer-bytes room b e).1 (omega arith);
  within = λ w fd room b e.
      omega
        (arith, (answer-bytes room b e).0, ap (λ (b : List ℕ). length b) (answer-bytes room b e).1);
  are_bytes = λ w fd room b e. rw (answer-bytes room b e).1 (omega arith, tt);
}

accepted_one-IsOpen : IsOpen accepted_one 0
accepted_one-IsOpen = record { live = IsLive-waiting; status = refl; kept = tt }

recv_lem_example :
    (r : ErrorCode × Tconnd ℕ) × (recv kernel accepted_one 0 ≡ some r)
    × Heard kernel accepted_one 0 120 (bytes_read (7 ∷ [])) [] r
    × IsQueued r.1
    × IsTimely r.1
recv_lem_example =
    recv_lem kernel accepted_one 0 [] kernel-IsReader accepted_one-IsOpen wide_Ring
      accepted_one-IsQueued accepted_one-IsTimely

-- One byte has come in, and is kept.
abbrev with_byte : Tconnd ℕ
with_byte = record accepted_one {
  sockets = put_socket accepted_one.sockets 0 (record (accepted_one.sockets 0) {
    package_buff = some (record { slot = 0; bytes = 7 ∷ [] });
    package_ticks = 16;
  });
  package_pool = pool;
  package_list = 0 ∷ [];
}

recv-one_byte : recv kernel accepted_one 0 ≡ some (noerror, with_byte)
unfolding recv recv_granted send_begin send_begin_fuel alloc alloc_first init ids_from receive
    cut_all cut_loop conclude keep_rest word16
recv-one_byte = refl

recv-IsRest_example : IsOpen with_byte 0 × IsRest 100 (7 ∷ [])
recv-IsRest_example =
    recv-IsRest kernel accepted_one with_byte 0 [] kernel-IsReader accepted_one-IsOpen wide_Ring
      accepted_one-IsQueued accepted_one-IsTimely recv-one_byte

-- The connection can be read, and so can the listening socket.
abbrev ready_one : Tconnd ℕ
ready_one = record accepted_one { readable_list = listener ∷ connection 0 ∷ [] }

ready_one-Round : Round ready_one [] (listener ∷ connection 0 ∷ [])
unfolding init ids_from
ready_one-Round = record {
  sound = record {
    ring = wide_Ring;
    queued = record {
      pool = pool-IsMempool;
      pending_once = tt;
      pending_kind = λ id m. absurd (not-nil m);
      pending_order = tt;
      package_once = tt;
      package_kind = λ id m. absurd (not-nil m);
      package_order = tt;
    };
    timely = record {
      pending_soon = λ id m. absurd (not-nil m);
      package_soon = λ id m. absurd (not-nil m);
      accept_in = omega arith;
      package_in = omega arith;
    };
  };
  opens = λ id m. elim (cases_cons m) [
    | inl e ↦ absurd (ground arith)
    | inr m' ↦ elim (cases_cons m') [
      | inl e ↦
          let same : id ≡ 0 = ground arith in
          subst (IsOpen ready_one) (sym same)
            (record { live = IsLive-waiting; status = refl; kept = tt })
      | inr n ↦ absurd (not-nil n)
    ]
  ];
  once = ((λ m. not-nil m), tt);
  room = omega arith;
}

epool_proc-Sound_example :
    (a : ErrorCode × Tconnd ℕ) × (new : List (List ℕ)) × (epool_proc kernel ready_one ≡ some a)
    × Sound a.1 new
epool_proc-Sound_example =
    epool_proc-Sound kernel ready_one [] listener (connection 0 ∷ []) kernel-IsReader refl
      ready_one-Round
