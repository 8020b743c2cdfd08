-- ===== src/Tconnd.antt =====
-- tconnd, the connection server: its state, and what it asks of the kernel.
pub mod Cut
pub mod Notice
pub mod Sockets
pub mod Input
pub mod Expiry
pub mod Queues
pub mod Receive
pub mod Outbox
pub mod Timely
pub mod Steady
pub mod Listen
pub mod Epoll
use Prim.Native.Nat.{ℕ}
use mathlib.Core.Bool.{Bool, true, false}
use mathlib.Core.Option.{Option, none, some}
use mathlib.Core.List.{List, [], ◌∷◌}
use tsf4g.Prelude.{Bool-cases, inl, inr, ◌⊎◌, ◌≡◌, ◌≢◌, ap, arith, ◌==◌, if◌then◌else◌}
use tsf4g.Tbus.{Tbus}
use tsf4g.Mempool.{Mempool}

-- `tconnd_socket_status_t`
pub data Status : Type 0 where
  status_closed status_syn_sent status_established status_listen : Status

-- A package buffer that a socket holds: its id in the pool, and the bytes at `head`.
pub record Package : Type 0 where
  pub slot : ℕ
  pub bytes : List ℕ

-- `tconnd_socket_t`, less what its place in the pool and in the lists says; `iov` has the bytes that
-- the entries point to.
pub record Socket : Type 0 where
  pub status : Status
  pub socketfd : ℕ
  pub pending_ticks : ℕ
  pub package_ticks : ℕ
  pub package_buff : Option Package
  pub writable : Bool
  pub readable : Bool
  pub iov : List (List ℕ)
  pub iov_total_size : ℕ

-- What stands in the list of readable sockets: `g_listen`, or a socket of the pool.
pub data Ready : Type 0 where
  listener : Ready
  connection : ℕ → Ready

-- What `writev` returns; a failure is that with `errno` EAGAIN too.
pub data Written : Type 0 where
  wrote : ℕ → Written
  write_failed : Written

-- What `recv` returns: bytes, EAGAIN, or the end of the stream or another error.
pub data Arrival : Type 0 where
  bytes_read : List ℕ → Arrival
  read_again ended : Arrival

pub data Errno : Type 0 where
  errno_again errno_intr errno_other : Errno

-- What `accept` returns.
pub data Accepted : Type 0 where
  accepted : ℕ → Accepted
  accept_failed : Errno → Accepted

-- An event of `epoll_wait`: a socket, or the timer.
pub data Happening : Type 0 where
  socket_event : Ready → Happening
  timer_event : Happening

pub data Waited : Type 0 where
  happened : List Happening → Waited
  wait_failed : Errno → Waited

-- The kernel as tconnd uses it, with a state `W` of its own. A call that is repeated while it is
-- interrupted is one operation: its last result.
pub record Kernel (W : Type 0) : Type 0 where
  pub writev : W → ℕ → List (List ℕ) → W × Written
  pub recv : W → ℕ → ℕ → W × Arrival
  pub accept : W → ℕ → W × Accepted
  pub set_nonblocking : W → ℕ → W × Bool
  pub epoll_add : W → ℕ → W × Bool
  pub epoll_wait : W → W × Waited
  pub close : W → ℕ → W
  pub read_timer : W → W × ℕ

-- The part of `g_config` that is read after the start.
pub record Config : Type 0 where
  pub package_size : ℕ
  pub accept_ticks_limit : ℕ
  pub package_ticks_limit : ℕ

-- The global variables.
pub record Tconnd (W : Type 0) : Type 0 where
  pub world : W
  pub config : Config
  pub socket_pool : Mempool
  pub package_pool : Mempool
  pub sockets : ℕ → Socket
  pub listen_socket : Socket
  pub pending_list : List ℕ
  pub package_list : List ℕ
  pub readable_list : List Ready
  pub cur_ticks : ℕ
  pub input_tbus : Tbus
  pub output_tbus : Tbus
  pub errno : Errno

abbrev pub put_socket : (ℕ → Socket) → ℕ → Socket → ℕ → Socket
put_socket v i s j = if i == j then s else v j

pub put_socket-other :
    (v : ℕ → Socket) (i : ℕ) (s : Socket) (j : ℕ) → i ≢ j → put_socket v i s j ≡ v j
put_socket-other v i s j n =
    let other : (i == j) ≡ false = ground arith in ap (λ b. if b then s else v j) other

pub put_socket-own : (v : ℕ → Socket) (i : ℕ) (s : Socket) → put_socket v i s i ≡ s
put_socket-own v i s =
    let own : (i == i) ≡ true = ground arith in ap (λ b. if b then s else v i) own

pub put_socket-cases :
    (v : ℕ → Socket) (i : ℕ) (s : Socket) (j : ℕ)
    → ((i ≡ j) × (put_socket v i s j ≡ s)) ⊎ ((i ≢ j) × (put_socket v i s j ≡ v j))
put_socket-cases v i s j = elim (Bool-cases (i == j)) [
  | inl h ↦ inl (ground arith, ap (λ b. if b then s else v j) h)
  | inr h ↦ inr (ground arith, ap (λ b. if b then s else v j) h)
]

-- One socket changed.
abbrev pub set_socket : {W : Type 0} → Tconnd W → ℕ → Socket → Tconnd W
set_socket t i s = record t { sockets = put_socket t.sockets i s }

abbrev pub same_ready : Ready → Ready → Bool
same_ready listener listener = true
same_ready (connection i) (connection j) = i == j
same_ready _ _ = false

-- `tlibc_list_del` of an entry's `readable_list`.
unfoldable pub unlink_ready : Ready → List Ready → List Ready
unlink_ready r [] = []
unlink_ready r (x ∷ xs) = if same_ready x r then xs else x ∷ unlink_ready r xs
