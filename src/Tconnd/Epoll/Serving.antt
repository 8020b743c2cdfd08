-- ===== src/Tconnd/Epoll/Serving.antt =====
-- tconnd/source/tconnd_epoll.c, `tconnd_epool_proc`: the loop over the readable sockets.

use tsf4g.Prelude.{ℕ, ◌≡◌, refl, Bool, true, false, List, ◌++◌, arith}
use tsf4g.Errors.{
  ErrorCode, noerror, error, out_of_memory, not_found, syntax, mismatch, errno, would_block,
  bad_file, eof, empty, integer_overflow, ignore, please_read_enum_name,
  file_is_already_on_the_stack, no_memory, close, tbus_not_enough_space, too_many_socket, is_close,
}
use tsf4g.Tconnd.{
  Ready, listener, connection, Errno, errno_again, errno_intr, errno_other, Kernel, Tconnd,
  unlink_ready,
}
use tsf4g.Tconnd.Sockets.Similar.{alike, set_socket-Similar}
use tsf4g.Tconnd.Receive.Supply.{is_no_memory}
use tsf4g.Tconnd.Epoll.{Next, goes_on, ends, set_readable, on_errno, drop_ready, on_answer}
use tsf4g.Tconnd.Epoll.Rounds.{Sound, Round, Beside, Beside-Round}

module _ {W : Type 0} (kernel : Kernel W) (ps : List (List ℕ)) (rs : List Ready) where
  -- The loop goes on with the rest, or ends; more packets may have been sent.
  abbrev pub Goes : Next kernel → Type 0
  Goes (goes_on ret u) = (new : List (List ℕ)) × Round u (ps ++ new) rs
  Goes (ends code u) = (new : List (List ℕ)) × Sound u (ps ++ new)

  set_readable-Beside : (r : Ready) (b : Bool) (t : Tconnd W) → Beside t (set_readable kernel t r b)
  set_readable-Beside listener b t = record {
    similar = record {
      pool = refl;
      pending = refl;
      packages = refl;
      sockets = λ j. alike (t.sockets j);
    };
    output = refl;
    clock = refl;
    config = refl;
    packages_left = omega arith;
  }
  set_readable-Beside (connection id) b t = record {
    similar =
        set_socket-Similar t id (record (t.sockets id) { readable = b })
          (record {
            status = refl;
            package_buff = refl;
            pending_ticks = refl;
            package_ticks = refl;
          });
    output = refl;
    clock = refl;
    config = refl;
    packages_left = omega arith;
  }

  unlisted-Beside : (t : Tconnd W) (l : List Ready) → Beside t (record t { readable_list = l })
  unlisted-Beside t l = record {
    similar = record {
      pool = refl;
      pending = refl;
      packages = refl;
      sockets = λ j. alike (t.sockets j);
    };
    output = refl;
    clock = refl;
    config = refl;
    packages_left = omega arith;
  }

  module _ (u : Tconnd W) (new : List (List ℕ)) (k : Round u (ps ++ new) rs) where
    on_errno-Goes : (e : Errno) (ret : ErrorCode) (r : Ready) → Goes (on_errno kernel e ret r u)
    on_errno-Goes errno_again ret r =
        let v = set_readable kernel u r false in
        (
          new,
          Beside-Round (unlisted-Beside v (unlink_ready r v.readable_list))
              (Beside-Round (set_readable-Beside r false u) k),
        )
    on_errno-Goes errno_intr ret r = (new, k)
    on_errno-Goes errno_other ret r = (new, k.sound)

    pub on_answer-Goes :
        (code ret : ErrorCode) (r : Ready)
        → is_no_memory code ≡ false
        → (is_close code ≡ true → Round (drop_ready kernel r u) (ps ++ new) rs)
        → Goes (on_answer kernel code ret r u)
    on_answer-Goes noerror ret r n h = (new, k)
    on_answer-Goes tbus_not_enough_space ret r n h = (new, k.sound)
    on_answer-Goes too_many_socket ret r n h = (new, k)
    on_answer-Goes would_block ret r n h = (new, k)
    on_answer-Goes errno ret r n h = on_errno-Goes u.errno ret r
    on_answer-Goes no_memory ret r n h = absurd (ground arith)
    on_answer-Goes close ret r n h = (new, h refl)
    on_answer-Goes error ret r n h = (new, k.sound)
    on_answer-Goes out_of_memory ret r n h = (new, k.sound)
    on_answer-Goes not_found ret r n h = (new, k.sound)
    on_answer-Goes syntax ret r n h = (new, k.sound)
    on_answer-Goes mismatch ret r n h = (new, k.sound)
    on_answer-Goes bad_file ret r n h = (new, k.sound)
    on_answer-Goes eof ret r n h = (new, k.sound)
    on_answer-Goes empty ret r n h = (new, k.sound)
    on_answer-Goes integer_overflow ret r n h = (new, k.sound)
    on_answer-Goes ignore ret r n h = (new, k.sound)
    on_answer-Goes please_read_enum_name ret r n h = (new, k.sound)
    on_answer-Goes file_is_already_on_the_stack ret r n h = (new, k.sound)
