-- ===== src/Tconnd/Input/Flushing.antt =====
-- The two loops of `process_input_tbus`, which are `handle_messages`, keep the queues and the list of
-- writable sockets in order, and leave nothing to send in any live socket.
use mathlib.Core.List.{Memᴰ}
use mathlib.Core.List.Memᴰ.{head, tail, cases_cons}
use tsf4g.Prelude.{
  ℕ, ◌≡◌, refl, sym, ◌∙◌, ap, subst, inl, inr, true, false, not, ◌&&◌, List, [], ◌∷◌, arith,
  if_both, if_cases, eq_or_ne, if◌then◌else◌, ◌==◌, ltb, length, take, drop, ◌+◌,
}
use tsf4g.Errors.{ErrorCode, is_close}
use tsf4g.Mempool.{Mempool, ptr_test}
use tsf4g.Mempool.Handles.{ptr_test-live}
use tsf4g.Sip.{Cid, cmd_send, half, decode_rsp, rsp_size}
use tsf4g.Tconnd.{Socket, Kernel, Written, wrote, write_failed, Tconnd, put_socket-own}
use tsf4g.Tconnd.Sockets.{delete, push_pkg, flush, written, is_established}
use tsf4g.Tconnd.Sockets.Pushes.{Pushed, push_pkg-Pushed, flush-Pushed}
use tsf4g.Tconnd.Queues.{IsLive}
use tsf4g.Tconnd.Input.{
  Input, set_writable, pushed, each_cid, all_cids, all_messages, flush_one, flush_all,
  handle_messages,
}
use tsf4g.Tconnd.Input.Writable.{IsInput, IsInputBut, but_one, with_list, IsInputBut-other}
use tsf4g.Tconnd.Input.Messages.{
  IsMarked, delete-IsInput, close_socket-IsInput, keep_socket-IsInput, set_writable-IsInputBut,
}

module _ {W : Type 0} (kernel : Kernel W) where
  Pushed-IsInputBut :
      (t u : Tconnd W) (w : List ℕ) (id : ℕ)
      → Pushed t id u
      → IsInput (with_list t w)
      → IsInputBut id (with_list u w)
  Pushed-IsInputBut t u w id p i =
      IsInputBut-other id t u w p.pool p.others (p.queues i.queued) (but_one id i)

  Pushed-IsMarked :
      (t u : Tconnd W) (w : List ℕ) (id : ℕ)
      → IsLive t id
      → Pushed t id u
      → IsInput (with_list t w)
      → IsMarked id (with_list u w)
  Pushed-IsMarked t u w id live p i = record {
    live = λ e. live (ap (λ (q : Mempool). q.entry_sn id) (sym p.pool) ∙ e);
    unmarked = λ off m. ground (arith, off, p.writable, (i.held id m).1);
    marked = λ on. i.listed id live (sym p.writable ∙ on);
  }

  pushed-IsInput :
      (t : Tconnd W) (w : List ℕ) (r : ErrorCode × Tconnd W) (id : ℕ)
      → IsLive t id
      → Pushed t id r.1
      → IsInput (with_list t w)
      → IsInput (pushed kernel w r id)
  unfolding pushed
  pushed-IsInput t w r id live p i =
      let m = Pushed-IsMarked t r.1 w id live p i in
      let b = Pushed-IsInputBut t r.1 w id p i in
      if_both IsInput (is_close r.0) (close_socket-IsInput kernel (with_list r.1 w) id m b)
        (keep_socket-IsInput kernel (with_list r.1 w) id m b)

  each_cid-IsInput :
      (cmd : ℕ) (body : List ℕ) (s : Input W) (c : Cid)
      → IsInput s
      → IsInput (each_cid kernel cmd body s c)
  unfolding each_cid
  each_cid-IsInput cmd body s c i =
      let t = s.tconnd in
      let p = t.socket_pool in
      if_both IsInput (not (ltb c.id p.unit_num)) i (
        if_cases IsInput (not (ptr_test p c.id c.sn)) (λ h. i)
          (λ h.
            let good : ptr_test p c.id c.sn ≡ true = ground (arith, h) in
            pushed-IsInput t s.writable_list (push_pkg kernel t c.id cmd body) c.id
              (ptr_test-live p c.id c.sn good).0 (push_pkg-Pushed kernel c.id t cmd body) i))

  all_cids-IsInput :
      (cmd : ℕ) (body : List ℕ) (s : Input W) (cs : List Cid)
      → IsInput s
      → IsInput (all_cids kernel cmd body s cs)
  unfolding all_cids
  all_cids-IsInput cmd body s [] i = i
  all_cids-IsInput cmd body s (c ∷ cs) i =
      all_cids-IsInput cmd body (each_cid kernel cmd body s c) cs (each_cid-IsInput cmd body s c i)

  all_messages-IsInput :
      (s : Input W) (ms : List (List ℕ)) → IsInput s → IsInput (all_messages kernel s ms)
  unfolding all_messages
  all_messages-IsInput s [] i = i
  all_messages-IsInput s (m ∷ ms) i =
      let head_size = rsp_size (half (drop 8 m)) in
      let r = decode_rsp m in
      let sends = r.cmd == cmd_send in
      let body = if sends then take r.size (drop head_size m) else [] in
      if_both IsInput (ltb (length m) head_size) i (
        if_both IsInput (sends && ltb (length m) (head_size + r.size)) i (
          all_messages-IsInput (all_cids kernel r.cmd body s r.cid_list) ms
            (all_cids-IsInput r.cmd body s r.cid_list i)))

  -- A flush either answers to close the socket, or leaves nothing to send.
  abbrev Emptied : ℕ → ErrorCode × Tconnd W → Type 0
  Emptied id r = is_close r.0 ≡ false → (r.1.sockets id).iov ≡ []

  written-Emptied : (t : Tconnd W) (id : ℕ) (r : Written) → Emptied id (written kernel t id r)
  written-Emptied t id write_failed = λ h. absurd (ground (arith, h))
  written-Emptied t id (wrote n) =
      if_both (Emptied id) (n == (t.sockets id).iov_total_size)
        (λ h.
          ap (λ (s : Socket). s.iov)
            (put_socket-own t.sockets id (record (t.sockets id) { iov = []; iov_total_size = 0 })))
        (λ h. absurd (ground (arith, h)))

  length-nil : (xs : List (List ℕ)) → (length xs == 0) ≡ true → xs ≡ []
  length-nil [] h = refl
  length-nil (x ∷ xs) h = absurd (ground (arith, h))

  flush-Emptied : (t : Tconnd W) (id : ℕ) → Emptied id (flush kernel t id)
  unfolding flush
  flush-Emptied t id =
      let s = t.sockets id in
      let r = kernel.writev t.world s.socketfd s.iov in
      if_both (Emptied id) (not (is_established kernel s.status)) (λ h. absurd (ground (arith, h)))
        (if_cases (Emptied id) (length s.iov == 0) (λ z h. length-nil s.iov z)
          (λ z. written-Emptied (record t { world = r.0 }) id r.1))

  flush_one-IsInput :
      (t : Tconnd W) (id : ℕ) (ids : List ℕ)
      → IsInput (with_list t (id ∷ ids))
      → IsInput (with_list (flush_one kernel t id) ids)
  unfolding flush_one
  flush_one-IsInput t id ids i =
      let r = flush kernel t id in
      let p = flush-Pushed kernel id t in
      let u = set_writable r.1 id false in
      let live : IsLive u id =
        λ e. (i.held id (head refl)).0 (ap (λ (q : Mempool). q.entry_sn id) (sym p.pool) ∙ e) in
      let b : IsInputBut id (with_list u (id ∷ ids)) =
        set_writable-IsInputBut r.1 id false (id ∷ ids)
          (Pushed-IsInputBut t r.1 (id ∷ ids) id p i) in
      let own = put_socket-own r.1.sockets id (record (r.1.sockets id) { writable = false }) in
      let rest : IsInputBut id (with_list u ids) = record {
        queued = b.queued;
        once = b.once.1;
        held = λ j n m. b.held j n (tail m);
        listed = λ j n l y. elim (cases_cons (b.listed j n l y)) [
          | inl e ↦ absurd (n (sym e))
          | inr m ↦ m
        ];
        idle = b.idle;
      } in
      if_cases (λ v. IsInput (with_list v ids)) (is_close r.0) {x = delete kernel u id} {y = u}
        (λ h. delete-IsInput kernel u ids id live b.once.0 rest)
        (λ h. record {
          queued = rest.queued;
          once = rest.once;
          held = λ j m. rest.held j (λ e. b.once.0 (subst (λ j. Memᴰ j ids) (sym e) m)) m;
          listed = λ j l y. elim (eq_or_ne id j) [
            | inl e ↦ absurd (
                ground (
                  arith,
                  y,
                  ap (λ j. (u.sockets j).writable) e,
                  ap (λ (s : Socket). s.writable) own,
                ))
            | inr n ↦ rest.listed j n l y
          ];
          idle = λ j l y. elim (eq_or_ne id j) [
            | inl e ↦
                subst (λ j. (u.sockets j).iov ≡ []) e
                  (ap (λ (s : Socket). s.iov) own ∙ flush-Emptied t id h)
            | inr n ↦ rest.idle j n l y
          ];
        })

  flush_all-IsInput :
      (ids : List ℕ) (t : Tconnd W)
      → IsInput (with_list t ids)
      → IsInput (with_list (flush_all kernel t ids) [])
  unfolding flush_all
  flush_all-IsInput [] t i = i
  flush_all-IsInput (id ∷ ids) t i =
      flush_all-IsInput ids (flush_one kernel t id) (flush_one-IsInput t id ids i)

  -- Between two rounds of the server no connection is marked, and none has anything to send.
  abbrev pub IsIdle : Tconnd W → Type 0
  IsIdle t = IsInput (with_list t [])

  -- If the queues are in order, no live connection is marked and none has an entry to send, then
  -- so it is when the messages of the server have been handled, whatever they are and whatever the kernel
  -- answers: no entry of a live connection points into the ring any more when it is released.
  pub handle_messages-IsIdle :
      (t : Tconnd W) (ms : List (List ℕ)) → IsIdle t → IsIdle (handle_messages kernel t ms)
  unfolding handle_messages
  handle_messages-IsIdle t ms i =
      let s = all_messages kernel (with_list t []) ms in
      flush_all-IsInput s.writable_list s.tconnd (all_messages-IsInput (with_list t []) ms i)
