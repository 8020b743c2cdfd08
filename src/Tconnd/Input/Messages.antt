-- ===== src/Tconnd/Input/Messages.antt =====
-- A socket of `process_input_tbus` is closed, or kept in the list of writable sockets.
use mathlib.Core.List.{Memᴰ}
use mathlib.Core.List.Memᴰ.{head, cases_cons, not-nil, append_cases, append_left, append_right}
use tsf4g.Prelude.{
  ℕ, ◌≡◌, refl, sym, ap, subst, inl, inr, Bool, true, false, List, [], ◌∷◌, arith, if_cases,
  eq_or_ne,
}
use tsf4g.Mempool.{unlink_id}
use tsf4g.Mempool.Lists.{
  unlink_id-other, unlink_id-within, unlink_id-gone, unlink_id-Distinct, Distinct-snoc,
}
use tsf4g.Tconnd.{Socket, Kernel, Tconnd, put_socket-other, put_socket-own}
use tsf4g.Tconnd.Sockets.{delete}
use tsf4g.Tconnd.Sockets.Deletion.{delete-Deleted}
use tsf4g.Tconnd.Sockets.Similar.{set_socket-IsQueued}
use tsf4g.Tconnd.Queues.{IsLive, IsQueued, delete-IsQueued}
use tsf4g.Tconnd.Input.{Input, set_writable, close_socket, keep_socket}
use tsf4g.Tconnd.Input.Writable.{IsInput, IsInputBut, with_list, IsInputBut-other, Deleted-IsInput}

set_writable-IsQueued :
    {W : Type 0} (t : Tconnd W) (id : ℕ) (b : Bool) → IsQueued t → IsQueued (set_writable t id b)
set_writable-IsQueued t id b k =
    set_socket-IsQueued t id (record (t.sockets id) { writable = b })
      (record { status = refl; package_buff = refl; pending_ticks = refl; package_ticks = refl }) k

pub set_writable-IsInputBut :
    {W : Type 0} (t : Tconnd W) (id : ℕ) (b : Bool) (w : List ℕ)
    → IsInputBut id (with_list t w)
    → IsInputBut id (with_list (set_writable t id b) w)
set_writable-IsInputBut t id b w i =
    IsInputBut-other id t (set_writable t id b) w refl
      (λ j n. put_socket-other t.sockets id (record (t.sockets id) { writable = b }) j n)
      (set_writable-IsQueued t id b i.queued) i

-- What the mark of a socket says of the list.
pub record IsMarked {W : Type 0} (id : ℕ) (s : Input W) : Type 0 where
  pub live : IsLive s.tconnd id
  pub unmarked : (s.tconnd.sockets id).writable ≡ false → Memᴰ id s.writable_list → ⊥
  pub marked : (s.tconnd.sockets id).writable ≡ true → Memᴰ id s.writable_list

module _ {W : Type 0} (kernel : Kernel W) where
  pub delete-IsInput :
      (t : Tconnd W) (w : List ℕ) (id : ℕ)
      → IsLive t id
      → (Memᴰ id w → ⊥)
      → IsInputBut id (with_list t w)
      → IsInput (with_list (delete kernel t id) w)
  delete-IsInput t w id live out i =
      Deleted-IsInput id t (delete kernel t id) w w (delete-Deleted kernel t id)
        (delete-IsQueued kernel t id live i.queued) i.once
        (λ j m. (m, (λ e. out (subst (λ j. Memᴰ j w) (sym e) m)))) (λ j n m. m) i

  pub close_socket-IsInput :
      (s : Input W) (id : ℕ) → IsMarked id s → IsInputBut id s → IsInput (close_socket kernel s id)
  unfolding close_socket
  close_socket-IsInput s id k i =
      let t = s.tconnd in
      let w = s.writable_list in
      let u = set_writable t id false in
      if_cases IsInput (t.sockets id).writable
        (λ yes'.
          Deleted-IsInput id u (delete kernel u id) w (unlink_id id w) (delete-Deleted kernel u id)
            (delete-IsQueued kernel u id k.live (set_writable-IsQueued t id false i.queued))
            (unlink_id-Distinct id w i.once)
            (λ j m. (
              unlink_id-within id j w m,
              (λ e. unlink_id-gone id w i.once (subst (λ j. Memᴰ j (unlink_id id w)) (sym e) m)),
            ))
            (λ j n m. unlink_id-other id j w n m) (set_writable-IsInputBut t id false w i))
        (λ no'. delete-IsInput t w id k.live (k.unmarked no') i)

  pub keep_socket-IsInput :
      (s : Input W) (id : ℕ) → IsMarked id s → IsInputBut id s → IsInput (keep_socket kernel s id)
  unfolding keep_socket
  keep_socket-IsInput s id k i =
      let t = s.tconnd in
      let w = s.writable_list in
      let m : Socket = record (t.sockets id) { writable = true } in
      let own = put_socket-own t.sockets id m in
      let b = set_writable-IsInputBut t id true w i in
      if_cases IsInput (t.sockets id).writable
        (λ on. record {
          queued = i.queued;
          once = i.once;
          held = λ j m. elim (eq_or_ne id j) [
            | inl e ↦ subst (λ j. IsLive t j × ((t.sockets j).writable ≡ true)) e (k.live, on)
            | inr n ↦ i.held j n m
          ];
          listed = λ j l y. elim (eq_or_ne id j) [
            | inl e ↦ subst (λ j. Memᴰ j w) e (k.marked on)
            | inr n ↦ i.listed j n l y
          ];
          idle = λ j l y. elim (eq_or_ne id j) [
            | inl e ↦ absurd (ground (arith, on, y, ap (λ j. (t.sockets j).writable) e))
            | inr n ↦ i.idle j n l y
          ];
        })
        (λ off. record {
          queued = b.queued;
          once = Distinct-snoc w id (k.unmarked off) i.once;
          held = λ j m. elim (eq_or_ne id j) [
            | inl e ↦
                subst (λ j. IsLive t j × (((set_writable t id true).sockets j).writable ≡ true)) e
                  (k.live, ap (λ (s : Socket). s.writable) own)
            | inr n ↦ elim (append_cases w m) [
              | inl m' ↦ b.held j n m'
              | inr m' ↦ elim (cases_cons m') [
                | inl e ↦ absurd (n (sym e))
                | inr r ↦ absurd (not-nil r)
              ]
            ]
          ];
          listed = λ j l y. elim (eq_or_ne id j) [
            | inl e ↦ append_right w (head (sym e))
            | inr n ↦ append_left (id ∷ []) (b.listed j n l y)
          ];
          idle = λ j l y. elim (eq_or_ne id j) [
            | inl e ↦ absurd (
                ground (
                  arith,
                  ap (λ (s : Socket). s.writable) own,
                  y,
                  ap (λ j. ((set_writable t id true).sockets j).writable) e,
                ))
            | inr n ↦ b.idle j n l y
          ];
        })
