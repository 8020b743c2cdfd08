-- ===== src/Tconnd/Input/Writable.antt =====
-- The list of writable sockets of `process_input_tbus`.
use mathlib.Core.List.{Memᴰ}
use tsf4g.Prelude.{ℕ, ◌≡◌, ◌≢◌, sym, ◌∙◌, ap, subst, true, false, List, []}
use tsf4g.Mempool.{Mempool, invalid_id}
use tsf4g.Mempool.Handles.{Distinct, free-own}
use tsf4g.Tconnd.{Socket, Tconnd}
use tsf4g.Tconnd.Sockets.Deletion.{Deleted}
use tsf4g.Tconnd.Queues.{IsLive, IsQueued, live-after}
use tsf4g.Tconnd.Input.{Input}

-- The sockets in the list are those that are marked, and all others have nothing to send.
pub record IsInput {W : Type 0} (s : Input W) : Type 0 where
  pub queued : IsQueued s.tconnd
  pub once : Distinct s.writable_list
  pub held :
      (j : ℕ) → Memᴰ j s.writable_list → IsLive s.tconnd j × ((s.tconnd.sockets j).writable ≡ true)
  pub listed :
      (j : ℕ) → IsLive s.tconnd j → (s.tconnd.sockets j).writable ≡ true → Memᴰ j s.writable_list
  pub idle :
      (j : ℕ)
      → IsLive s.tconnd j
      → (s.tconnd.sockets j).writable ≡ false
      → (s.tconnd.sockets j).iov ≡ []

-- The same but for one socket.
pub record IsInputBut {W : Type 0} (id : ℕ) (s : Input W) : Type 0 where
  pub queued : IsQueued s.tconnd
  pub once : Distinct s.writable_list
  pub held :
      (j : ℕ)
      → id ≢ j
      → Memᴰ j s.writable_list
      → IsLive s.tconnd j × ((s.tconnd.sockets j).writable ≡ true)
  pub listed :
      (j : ℕ)
      → id ≢ j
      → IsLive s.tconnd j
      → (s.tconnd.sockets j).writable ≡ true
      → Memᴰ j s.writable_list
  pub idle :
      (j : ℕ)
      → id ≢ j
      → IsLive s.tconnd j
      → (s.tconnd.sockets j).writable ≡ false
      → (s.tconnd.sockets j).iov ≡ []

pub but_one : {W : Type 0} (id : ℕ) {s : Input W} → IsInput s → IsInputBut id s
but_one id i = record {
  queued = i.queued;
  once = i.once;
  held = λ j n. i.held j;
  listed = λ j n. i.listed j;
  idle = λ j n. i.idle j;
}

abbrev pub with_list : {W : Type 0} → Tconnd W → List ℕ → Input W
with_list t w = record { tconnd = t; writable_list = w }

-- That socket may be changed at will.
pub IsInputBut-other :
    {W : Type 0} (id : ℕ) (t u : Tconnd W) (w : List ℕ)
    → u.socket_pool ≡ t.socket_pool
    → ((j : ℕ) → id ≢ j → u.sockets j ≡ t.sockets j)
    → IsQueued u
    → IsInputBut id (with_list t w)
    → IsInputBut id (with_list u w)
IsInputBut-other id t u w pool others queued i =
    let live : (j : ℕ) → IsLive u j → IsLive t j =
      λ j l e. l (ap (λ (p : Mempool). p.entry_sn j) pool ∙ e) in
    record {
      queued = queued;
      once = i.once;
      held = λ j n m.
          let (l, b) = i.held j n m in
          (
            (λ e. l (ap (λ (p : Mempool). p.entry_sn j) (sym pool) ∙ e)),
            ap (λ (s : Socket). s.writable) (others j n) ∙ b,
          );
      listed = λ j n l b.
          i.listed j n (live j l) (ap (λ (s : Socket). s.writable) (sym (others j n)) ∙ b);
      idle = λ j n l b.
          ap (λ (s : Socket). s.iov) (others j n)
          ∙ i.idle j n (live j l) (ap (λ (s : Socket). s.writable) (sym (others j n)) ∙ b);
    }

-- It may be deleted, and taken out of the list.
pub Deleted-IsInput :
    {W : Type 0} (id : ℕ) (t u : Tconnd W) (w w' : List ℕ)
    → Deleted t id u
    → IsQueued u
    → Distinct w'
    → ((j : ℕ) → Memᴰ j w' → Memᴰ j w × (id ≢ j))
    → ((j : ℕ) → id ≢ j → Memᴰ j w → Memᴰ j w')
    → IsInputBut id (with_list t w)
    → IsInput (with_list u w')
Deleted-IsInput id t u w w' d queued once within keeps i =
    let left : (j : ℕ) → IsLive u j → id ≢ j = λ j l e. l (
      subst (λ i. u.socket_pool.entry_sn i ≡ invalid_id) e
        (ap (λ (p : Mempool). p.entry_sn id) d.pool ∙ free-own t.socket_pool id)) in
    let live : (j : ℕ) → IsLive u j → IsLive t j = λ j l e. l (live-after d j (left j l) ∙ e) in
    record {
      queued = queued;
      once = once;
      held = λ j m.
          let (m', n) = within j m in
          let (l, b) = i.held j n m' in
          (
            (λ e. l (sym (live-after d j n) ∙ e)),
            ap (λ (s : Socket). s.writable) (d.others j n) ∙ b,
          );
      listed = λ j l b.
          let n = left j l in
          keeps j n
            (i.listed j n (live j l) (ap (λ (s : Socket). s.writable) (sym (d.others j n)) ∙ b));
      idle = λ j l b.
          let n = left j l in
          ap (λ (s : Socket). s.iov) (d.others j n)
          ∙ i.idle j n (live j l) (ap (λ (s : Socket). s.writable) (sym (d.others j n)) ∙ b);
    }
