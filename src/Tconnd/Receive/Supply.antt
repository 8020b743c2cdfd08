-- ===== src/Tconnd/Receive/Supply.antt =====
-- tconnd/source/tconnd_socket.c, `tconnd_socket_recv`: how many package buffers a read takes.
use tsf4g.Prelude.{
  ℕ, suc, ◌+◌, ◌-◌, ◌≤◌, ◌<◌, ◌≡◌, refl, ap, inl, inr, Bool, true, false, Option, none, some, List,
  [], ◌∷◌, arith, length, ltb, if_cases, List-cases, Option-cases,
}
use tsf4g.Errors.{ErrorCode, noerror, no_memory}
use tsf4g.Mempool.{alloc, alloc_first, free}
use tsf4g.Sip.{req_size}
use tsf4g.Tbus.{Grant}
use tsf4g.Tbus.Send.{begun, send_begin_lem}
use tsf4g.Tconnd.{Package, Kernel, Arrival, bytes_read, read_again, ended, Tconnd}
use tsf4g.Tconnd.Cut.{Received, closing, received, receive}
use tsf4g.Tconnd.Receive.{
  bytes_of, is_nil, release, retain, send_on, cut_result, arrive, recv_granted, recv,
}

abbrev pub is_no_memory : ErrorCode → Bool
is_no_memory no_memory = true
is_no_memory _ = false

not_nil : (l : List ℕ) → 0 < length l → is_nil l ≡ false
not_nil [] h = absurd (omega arith)
not_nil (x ∷ xs) h = refl

-- The package buffers that are left.
abbrev pub supply : {W : Type 0} → Tconnd W → ℕ
supply t = length t.package_pool.unused_list

-- One package buffer is taken at most, and they do not run out.
abbrev pub Spends : {W : Type 0} → ℕ → Option (ErrorCode × Tconnd W) → Type 0
Spends n none = Unit {0}
Spends n (some r) = (is_no_memory r.0 ≡ false) × (n ≤ suc (supply r.1))

module _ {W : Type 0} (kernel : Kernel W) (id : ℕ) (g : Grant) where
  release-supply : (t : Tconnd W) (p : Option Package) → supply t ≤ supply (release kernel p t id)
  unfolding free
  release-supply t none = omega arith
  release-supply t (some p) = omega arith

  send_on-Spends :
      (n : ℕ) (t : Tconnd W) (w : List ℕ)
      → n ≤ suc (supply t)
      → Spends n (some (noerror, send_on kernel t id g w))
  send_on-Spends n t [] h = (refl, h)
  send_on-Spends n t (w ∷ ws) h = (refl, h)

  cut_result-Spends :
      (n : ℕ) (t : Tconnd W) (c : Received) → n ≤ supply t → Spends n (cut_result kernel t id g c)
  unfolding alloc alloc_first
  cut_result-Spends n t closing h = (refl, omega arith)
  cut_result-Spends n t (received w []) h = send_on-Spends n t w (omega arith)
  cut_result-Spends n t (received w (b ∷ bs)) h = elim (List-cases t.package_pool.unused_list) [
    | inl e ↦ rw (cut_result, retain, alloc, e) tt
    | inr (x, xs, e) ↦
        rw (cut_result, retain, alloc, e)
          (send_on-Spends n _ w (omega (arith, h, ap (λ (l : List ℕ). length l) e)))
  ]

  arrive-Spends : (t : Tconnd W) (a : Arrival) → Spends (supply t) (arrive kernel t id g a)
  arrive-Spends t read_again = (refl, omega arith)
  arrive-Spends t ended = (refl, omega arith)
  arrive-Spends t (bytes_read b) =
      let p = (t.sockets id).package_buff in
      elim (Option-cases (receive t.config.package_size (bytes_of p) b)) [
        | inl e ↦ rw (arrive, e) tt
        | inr (c, e) ↦
            rw (arrive, e)
              (cut_result-Spends (supply t) (release kernel p t id) c (release-supply t p))
      ]

  recv_granted-Spends :
      (t : Tconnd W) → 0 < supply t → Spends (supply t) (recv_granted kernel t id g)
  unfolding recv_granted
  recv_granted-Spends t h =
      let s = t.sockets id in
      let used = req_size + length (bytes_of s.package_buff) in
      let r = kernel.recv t.world s.socketfd (g.room - used) in
      if_cases (Spends (supply t)) (ltb g.room (used + 1)) (λ b. (refl, omega arith))
        (λ b.
          if_cases (Spends (supply t)) (is_nil t.package_pool.unused_list)
            (λ c. let n = not_nil t.package_pool.unused_list h in absurd (ground arith))
            (λ c. arrive-Spends (record t { world = r.0 }) r.1))

pub recv-Spends :
    {W : Type 0} (kernel : Kernel W) (id : ℕ) (t : Tconnd W)
    → 0 < supply t
    → Spends (supply t) (recv kernel t id)
unfolding recv
recv-Spends kernel id t h =
    let b = begun t.output_tbus in
    rw (recv, send_begin_lem t.output_tbus)
      (recv_granted-Spends kernel id b.1 (record t { output_tbus = b.0 }) h)
