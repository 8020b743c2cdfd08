-- ===== src/Tbusapi/Process.antt =====
-- `tbusapi_process`: it shows the client the packets in order and keeps those that it refused.
use Prim.Native.Nat.{min}
use tsf4g.Prelude.{
  ℕ, ◌+◌, ◌%◌, ◌≤◌, ◌≡◌, ◌≢◌, refl, sym, ◌∙◌, ap, subst, List, [], ◌∷◌, some, arith, length,
  Bool-cases, true, take, drop, take-length, take-min-length, u16_mod, inl, inr, ◌==◌,
  if◌then◌else◌,
}
use tsf4g.Errors.{ErrorCode, noerror, would_block}
use tsf4g.Tbus.{Tbus, Iovec, Reading, read_begin, read_end}
use tsf4g.Tbus.Position.{IsBounded, Position}
use tsf4g.Tbus.Read.{Handed, read_begin_lem}
use tsf4g.Tbus.Release.{
  length-packets, packets, resume, resume-drop, packets-Handed, read_end-queue, read_end-IsBounded,
}
use tsf4g.Tbusapi.{
  Tbusapi, OnRecv, Processed, recviov, passed, max_iov_num, process, process_reading, dispatch,
}
use tsf4g.Tbusapi.Deliver.{deliver, deliver-le, recv_from_lem}

-- What is left in the ring `tb` and with the client when `num` entries fit a reading of `ps`.
record Done {S : Type 0} (f : OnRecv S) (s : S) (num : ℕ) (ps : List (List ℕ)) (tb : Tbus)
    (p : Processed S) : Type 0 where
  pub client : p.client ≡ (deliver f s (take num ps)).1
  pub bounded : IsBounded p.bus
  pub left : Position p.bus p.bus.head_offset (drop (deliver f s (take num ps)).0 ps)
  pub code :
      take num ps ≢ []
      → p.code ≡ (if (deliver f s (take num ps)).0 == 0 then would_block else noerror)
  pub empty_code :
      take num ps ≡ []
      → p.code ≡ (if p.bus.head_offset == tb.head_offset then would_block else noerror)

dispatch-Done :
    {S : Type 0} (f : OnRecv S) (s : S) (num : ℕ) (ps : List (List ℕ)) (tb : Tbus) (r : Reading)
    → IsBounded tb
    → Handed tb r.head ps r.iov
    → passed r.iov ≡ r.iov
    → packets tb.buff r.iov ≡ take num ps
    → take num ps ≢ []
    → Done f s num ps tb (dispatch (some (recviov (some f))) s tb r)
unfolding dispatch
dispatch-Done f s num ps tb r b h e k some_left =
    let out = deliver f s (take num ps) in
    let got : recviov (some f) s tb.buff (passed r.iov) ≡ out =
      ap (λ vs. recviov (some f) s tb.buff vs) e
      ∙ recv_from_lem f s tb.buff r.iov 0
      ∙ ap (λ qs. (0 + (deliver f s qs).0, (deliver f s qs).1)) k
      ∙ ap (λ (n : ℕ). (n, out.1)) (omega arith) in
    let taken : out.0 ≤ length r.iov = omega (
      arith,
      deliver-le f s (take num ps),
      length-packets tb.buff r.iov,
      ap (λ (l : List (List ℕ)). length l) k,
    ) in
    let q = resume r.head r.iov out.0 in
    let at = resume-drop tb r.head ps r.iov out.0 b h taken in
    rw got (record {
      client = refl;
      bounded = read_end-IsBounded tb q (drop out.0 ps) b at;
      left = read_end-queue tb q (drop out.0 ps) at;
      code = λ _. refl;
      empty_code = λ none_left. absurd (some_left none_left);
    })

Handed-nil :
    (tb : Tbus) (k : ℕ) (ps : List (List ℕ)) (vs : List Iovec)
    → length vs ≡ 0
    → Handed tb k ps vs
    → Position tb k ps
Handed-nil tb k ps [] n h = h
Handed-nil tb k ps (v ∷ vs) n h = absurd (omega arith)

-- Where a reading has no entry, the client sees nothing.
nothing-Done :
    {S : Type 0} (f : OnRecv S) (s : S) (num : ℕ) (ps : List (List ℕ)) (tb : Tbus) (p : Processed S)
    → take num ps ≡ []
    → p.client ≡ s
    → IsBounded p.bus
    → Position p.bus p.bus.head_offset ps
    → p.code ≡ (if p.bus.head_offset == tb.head_offset then would_block else noerror)
    → Done f s num ps tb p
unfolding deliver
nothing-Done f s num ps tb p e c b q code = record {
  client = rw e c;
  bounded = b;
  left = rw e q;
  code = λ h. absurd (h e);
  empty_code = λ _. code;
}

same_test : (a : ℕ) → (a == a) ≡ true
same_test a = ground arith

process_reading-Done :
    {S : Type 0} (f : OnRecv S) (s : S) (num : ℕ) (ps : List (List ℕ)) (tb : Tbus) (r : Reading)
    → IsBounded tb
    → Position tb tb.head_offset ps
    → num ≤ max_iov_num
    → Handed tb r.head ps r.iov
    → length r.iov ≡ min num (length ps)
    → Done f s num ps tb (process_reading (some (recviov (some f))) s tb r)
unfolding process_reading read_end
process_reading-Done f s num ps tb r b q m h n =
    let entries = packets-Handed tb r.head ps r.iov h in
    let firsts : packets tb.buff r.iov ≡ take num ps =
      entries ∙ ap (λ k. take k ps) n ∙ take-min-length num ps in
    let small : length r.iov % u16_mod ≡ length r.iov = omega arith in
    elim (Bool-cases (length r.iov == 0)) [
      | inr some_left ↦
          let some_packets : packets tb.buff r.iov ≢ [] = λ none_left.
            let none_read : length r.iov ≡ 0 =
              sym (length-packets tb.buff r.iov) ∙ ap (λ (l : List (List ℕ)). length l) none_left in
            ground arith in
          rw some_left (
            dispatch-Done f s num ps tb r b h (ap (λ k. take k r.iov) small ∙ take-length r.iov)
              firsts (λ none_left. some_packets (firsts ∙ none_left)))
      | inl none_left ↦
          let zero_len : length r.iov ≡ 0 = ground arith in
          let nothing : take num ps ≡ [] = sym firsts ∙ entries ∙ ap (λ k. take k ps) zero_len in
          let at = Handed-nil tb r.head ps r.iov zero_len h in
          elim (Bool-cases (r.head == tb.head_offset)) [
            | inl still ↦
                rw (none_left, still)
                  (nothing-Done f s num ps tb _ nothing refl b q
                    (rw (same_test tb.head_offset) refl))
            | inr moved ↦
                rw (none_left, moved)
                  (nothing-Done f s num ps tb _ nothing refl (read_end-IsBounded tb r.head ps b at)
                    (read_end-queue tb r.head ps at) (rw (read_end, moved) refl))
          ]
    ]

process-reading :
    {S : Type 0} (self : Tbusapi S) (s : S) (r : Reading)
    → read_begin self.itb self.iov_num ≡ some r
    → let p = process_reading self.on_recviov s self.itb r in
      process self s ≡ some (record self { itb = p.bus }, p.code, p.client)
unfolding process
process-reading self s r e = rw (e, process)

-- `tbusapi_process` shows the client the packets that the ring holds, in order, as many as a reading
-- has room for, until one is refused; those that were taken leave the ring, and the others stay.
-- It answers that it would block if there was a packet to show and the client took none, or if there
-- was none to show and the head of the ring did not move; in all other cases it answers with success.
pub process_lem :
    {S : Type 0} (self : Tbusapi S) (f : OnRecv S) (s : S) (ps : List (List ℕ))
    → IsBounded self.itb
    → Position self.itb self.itb.head_offset ps
    → self.on_recviov ≡ some (recviov (some f))
    → self.iov_num ≤ max_iov_num
    → let out = deliver f s (take self.iov_num ps) in
      (tb : Tbus) × (code : ErrorCode) × (process self s
        ≡ some (record self { itb = tb }, code, out.1))
      × IsBounded tb
      × Position tb tb.head_offset (drop out.0 ps)
      × (take self.iov_num ps ≢ [] → code ≡ (if out.0 == 0 then would_block else noerror))
      × (take self.iov_num ps ≡ []
          → code ≡ (if tb.head_offset == self.itb.head_offset then would_block else noerror))
process_lem {S} self f s ps b q e m =
    let (r, e', h, n, z) = read_begin_lem self.itb b self.iov_num ps q in
    let d =
      subst (λ g. Done f s self.iov_num ps self.itb (process_reading g s self.itb r)) (sym e)
        (process_reading-Done f s self.iov_num ps self.itb r b q m h n) in
    let p = process_reading self.on_recviov s self.itb r in
    (
      p.bus,
      p.code,
      process-reading self s r e'
          ∙ ap (λ (t : S). some (record self { itb = p.bus }, p.code, t)) d.client,
      d.bounded,
      d.left,
      d.code,
      d.empty_code,
    )
