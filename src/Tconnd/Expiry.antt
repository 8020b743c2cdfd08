-- ===== src/Tconnd/Expiry.antt =====
-- tconnd/source/tconnd_timer.c: the sockets whose time is up.
pub mod Closing
pub mod Due
use Prim.Native.Nat.{ℕ, ◌+◌, ◌%◌}
use mathlib.Core.Bool.{Bool, true, false}
use mathlib.Core.List.{List, [], ◌∷◌}
use tsf4g.Prelude.{ltb, if◌then◌else◌, u64_mod}
use tsf4g.Tconnd.{Socket, Kernel, Tconnd}
use tsf4g.Tconnd.Sockets.{delete}

module _ {W : Type 0} (kernel : Kernel W) where
  -- `tconnd_timer_on_tick`: the ticks of all the reads that the timer answers.
  unfoldable pub on_tick : Tconnd W → Tconnd W
  on_tick t =
      let r = kernel.read_timer t.world in
      record t { world = r.0; cur_ticks = (t.cur_ticks + r.1) % u64_mod }

  -- The loop over a queue from a socket on. It saves the next socket before it deletes one.
  unfoldable pub expire : (Socket → ℕ) → List ℕ → Tconnd W → Tconnd W
  expire ticks [] t = t
  expire ticks (id ∷ ids) t =
      let rest = expire ticks ids (delete kernel t id) in
      if ltb t.cur_ticks (ticks (t.sockets id)) then t else rest

  abbrev expire_pending : Tconnd W → Tconnd W
  expire_pending t = expire (λ s. s.pending_ticks) t.pending_list t

  abbrev expire_package : Tconnd W → Tconnd W
  expire_package t = expire (λ s. s.package_ticks) t.package_list t

  -- `tconnd_timer_process`
  unfoldable pub timer_process : Tconnd W → Tconnd W
  timer_process t = expire_package (expire_pending t)
