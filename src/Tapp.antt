-- ===== src/Tapp.antt =====
-- tapp/source/tapp.c: the loop of a server over its work functions.
pub mod Rounds
pub mod Idle
pub mod Options
use Prim.Native.Nat.{ℕ, zero, suc, ◌+◌, ◌%◌}
use mathlib.Core.Bool.{Bool, true, false, ◌||◌}
use mathlib.Core.Option.{Option, none, some}
use mathlib.Core.List.{List, [], ◌∷◌}
use tsf4g.Prelude.{ltb, leb, if◌then◌else◌, u32_mod}
use tsf4g.Errors.{ErrorCode, noerror, would_block, errno, out_of_memory, is_noerror, is_would_block}

-- The signals that are handled.
pub data Signal : Type 0 where
  sigint sigterm sigusr1 sigusr2 : Signal

-- The three flags, and the rest of the process as a state of its own.
pub record Tapp (W : Type 0) : Type 0 where
  pub world : W
  pub sigterm : Bool
  pub sigusr1 : Bool
  pub sigusr2 : Bool

-- `on_signal`
unfoldable pub on_signal : {W : Type 0} → Signal → Tapp W → Tapp W
on_signal sigint s = record s { sigterm = true }
on_signal sigterm s = record s { sigterm = true }
on_signal sigusr1 s = record s { sigusr1 = true }
on_signal sigusr2 s = record s { sigusr2 = true }

-- A work function with its argument. Signals come while it runs, so that it may set the flags.
abbrev pub Work : Type 0 → Type 0
Work W = Tapp W → ErrorCode × Tapp W

-- What `usleep` does; its second result says that it failed, and not by a signal.
abbrev pub Usleep : Type 0 → Type 0
Usleep W = Tapp W → Tapp W × Bool

-- What the loop over the functions answers, with `proc_ret` as it stands.
unfoldable pub call_all : {W : Type 0} → List (Work W) → ErrorCode → Tapp W → ErrorCode × Tapp W
call_all [] proc_ret s = (proc_ret, s)
call_all (f ∷ fs) proc_ret s =
    let r = f s in
    let rest = call_all fs (if is_noerror r.0 then noerror else proc_ret) r.1 in
    if is_noerror r.0 || is_would_block r.0 then rest else r

-- How a turn of the outer loop ends: it goes on with an idle count, or returns.
pub data Turn (W : Type 0) : Type 0 where
  goes_on : ℕ → Tapp W → Turn W
  returns : ErrorCode → Tapp W → Turn W

-- `idle_count`, a 32-bit word, is compared with the limit and may lead to a sleep.
unfoldable pub rest_a_while : {W : Type 0} → Usleep W → ℕ → ℕ → Tapp W → Turn W
rest_a_while usleep idle_limit idle_count s =
    let count = (idle_count + 1) % u32_mod in
    let slept = usleep s in
    if leb idle_limit count
    then (if slept.1 then returns errno slept.0 else goes_on 0 slept.0)
    else goes_on count s

unfoldable pub turn : {W : Type 0} → List (Work W) → Usleep W → ℕ → ℕ → Tapp W → Turn W
turn funcs usleep idle_limit idle_count s =
    let p = call_all funcs would_block s in
    if is_noerror p.0
    then goes_on 0 p.1
    else if is_would_block p.0
    then rest_a_while usleep idle_limit idle_count p.1
    else returns p.0 p.1

-- The outer loop. It sets the flag to terminate when it returns.
unfoldable pub loop_from :
    {W : Type 0} → ℕ → List (Work W) → Usleep W → ℕ → ℕ → Tapp W → Option (ErrorCode × Tapp W)
loop_from zero funcs usleep idle_limit idle_count s = none
loop_from (suc fuel) funcs usleep idle_limit idle_count s =
    if s.sigterm
    then some (noerror, record s { sigterm = true })
    else (elim (turn funcs usleep idle_limit idle_count s) [
      | goes_on count t ↦ loop_from fuel funcs usleep idle_limit count t
      | returns ret t ↦ some (ret, record t { sigterm = true })
    ])

-- `tapp_loop`
abbrev pub loop :
    {W : Type 0} → ℕ → Usleep W → ℕ → List (Work W) → Tapp W → Option (ErrorCode × Tapp W)
loop fuel usleep idle_limit funcs s = loop_from fuel funcs usleep idle_limit 0 s
