-- ===== src/Tests/TappTests.antt =====
-- A server with one function that counts its calls and fails at the third.
use tsf4g.Prelude.{
  ℕ, suc, ◌+◌, ◌*◌, ◌≡◌, ◌<◌, refl, true, false, some, [], ◌∷◌, arith, if◌then◌else◌, ◌==◌,
}
use tsf4g.Errors.{noerror, would_block, error}
use tsf4g.Tapp.{Tapp, Work, Usleep, call_all, turn, rest_a_while, loop_from}
use tsf4g.Prelude.{◌↔◌, length, List, none}
use tsf4g.Tapp.Options.{
  opt_include, opt_help, XmlReader, CommandLine, take_options, take_files, read_file, load_config,
}
use tsf4g.Tapp.Options.Accepted.{IsAccepted, load_config_lem}
use tsf4g.Tapp.Rounds.{Round, call_all-Round}
use tsf4g.Tapp.Idle.{IsIdle, loop_from-naps}

abbrev fresh_process : Tapp ℕ
fresh_process = record { world = 0; sigterm = false; sigusr1 = false; sigusr2 = false }

abbrev count_calls : Work ℕ
count_calls s = (
  (if s.world == 2 then error else if s.world == 1 then would_block else noerror),
  record s { world = suc s.world },
)

abbrev sleep_well : Usleep ℕ
sleep_well s = (s, false)

call_all-Round_example :
    Round
      (count_calls ∷ count_calls ∷ [])
      would_block
      fresh_process
      (call_all (count_calls ∷ count_calls ∷ []) would_block fresh_process)
call_all-Round_example = call_all-Round (count_calls ∷ count_calls ∷ []) would_block fresh_process

-- The third call fails, and the loop returns its code.
loop_from-third :
    loop_from 3 (count_calls ∷ []) sleep_well 5 0 fresh_process
    ≡ some (error, record fresh_process { world = 3; sigterm = true })
unfolding loop_from turn call_all rest_a_while
loop_from-third = refl

-- A signal to terminate ends it with success.
loop_from-signal :
    loop_from 1 (count_calls ∷ []) sleep_well 5 0 (record fresh_process { sigterm = true })
    ≡ some (noerror, record fresh_process { sigterm = true })
unfolding loop_from
loop_from-signal = refl

-- Nothing to do, and sleeps are counted.
abbrev do_nothing : Work ℕ
do_nothing s = (would_block, s)

abbrev count_sleeps : Usleep ℕ
count_sleeps s = (record s { world = suc s.world }, false)

always-IsIdle : IsIdle (do_nothing ∷ []) count_sleeps (λ s. s.world)
unfolding call_all
always-IsIdle = record {
  nothing = λ s. refl;
  awake = λ s. refl;
  sleeps = λ s. refl;
  counted = λ s. refl;
  undisturbed = λ s h. h;
  sound_asleep = λ s h. h;
}

loop_from-naps_example :
    (count : ℕ) × (t : Tapp ℕ) × (t.sigterm ≡ false)
    × (count < 3)
    × (t.world * 3 + count ≡ 0 * 3 + 10)
    × ((fuel : ℕ)
        → loop_from (10 + fuel) (do_nothing ∷ []) count_sleeps 3 0 fresh_process
          ≡ loop_from fuel (do_nothing ∷ []) count_sleeps 3 count t)
loop_from-naps_example =
    loop_from-naps (do_nothing ∷ []) count_sleeps (λ s. s.world) always-IsIdle 3 (omega arith)
      (omega arith) 10 fresh_process refl

-- A program that takes the length of its file's name for its configuration.
abbrev xml : XmlReader (List (List ℕ)) ℕ
xml = record {
  fresh = [];
  add_include = λ x d. d ∷ x;
  push_file = λ x f. (f ∷ x, noerror);
  read = some (λ x d. (noerror, length x));
}

abbrev line : CommandLine
line = record { opts = opt_include (47 ∷ []) ∷ []; files = (97 ∷ []) ∷ [] }

load_config_lem_example : (load_config xml 0 line ≡ some 2) ↔ IsAccepted xml 0 line 2
load_config_lem_example = load_config_lem xml 0 line 2

load_config-line : load_config xml 0 line ≡ some 2
unfolding load_config take_options take_files read_file
load_config-line = refl

load_config-help : load_config xml 0 (record line { opts = opt_help ∷ [] }) ≡ none
unfolding load_config take_options
load_config-help = refl
