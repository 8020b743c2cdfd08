-- ===== src/Tapp/Options.antt =====
-- tapp/source/tapp.c, `tapp_load_config`: the options and the file of a program.
pub mod Accepted
use Prim.Native.Nat.{ℕ}
use mathlib.Core.Bool.{Bool, true, false}
use mathlib.Core.Option.{Option, none, some}
use mathlib.Core.List.{List, [], ◌∷◌}
use tsf4g.Prelude.{if◌then◌else◌}
use tsf4g.Errors.{ErrorCode, is_noerror}

-- What `getopt_long` returns: an option, or the sign of an error. Another value does not come from it
-- with these options.
pub data Opt : Type 0 where
  opt_help opt_version opt_error opt_other : Opt
  opt_include : List ℕ → Opt

-- The XML reader, with a state `X` of its own, and the function of the program that reads a
-- configuration from it.
pub record XmlReader (X D : Type 0) : Type 0 where
  pub fresh : X
  pub add_include : X → List ℕ → X
  pub push_file : X → List ℕ → X × ErrorCode
  pub read : Option (X → D → ErrorCode × D)

-- The options up to the end, and the arguments that are none.
pub record CommandLine : Type 0 where
  pub opts : List Opt
  pub files : List (List ℕ)

-- The loop over the options; `none` where the process exits.
unfoldable pub take_options : {X D : Type 0} → XmlReader X D → X → List Opt → Option X
take_options xml x [] = some x
take_options xml x (opt_include d ∷ os) = take_options xml (xml.add_include x d) os
take_options xml x (opt_help ∷ os) = none
take_options xml x (opt_version ∷ os) = none
take_options xml x (opt_error ∷ os) = none
take_options xml x (opt_other ∷ os) = none

unfoldable pub read_file : {X D : Type 0} → (X → D → ErrorCode × D) → X × ErrorCode → D → Option D
read_file read p config =
    let r = read p.0 config in
    if is_noerror p.1 then (if is_noerror r.0 then some r.1 else none) else none

unfoldable pub take_files :
    {X D : Type 0}
    → XmlReader X D
    → X
    → D
    → Option (X → D → ErrorCode × D)
    → List (List ℕ)
    → Option D
take_files xml x config read (f ∷ g ∷ fs) = none
take_files xml x config none [] = some config
take_files xml x config none (f ∷ []) = none
take_files xml x config (some read) [] = none
take_files xml x config (some read) (f ∷ []) = read_file read (xml.push_file x f) config

-- `tapp_load_config`
unfoldable pub load_config : {X D : Type 0} → XmlReader X D → D → CommandLine → Option D
load_config xml config line = elim (take_options xml xml.fresh line.opts) [
  | none ↦ none
  | some x ↦ take_files xml x config xml.read line.files
]
