-- ===== src/Tapp/Options/Accepted.antt =====
-- Which command lines a program takes.
use tsf4g.Prelude.{
  ℕ, ◌≡◌, refl, sym, ◌∙◌, ap, subst, inl, inr, ◌↔◌, true, Option, none, some, some-injective, List,
  [], ◌∷◌, arith, map, Bool-cases, Option-cases,
}
use tsf4g.Errors.{ErrorCode, is_noerror}
use tsf4g.Tapp.Options.{
  Opt, opt_include, opt_help, opt_version, opt_error, opt_other, XmlReader, CommandLine,
  take_options, read_file, take_files, load_config,
}

-- The reader with some directories added.
abbrev pub with_includes : {X D : Type 0} → XmlReader X D → X → List (List ℕ) → X
with_includes xml x [] = x
with_includes xml x (d ∷ ds) = with_includes xml (xml.add_include x d) ds

-- A file is read, or none is wanted.
pub data Loads {X D : Type 0} (xml : XmlReader X D) (x : X) (config : D)
    : Option (X → D → ErrorCode × D) → List (List ℕ) → D → Type 0 where
  without : Loads xml x config none [] config
  reads :
      {read : X → D → ErrorCode × D} (f : List ℕ)
      → is_noerror (xml.push_file x f).1 ≡ true
      → is_noerror (read (xml.push_file x f).0 config).0 ≡ true
      → Loads xml x config (some read) (f ∷ []) (read (xml.push_file x f).0 config).1

-- The options are directories only, and there is one file if the program reads one, and else none.
pub record IsAccepted {X D : Type 0} (xml : XmlReader X D) (config : D) (line : CommandLine) (d : D)
    : Type 0 where
  pub dirs : List (List ℕ)
  pub opts : line.opts ≡ map opt_include dirs
  pub loads : Loads xml (with_includes xml xml.fresh dirs) config xml.read line.files d

module _ {X D : Type 0} (xml : XmlReader X D) where
  take_options-dirs :
      (os : List Opt) (x y : X)
      → take_options xml x os ≡ some y
      → (dirs : List (List ℕ)) × (os ≡ map opt_include dirs) × (y ≡ with_includes xml x dirs)
  unfolding take_options
  take_options-dirs [] x y e = ([], refl, sym (some-injective _ _ e))
  take_options-dirs (opt_include d ∷ os) x y e =
      let (dirs, same, z) = take_options-dirs os (xml.add_include x d) y e in
      (d ∷ dirs, ap (λ l. opt_include d ∷ l) same, z)
  take_options-dirs (opt_help ∷ os) x y e = absurd (ground arith)
  take_options-dirs (opt_version ∷ os) x y e = absurd (ground arith)
  take_options-dirs (opt_error ∷ os) x y e = absurd (ground arith)
  take_options-dirs (opt_other ∷ os) x y e = absurd (ground arith)

  dirs-take_options :
      (dirs : List (List ℕ)) (x : X)
      → take_options xml x (map opt_include dirs) ≡ some (with_includes xml x dirs)
  unfolding take_options
  dirs-take_options [] x = refl
  dirs-take_options (d ∷ dirs) x = dirs-take_options dirs (xml.add_include x d)

  Loads-take_files :
      {x : X} {config d : D} {read : Option (X → D → ErrorCode × D)} {files : List (List ℕ)}
      → Loads xml x config read files d
      → take_files xml x config read files ≡ some d
  unfolding take_files read_file
  Loads-take_files without = refl
  Loads-take_files (reads f p r) = rw (p, r) refl

  take_files-Loads :
      (x : X) (config d : D) (read : Option (X → D → ErrorCode × D)) (files : List (List ℕ))
      → take_files xml x config read files ≡ some d
      → Loads xml x config read files d
  unfolding take_files read_file
  take_files-Loads x config d read (f ∷ g ∷ fs) e = absurd (ground arith)
  take_files-Loads x config d none [] e =
      subst (Loads xml x config none []) (some-injective _ _ e) without
  take_files-Loads x config d none (f ∷ []) e = absurd (ground arith)
  take_files-Loads x config d (some read) [] e = absurd (ground arith)
  take_files-Loads x config d (some read) (f ∷ []) e =
      let p = xml.push_file x f in
      let r = read p.0 config in
      elim (Bool-cases (is_noerror p.1)) [
        | inl b ↦ elim (Bool-cases (is_noerror r.0)) [
          | inl c ↦
              subst (Loads xml x config (some read) (f ∷ []))
                (some-injective _ _
                  (sym (Loads-take_files {config = config} (reads {read = read} f b c)) ∙ e))
                (reads {read = read} f b c)
          | inr c ↦
              let fails : take_files xml x config (some read) (f ∷ []) ≡ none = rw (b, c) refl in
              let clash : none ≡ some d = sym fails ∙ e in absurd (ground arith)
        ]
        | inr b ↦
            let fails : take_files xml x config (some read) (f ∷ []) ≡ none = rw b refl in
            let clash : none ≡ some d = sym fails ∙ e in absurd (ground arith)
      ]

  accepted :
      (config : D) (line : CommandLine) (d : D)
      → load_config xml config line ≡ some d
      → IsAccepted xml config line d
  unfolding load_config
  accepted config line d e = elim (Option-cases (take_options xml xml.fresh line.opts)) [
    | inl n ↦
        let fails : load_config xml config line ≡ none = rw (load_config, n) refl in
        let clash : none ≡ some d = sym fails ∙ e in absurd (ground arith)
    | inr (x, taken) ↦
        let (dirs, same, shown) = take_options-dirs line.opts xml.fresh x taken in
        let rest : load_config xml config line ≡ take_files xml x config xml.read line.files =
          rw (load_config, taken) refl in
        record {
          dirs = dirs;
          opts = same;
          loads =
              subst (λ x. Loads xml x config xml.read line.files d) shown
                (take_files-Loads x config d xml.read line.files (sym rest ∙ e));
        }
  ]

  returned :
      (config : D) (line : CommandLine) (d : D)
      → IsAccepted xml config line d
      → load_config xml config line ≡ some d
  unfolding load_config
  returned config line d a =
      let taken = ap (take_options xml xml.fresh) a.opts ∙ dirs-take_options a.dirs xml.fresh in
      rw (load_config, taken) (Loads-take_files a.loads)

  -- `tapp_load_config` returns, with a configuration, exactly for these command lines: the options are
  -- directories to include only; a program that reads a configuration has one file, which is opened
  -- with those directories and read without an error; and one that reads none has no file. For every
  -- other one the process exits.
  pub load_config_lem :
      (config : D) (line : CommandLine) (d : D)
      → (load_config xml config line ≡ some d) ↔ IsAccepted xml config line d
  load_config_lem config line d = (accepted config line d, returned config line d)
