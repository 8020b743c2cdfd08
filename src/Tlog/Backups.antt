-- ===== src/Tlog/Backups.antt =====
-- How long a file that was renamed stays.
use tsf4g.Prelude.{
  ℕ, suc, ◌+◌, ◌≤◌, ◌<◌, ◌≡◌, ◌≢◌, refl, ◌∙◌, ap, subst, inl, inr, ◌⊎◌, Bool, true, false, not,
  ◌&&◌, List, [], ◌∷◌, arith, if◌then◌else◌, if_both, if_cases, Bool-cases, lt_or_le, some, none,
  ◌++◌, Option, ◌==◌, u32_mod,
}
use tsf4g.Tlog.{
  RollingConfig, RollingFile, Message, content, renamed, append_line, is_full, next_index, roll,
  write, log,
}

-- Whether the message makes the file roll.
abbrev pub rolls : RollingConfig → RollingFile → Message → Bool
rolls config self m = not (self.fout && not m.tells) && (self.fout && is_full config self m)

abbrev pub log_all : RollingConfig → RollingFile → List Message → RollingFile
log_all config self [] = self
log_all config self (m ∷ ms) = log_all config (log config self m) ms

abbrev pub roll_count : RollingConfig → RollingFile → List Message → ℕ
roll_count config self [] = 0
roll_count config self (m ∷ ms) =
    let rest = roll_count config (log config self m) ms in
    if rolls config self m then suc rest else rest

append_line-files :
    (config : RollingConfig) (self : RollingFile) (msg : List ℕ) (k : ℕ)
    → config.file_name ≢ k
    → (append_line config self msg).files k ≡ self.files k
append_line-files config self msg k n =
    let away : (config.file_name == k) ≡ false = ground (arith, n) in
    ap
      (λ c.
        if c then some (content (self.files config.file_name) ++ msg ++ 10 ∷ []) else self.files k)
      away

renamed-other :
    (files : ℕ → Option (List ℕ)) (from to k : ℕ) (o : Option (List ℕ))
    → from ≢ k
    → to ≢ k
    → renamed files from to o k ≡ files k
renamed-other files from to k none n m = refl
renamed-other files from to k (some f) n m =
    let from_away : (from == k) ≡ false = ground (arith, n) in
    let to_away : (to == k) ≡ false = ground (arith, m) in
    if_both (λ (v : ℕ → Option (List ℕ)). v k ≡ files k) (from == to) refl
      (rw (from_away, to_away) refl)

renamed-there :
    (files : ℕ → Option (List ℕ)) (from to : ℕ) (f : List ℕ)
    → from ≢ to
    → renamed files from to (some f) to ≡ some f
renamed-there files from to f n =
    let away : (from == to) ≡ false = ground (arith, n) in
    let own : (to == to) ≡ true = ground arith in rw (away, own, away) refl

write-files :
    (config : RollingConfig) (self : RollingFile) (m : Message) (k : ℕ)
    → config.file_name ≢ k
    → (write config self m).files k ≡ self.files k
unfolding write
write-files config self m k n =
    let appended = append_line-files config self m.msg k n in
    if_both (λ (x : RollingFile). x.files k ≡ self.files k) self.fout appended
      (if_both (λ (x : RollingFile). x.files k ≡ self.files k) m.opens appended refl)

write-index :
    (config : RollingConfig) (self : RollingFile) (m : Message)
    → (write config self m).index ≡ self.index
unfolding write
write-index config self m =
    if_both (λ (x : RollingFile). x.index ≡ self.index) self.fout refl
      (if_both (λ (x : RollingFile). x.index ≡ self.index) m.opens refl refl)

both_hold : (a b : Bool) → a ≡ false → b ≡ true → (not a && b) ≡ true
both_hold a b h k = rw (h, k) refl

one_fails : (a b : Bool) → (a ≡ true) ⊎ (b ≡ false) → (not a && b) ≡ false
one_fails a b (inl h) = rw h refl
one_fails true b (inr k) = refl
one_fails false b (inr k) = k

clash : {b : Bool} → b ≡ true → b ≡ false → ⊥
clash h k = absurd (ground arith)

-- What a message leaves of a file other than the one that is written, and of the index.
abbrev Leaves : ℕ → RollingFile → RollingFile → Type 0
Leaves k s t = (t.files k ≡ s.files k) × (t.index ≡ s.index)

module _ (config : RollingConfig) (self : RollingFile) (m : Message) (k : ℕ)
    (n : config.file_name ≢ k) where
  written : (s : RollingFile) → Leaves k s (write config s m)
  written s = (write-files config s m k n, write-index config s m)

  log-quiet : rolls config self m ≡ false → Leaves k self (log config self m)
  unfolding log
  log-quiet h =
      let a = self.fout && not m.tells in
      let b = self.fout && is_full config self m in
      if_cases (Leaves k self) a (λ c. (refl, refl))
        (λ c.
          if_cases (Leaves k self) b (λ l. absurd (clash (both_hold a b c l) h))
            (λ l. written self))

  log-roll : rolls config self m ≡ true → Leaves k (roll config self m) (log config self m)
  unfolding log
  log-roll h =
      let a = self.fout && not m.tells in
      let b = self.fout && is_full config self m in
      if_cases (Leaves k (roll config self m)) a (λ c. absurd (clash h (one_fails a b (inl c))))
        (λ c.
          if_cases (Leaves k (roll config self m)) b (λ l. written (roll config self m))
            (λ l. absurd (clash h (one_fails a b (inr l)))))

  roll-other : config.path self.index ≢ k → (roll config self m).files k ≡ self.files k
  roll-other away =
      if_both (λ (v : ℕ → Option (List ℕ)). v k ≡ self.files k) m.renames
        (renamed-other self.files config.file_name (config.path self.index) k
          (self.files config.file_name) n away)
        refl

-- The index stands some places behind another one, in the circle of indices.
abbrev IsBehind : ℕ → ℕ → ℕ → ℕ → Type 0
IsBehind max i n j = (j ≡ i + suc n) ⊎ (j + suc max ≡ i + suc n)

next_index-cases :
    (config : RollingConfig) (j : ℕ)
    → config.max_backup_index < u32_mod
    → j ≤ config.max_backup_index
    → ((j < config.max_backup_index) × (next_index config j ≡ j + 1))
      ⊎ ((j ≡ config.max_backup_index) × (next_index config j ≡ 0))
next_index-cases config j w l = elim (lt_or_le j config.max_backup_index) [
  | inl h ↦ inl (h, ground (arith, w))
  | inr h ↦ inr (omega arith, ground (arith, w))
]

next-IsBehind :
    (config : RollingConfig) (i n j : ℕ)
    → config.max_backup_index < u32_mod
    → i ≤ config.max_backup_index
    → n < config.max_backup_index
    → j ≤ config.max_backup_index
    → IsBehind config.max_backup_index i n j
    → IsBehind config.max_backup_index i (suc n) (next_index config j)
      × (next_index config j ≤ config.max_backup_index)
next-IsBehind config i n j w h k l b = elim (next_index-cases config j w l) [
  | inl (inside, e) ↦ elim b [
    | inl f ↦ (inl (omega (arith, e)), omega (arith, e))
    | inr f ↦ (inr (omega (arith, e)), omega (arith, e))
  ]
  | inr (last, e) ↦ elim b [
    | inl f ↦ (inr (omega (arith, e)), omega (arith, e))
    | inr f ↦ absurd (omega arith)
  ]
]

apart : (max i n j : ℕ) → i ≤ max → n < max → IsBehind max i n j → j ≢ i
apart max i n j h k (inl e) here = omega arith
apart max i n j h k (inr e) here = omega arith

-- The name with this index is neither that of the file that is written nor that with another index.
pub record IsOwn (config : RollingConfig) (i : ℕ) : Type 0 where
  pub away : config.file_name ≢ config.path i
  pub alone : (j : ℕ) → j ≤ config.max_backup_index → j ≢ i → config.path j ≢ config.path i

module _ (config : RollingConfig) (i : ℕ) (small : config.max_backup_index < u32_mod)
    (inside : i ≤ config.max_backup_index) (own : IsOwn config i) where
  -- After some rolls, with others to come.
  kept :
      (ms : List Message) (self : RollingFile) (n : ℕ)
      → self.index ≤ config.max_backup_index
      → IsBehind config.max_backup_index i n self.index
      → n + roll_count config self ms ≤ config.max_backup_index
      → (log_all config self ms).files (config.path i) ≡ self.files (config.path i)
  kept [] self n l b h = refl
  kept (m ∷ ms) self n l b h =
      let next = log config self m in
      let k = config.path i in
      elim (Bool-cases (rolls config self m)) [
        | inl r ↦
            let (files, at) = log-roll config self m k own.away r in
            let more : n + suc (roll_count config next ms) ≤ config.max_backup_index =
              subst
                (λ c.
                  n + (if c then suc (roll_count config next ms) else roll_count config next ms)
                  ≤ config.max_backup_index)
                r h in
            let (b', l') = next-IsBehind config i n self.index small inside (omega arith) l b in
            let other = apart config.max_backup_index i n self.index inside (omega arith) b in
            kept ms next (suc n) (rw at l') (rw at b') (omega arith)
            ∙ files
            ∙ roll-other config self m k own.away (own.alone self.index l other)
        | inr r ↦
            let (files, at) = log-quiet config self m k own.away r in
            let more : n + roll_count config next ms ≤ config.max_backup_index =
              subst
                (λ c.
                  n + (if c then suc (roll_count config next ms) else roll_count config next ms)
                  ≤ config.max_backup_index)
                r h in
            kept ms next n (rw at l) (rw at b) more ∙ files
      ]

roll-there :
    (config : RollingConfig) (self : RollingFile) (m : Message) (f : List ℕ)
    → m.renames ≡ true
    → self.files config.file_name ≡ some f
    → config.file_name ≢ config.path self.index
    → (roll config self m).files (config.path self.index) ≡ some f
roll-there config self m f renames e n =
    rw (renames, e) (renamed-there self.files config.file_name (config.path self.index) f n)

-- If a message makes the file roll and `rename` succeeds, the file is found under its name with the
-- index, with all that it had, as long as the messages behind that one do not make files roll more
-- than `max_backup_index` times, whether `rename` succeeds then or not. The index is in its range,
-- which fits 32 bits, and its name is neither cut to that of the file that is written nor to that with
-- another index in the range.
pub log_all-backup :
    (config : RollingConfig) (self : RollingFile) (m : Message) (ms : List Message) (f : List ℕ)
    → config.max_backup_index < u32_mod
    → self.index ≤ config.max_backup_index
    → IsOwn config self.index
    → self.files config.file_name ≡ some f
    → rolls config self m ≡ true
    → m.renames ≡ true
    → roll_count config (log config self m) ms ≤ config.max_backup_index
    → (log_all config (log config self m) ms).files (config.path self.index) ≡ some f
log_all-backup config self m ms f w l own there r renames h =
    let i = self.index in
    let (files, at) = log-roll config self m (config.path i) own.away r in
    let put = files ∙ roll-there config self m f renames there own.away in
    elim (next_index-cases config i w l) [
      | inl (before, e) ↦
          kept config i w l own ms (log config self m) 0 (omega (arith, at, e))
            (inl (omega (arith, at, e))) (omega arith)
          ∙ put
      | inr (last, e) ↦
          kept config i w l own ms (log config self m) 0 (omega (arith, at, e))
            (inr (omega (arith, at, e))) (omega arith)
          ∙ put
    ]
