-- ===== src/Tests/TlogTests.antt =====
-- A log with files of four bytes and two backups.
use tsf4g.Prelude.{
  ℕ, suc, ◌≡◌, refl, true, false, none, some, List, [], ◌∷◌, arith, Option, if◌then◌else◌, ◌==◌,
}
use tsf4g.Tlog.{RollingConfig, RollingFile, Message, init, write, log}
use tsf4g.Tlog.Backups.{log_all, IsOwn, log_all-backup}

-- The file is number 0, and the one with an index behind its name is one number on.
abbrev config : RollingConfig
config = record { file_name = 0; path = suc; max_file_size = 4; max_backup_index = 1 }

abbrev message : ℕ → Message
message c = record { msg = c ∷ c ∷ []; tells = true; renames = true; opens = true }

abbrev one_file : ℕ → Option (List ℕ)
one_file i = if 0 == i then some (97 ∷ 97 ∷ 10 ∷ []) else none

abbrev one_line : RollingFile
one_line = record { fout = true; index = 0; files = one_file }

starts : (log config (init (λ i. none)) (message 97)).files 0 ≡ some (97 ∷ 97 ∷ 10 ∷ [])
unfolding log write
starts = refl

own : IsOwn config 0
own = record { away = λ h. omega (arith, h); alone = λ j l n h. n (omega (arith, h)) }

log_all-backup_example :
    (log_all config (log config one_line (message 98)) (message 99 ∷ [])).files 1
    ≡ some (97 ∷ 97 ∷ 10 ∷ [])
unfolding log write
log_all-backup_example =
    log_all-backup config one_line (message 98) (message 99 ∷ []) (97 ∷ 97 ∷ 10 ∷ []) (omega arith)
      (omega arith) own refl refl refl (omega arith)

-- The third roll takes the name of the first file.
overwrites :
    (log_all config one_line (message 98 ∷ message 99 ∷ message 100 ∷ [])).files 1
    ≡ some (99 ∷ 99 ∷ 10 ∷ [])
unfolding log write
overwrites = refl

-- The file cannot be renamed, and goes on.
goes_on :
    (log config one_line (record (message 98) { renames = false })).files 0
    ≡ some (97 ∷ 97 ∷ 10 ∷ 98 ∷ 98 ∷ 10 ∷ [])
unfolding log write
goes_on = refl
