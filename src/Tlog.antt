-- ===== src/Tlog.antt =====
-- tlog/source/appender/tlog_appender_rolling_file.c: a log that goes on in a new file when the file
-- is full.
pub mod Backups
use Prim.Native.Nat.{ℕ, ◌+◌, ◌%◌}
use mathlib.Core.Bool.{Bool, true, false, not, ◌&&◌}
use mathlib.Core.Option.{Option, none, some}
use mathlib.Core.List.{List, [], ◌∷◌, ◌++◌}
use tsf4g.Prelude.{length, ltb, ◌==◌, if◌then◌else◌, u32_mod}

-- The part of the configuration that is read. Files are numbers here: `file_name` is the file of that
-- name, and `path` the one that `snprintf` names with an index, which may be any, as it cuts a name
-- that is too long.
pub record RollingConfig : Type 0 where
  pub file_name : ℕ
  pub path : ℕ → ℕ
  pub max_file_size : ℕ
  pub max_backup_index : ℕ

-- `tlog_appener_rolling_file_t`, whose `fout` is open on `file_name` or null, with the bytes of the
-- files that there are.
pub record RollingFile : Type 0 where
  pub fout : Bool
  pub index : ℕ
  pub files : ℕ → Option (List ℕ)

-- A message, and whether `ftell`, `rename` and `fopen` succeed while it is written.
pub record Message : Type 0 where
  pub msg : List ℕ
  pub tells : Bool
  pub renames : Bool
  pub opens : Bool

abbrev pub put_file : (ℕ → Option (List ℕ)) → ℕ → Option (List ℕ) → ℕ → Option (List ℕ)
put_file files i f j = if i == j then f else files j

-- The bytes of a file, none if it is not there.
abbrev pub content : Option (List ℕ) → List ℕ
content none = []
content (some bs) = bs

-- `rename` of a file: to its own name it does nothing, and another file of that name is lost.
abbrev pub renamed : (ℕ → Option (List ℕ)) → ℕ → ℕ → Option (List ℕ) → ℕ → Option (List ℕ)
renamed files from to none = files
renamed files from to (some f) =
    if from == to then files else put_file (put_file files to (some f)) from none

-- `tlog_appender_rolling_file_init`, with the files that are there
abbrev pub init : (ℕ → Option (List ℕ)) → RollingFile
init files = record { fout = false; index = 0; files = files }

-- Whether the message does not go into the file any more.
abbrev pub is_full : RollingConfig → RollingFile → Message → Bool
is_full config self m =
    ltb config.max_file_size (length (content (self.files config.file_name)) + length m.msg)

abbrev pub next_index : RollingConfig → ℕ → ℕ
next_index config i =
    let next = (i + 1) % u32_mod in if ltb config.max_backup_index next then 0 else next

-- The file is closed and renamed. Whether that succeeds is not looked at.
abbrev pub roll : RollingConfig → RollingFile → Message → RollingFile
roll config self m = record {
  fout = false;
  index = next_index config self.index;
  files =
      if m.renames
      then renamed self.files config.file_name (config.path self.index)
          (self.files config.file_name)
      else self.files;
}

-- The message and the end of its line go behind what the file has.
abbrev pub append_line : RollingConfig → RollingFile → List ℕ → RollingFile
append_line config self msg = record {
  fout = true;
  index = self.index;
  files =
      put_file self.files config.file_name
        (some (content (self.files config.file_name) ++ msg ++ 10 ∷ []));
}

-- They are written, once the file is open.
unfoldable pub write : RollingConfig → RollingFile → Message → RollingFile
write config self m =
    if self.fout
    then append_line config self m.msg
    else if m.opens
    then append_line config self m.msg
    else self

-- `tlog_appender_rolling_file_log`
unfoldable pub log : RollingConfig → RollingFile → Message → RollingFile
log config self m =
    if self.fout && not m.tells
    then self
    else if self.fout && is_full config self m
    then write config (roll config self m) m
    else write config self m
