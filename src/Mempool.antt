-- ===== src/Mempool.antt =====
-- tutils/include/tlibc_mempool.h: the pool of units that handles name by id and serial number.
pub mod Handles
pub mod Lists
use Prim.Native.Nat.{ℕ, zero, suc, ◌+◌, ◌-◌, ◌^◌, ◌%◌}
use mathlib.Core.Bool.{Bool, true, false, not, ◌&&◌}
use mathlib.Core.Option.{Option, none, some}
use mathlib.Core.List.{List, [], ◌∷◌, ◌++◌}
use tsf4g.Prelude.{ltb, ◌==◌, if◌then◌else◌, u64_mod}

-- `tlibc_mempool_invalid_id`
abbrev pub invalid_id : ℕ
invalid_id = 0xffffffffffffffff

-- `tlibc_mempool_t` and the `sn` of each unit's entry; the two lists have the ids of their units.
-- The lists' counters are 64-bit words.
pub record Mempool : Type 0 where
  pub sn : ℕ
  pub unit_num : ℕ
  pub entry_sn : ℕ → ℕ
  pub unused_list : List ℕ
  pub used_list : List ℕ
  pub unused_list_num : ℕ
  pub used_list_num : ℕ

-- The loop of `tlibc_mempool_init` from a unit on.
unfoldable pub ids_from : ℕ → ℕ → List ℕ
ids_from zero i = []
ids_from (suc n) i = i ∷ ids_from n (suc i)

-- `tlibc_mempool_init`
unfoldable pub init : ℕ → Mempool
init unit_num = record {
  sn = 0;
  unit_num = unit_num;
  entry_sn = λ i. invalid_id;
  unused_list = ids_from unit_num 0;
  used_list = [];
  unused_list_num = unit_num;
  used_list_num = 0;
}

abbrev pub set_sn : (ℕ → ℕ) → ℕ → ℕ → ℕ → ℕ
set_sn v i n j = if i == j then n else v j

-- `tlibc_mempool_alloc` of the first unused unit, which there has to be.
unfoldable pub alloc_first : Mempool → ℕ → List ℕ → Mempool
alloc_first self id rest = record {
  sn = (self.sn + 1) % u64_mod;
  unit_num = self.unit_num;
  entry_sn = set_sn self.entry_sn id self.sn;
  unused_list = rest;
  used_list = id ∷ self.used_list;
  unused_list_num = (self.unused_list_num + u64_mod - 1) % u64_mod;
  used_list_num = (self.used_list_num + 1) % u64_mod;
}

-- The unit that `tlibc_mempool_alloc` takes, and the pool; `none` if `tlibc_mempool_empty` holds.
unfoldable pub alloc : Mempool → Option (ℕ × Mempool)
unfolding alloc_first
alloc self = elim self.unused_list [ [] ↦ none | id ∷ rest ↦ some (id, alloc_first self id rest) ]

-- `tlibc_list_del` of a unit's `used_list`.
unfoldable pub unlink_id : ℕ → List ℕ → List ℕ
unlink_id i [] = []
unlink_id i (j ∷ js) = if j == i then js else j ∷ unlink_id i js

-- `tlibc_mempool_free`
unfoldable pub free : Mempool → ℕ → Mempool
free self id = record {
  sn = self.sn;
  unit_num = self.unit_num;
  entry_sn = set_sn self.entry_sn id invalid_id;
  unused_list = id ∷ self.unused_list;
  used_list = unlink_id id self.used_list;
  unused_list_num = (self.unused_list_num + 1) % u64_mod;
  used_list_num = (self.used_list_num + u64_mod - 1) % u64_mod;
}

-- `tlibc_mempool_ptr_test` of a unit
unfoldable pub ptr_test : Mempool → ℕ → ℕ → Bool
ptr_test self id sno = not (self.entry_sn id == invalid_id) && (self.entry_sn id == sno)
