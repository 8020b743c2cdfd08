-- ===== src/Hash.antt =====
-- tutils/source/tlibc_hash.c and tutils/include/tlibc_hash.h: the hash table.
pub mod Table
pub mod Lookup
pub mod Removal
use Prim.Native.Nat.{ℕ, zero, suc, ◌+◌, ◌*◌, ◌%◌}
use mathlib.Core.Bool.{Bool, true, false, ◌&&◌}
use mathlib.Core.Option.{Option, none, some}
use mathlib.Core.List.{List, [], ◌∷◌, ◌++◌}
use tsf4g.Prelude.{length, take, ltb, ◌==◌, if◌then◌else◌, add32, sub32, u32_mod}

-- `tlibc_hash_head_t`, with a name in place of its address; `key_size` is the length of the key.
pub record Head : Type 0 where
  pub name : ℕ
  pub key : List ℕ
  pub key_index : ℕ

-- `tlibc_hash_bucket_t`
pub record Bucket : Type 0 where
  pub data_list : List Head
  pub data_list_num : ℕ

-- `tlibc_hash_t`; `used_bucket_list` has the indices of its buckets.
pub record Hash : Type 0 where
  pub size : ℕ
  pub buckets : ℕ → Bucket
  pub used_bucket_list : List ℕ
  pub used_bucket_list_num : ℕ

abbrev pub no_data : Bucket
no_data = record { data_list = []; data_list_num = 0 }

-- `tlibc_hash_init`
unfoldable pub init : ℕ → Hash
init size = record {
  size = size;
  buckets = λ i. no_data;
  used_bucket_list = [];
  used_bucket_list_num = 0;
}

unfoldable pub hash_from : ℕ → List ℕ → ℕ
hash_from h [] = h
hash_from h (c ∷ cs) = hash_from (add32 (h * 31 % u32_mod) (c % 256)) cs

-- `tlibc_hash_key`
abbrev pub hash_key : List ℕ → ℕ
hash_key key = hash_from 0 key

-- `memcmp` of keys of the same size, and the test of the sizes.
unfoldable pub same_key : List ℕ → List ℕ → Bool
same_key [] [] = true
same_key [] (b ∷ w) = false
same_key (a ∷ u) [] = false
same_key (a ∷ u) (b ∷ w) = (a == b) && same_key u w

abbrev pub key_index_of : Hash → List ℕ → ℕ
key_index_of self key = hash_key key % self.size

abbrev pub put_bucket : (ℕ → Bucket) → ℕ → Bucket → ℕ → Bucket
put_bucket v i b j = if i == j then b else v j

-- `tlibc_hash_insert` of the head with this name.
unfoldable pub insert : Hash → List ℕ → ℕ → Hash
insert self key name =
    let i = key_index_of self key in
    let bucket = self.buckets i in
    let head : Head = record { name = name; key = key; key_index = i } in
    record {
      size = self.size;
      buckets = put_bucket self.buckets i (record {
        data_list = bucket.data_list ++ head ∷ [];
        data_list_num = add32 bucket.data_list_num 1;
      });
      used_bucket_list =
          if bucket.data_list_num == 0
          then self.used_bucket_list ++ i ∷ []
          else self.used_bucket_list;
      used_bucket_list_num =
          if bucket.data_list_num == 0
          then add32 self.used_bucket_list_num 1
          else self.used_bucket_list_num;
    }

-- The first `n` of a bucket's heads, up to the first with this key.
unfoldable pub find_from : ℕ → List Head → List ℕ → Option Head
find_from zero hs key = none
find_from (suc n) [] key = none
find_from (suc n) (h ∷ hs) key = if same_key h.key key then some h else find_from n hs key

-- `tlibc_hash_find` and `tlibc_hash_find_const`
unfoldable pub find : Hash → List ℕ → Option Head
find self key =
    let bucket = self.buckets (key_index_of self key) in
    find_from bucket.data_list_num bucket.data_list key

-- `tlibc_list_del` of a head, by its name.
unfoldable pub unlink : ℕ → List Head → List Head
unlink name [] = []
unlink name (h ∷ hs) = if h.name == name then hs else h ∷ unlink name hs

unfoldable pub unlink_index : ℕ → List ℕ → List ℕ
unlink_index i [] = []
unlink_index i (j ∷ js) = if j == i then js else j ∷ unlink_index i js

unfoldable pub removed : Hash → Head → Hash
removed self ele =
    let i = ele.key_index in
    let bucket = self.buckets i in
    let num = sub32 bucket.data_list_num 1 in
    record {
      size = self.size;
      buckets =
          put_bucket self.buckets i
            (record { data_list = unlink ele.name bucket.data_list; data_list_num = num });
      used_bucket_list =
          if num == 0 then unlink_index i self.used_bucket_list else self.used_bucket_list;
      used_bucket_list_num =
          if num == 0 then sub32 self.used_bucket_list_num 1 else self.used_bucket_list_num;
    }

-- `tlibc_hash_remove` of a head that is in the table.
unfoldable pub remove : Hash → Head → Hash
remove self ele = if ltb ele.key_index self.size then removed self ele else self

-- The buckets that the loop of `tlibc_hash_clear` empties.
unfoldable pub clear_buckets : List ℕ → (ℕ → Bucket) → ℕ → Bucket
clear_buckets [] v = v
clear_buckets (i ∷ is) v = clear_buckets is (put_bucket v i no_data)

-- `tlibc_hash_clear`
unfoldable pub clear : Hash → Hash
clear self = record {
  size = self.size;
  buckets = clear_buckets (take self.used_bucket_list_num self.used_bucket_list) self.buckets;
  used_bucket_list = [];
  used_bucket_list_num = 0;
}
