-- ===== src/Hash/Removal.antt =====
-- `tlibc_hash_remove`.
use mathlib.Core.List.{Memᴰ}
use mathlib.Core.List.Memᴰ.{head, tail, not-nil}
use tsf4g.Prelude.{
  ℕ, ◌+◌, ◌<◌, ◌≡◌, ◌≢◌, refl, sym, ◌∙◌, ap, subst, ◌⊎◌, inl, inr, List, [], ◌∷◌, arith, length,
  ◌%◌, sub32, u32_mod, ltb, Bool, true, false, Bool-cases, ◌==◌, if◌then◌else◌,
}
use tsf4g.Hash.{
  Head, Bucket, Hash, same_key, key_index_of, hash_key, unlink, unlink_index, removed, remove,
}
use tsf4g.Hash.Table.{data_of, IsHash, HasRoom, put_bucket-cases}
use tsf4g.Hash.Lookup.{matching, contents, same_key-eq}

-- A head that is in the table, in its bucket, and the only one at its address.
pub record IsHeld (h : Hash) (e : Head) : Type 0 where
  pub own_index : e.key_index ≡ key_index_of h e.key
  pub in_range : e.key_index < h.size
  pub held : Memᴰ e (data_of h e.key_index)
  pub only : (x : Head) → Memᴰ x (data_of h e.key_index) → x.name ≡ e.name → x ≡ e

module _ (e : Head) (key : List ℕ) where
  matching-unlink_own :
      (hs : List Head)
      → same_key e.key key ≡ true
      → ((x : Head) → Memᴰ x hs → x.name ≡ e.name → x ≡ e)
      → matching key (unlink e.name hs) ≡ unlink e.name (matching key hs)
  unfolding matching unlink
  matching-unlink_own [] own only = refl
  matching-unlink_own (x ∷ hs) own only =
      let rest = matching-unlink_own hs own (λ y m. only y (tail m)) in
      elim (Bool-cases (x.name == e.name)) [
        | inl n ↦
            let own' : same_key x.key key ≡ true =
              ap (λ (x : Head). same_key x.key key) (only x (head refl) (ground arith)) ∙ own in
            rw (n, own', n) refl
        | inr n ↦ elim (Bool-cases (same_key x.key key)) [
          | inl m ↦ rw (n, m, n) (ap (λ t. x ∷ t) rest)
          | inr m ↦ rw (n, m) rest
        ]
      ]

  matching-unlink_other :
      (hs : List Head)
      → same_key e.key key ≡ false
      → ((x : Head) → Memᴰ x hs → x.name ≡ e.name → x ≡ e)
      → matching key (unlink e.name hs) ≡ matching key hs
  unfolding matching unlink
  matching-unlink_other [] other only = refl
  matching-unlink_other (x ∷ hs) other only =
      let rest = matching-unlink_other hs other (λ y m. only y (tail m)) in
      elim (Bool-cases (x.name == e.name)) [
        | inl n ↦
            let other' : same_key x.key key ≡ false =
              ap (λ (x : Head). same_key x.key key) (only x (head refl) (ground arith)) ∙ other in
            rw (n, other') refl
        | inr n ↦ elim (Bool-cases (same_key x.key key)) [
          | inl m ↦ rw (n, m) (ap (λ t. x ∷ t) rest)
          | inr m ↦ rw (n, m) rest
        ]
      ]

length-unlink : (e : Head) (hs : List Head) → Memᴰ e hs → length (unlink e.name hs) + 1 ≡ length hs
unfolding unlink
length-unlink e [] m = absurd (not-nil m)
length-unlink e (x ∷ hs) (head eq) =
    let n : (x.name == e.name) ≡ true =
      ap (λ (x : Head). x.name == e.name) (sym eq) ∙ ground arith in
    rw n (omega arith)
length-unlink e (x ∷ hs) (tail m) = elim (Bool-cases (x.name == e.name)) [
  | inl n ↦ rw n (omega arith)
  | inr n ↦ rw n (omega (arith, length-unlink e hs m))
]

length-unlink_index : (i : ℕ) (u : List ℕ) → Memᴰ i u → length (unlink_index i u) + 1 ≡ length u
unfolding unlink_index
length-unlink_index i [] m = absurd (not-nil m)
length-unlink_index i (x ∷ u) (head eq) = ground arith
length-unlink_index i (x ∷ u) (tail m) = ground (arith, length-unlink_index i u m)

unlink_index-keeps : (i j : ℕ) (u : List ℕ) → i ≢ j → Memᴰ j u → Memᴰ j (unlink_index i u)
unfolding unlink_index
unlink_index-keeps i j [] n m = m
unlink_index-keeps i j (x ∷ u) n (head eq) =
    let other : (x == i) ≡ false = ground arith in
    subst (λ b. Memᴰ j (if b then u else x ∷ unlink_index i u)) (sym other) (head eq)
unlink_index-keeps i j (x ∷ u) n (tail m) = elim (Bool-cases (x == i)) [
  | inl b ↦ subst (λ b. Memᴰ j (if b then u else x ∷ unlink_index i u)) (sym b) m
  | inr b ↦
      subst (λ b. Memᴰ j (if b then u else x ∷ unlink_index i u)) (sym b)
        (tail (unlink_index-keeps i j u n m))
]

remove-removed : (h : Hash) (e : Head) → IsHeld h e → remove h e ≡ removed h e
unfolding remove
remove-removed h e m =
    let t : ltb e.key_index h.size ≡ true = ground (arith, m.in_range) in rw t refl

length-unused :
    (b : Bool) (i n : ℕ) (u : List ℕ)
    → n ≡ length u
    → length u < u32_mod
    → Memᴰ i u
    → (if b then sub32 n 1 else n) ≡ length (if b then unlink_index i u else u)
length-unused true i n u e h m = omega (arith, length-unlink_index i u m)
length-unused false i n u e h m = e

unused-keeps :
    (b : Bool) (i j : ℕ) (u : List ℕ)
    → (i ≡ j → b ≡ false)
    → Memᴰ j u
    → Memᴰ j (if b then unlink_index i u else u)
unused-keeps true i j u n m = unlink_index-keeps i j u (λ e. ground (arith, n e)) m
unused-keeps false i j u n m = m

removed-IsHash : (h : Hash) (e : Head) → HasRoom h → IsHash h → IsHeld h e → IsHash (removed h e)
unfolding removed
removed-IsHash h e r k m =
    let i = e.key_index in
    let num = sub32 (h.buckets i).data_list_num 1 in
    let b : Bucket = record { data_list = unlink e.name (data_of h i); data_list_num = num } in
    let less = length-unlink e (data_of h i) m.held in
    let count : num ≡ length (unlink e.name (data_of h i)) =
      omega (arith, k.counted i, r.data_room i, less) in
    let in_use : Memᴰ i h.used_bucket_list = k.used i (omega (arith, less)) in
    record {
      positive = k.positive;
      counted = λ j. elim (put_bucket-cases h.buckets i b j) [
        | inl (here, set) ↦
            ap (λ (b : Bucket). b.data_list_num) set
            ∙ count
            ∙ ap (λ (b : Bucket). length b.data_list) (sym set)
        | inr (n, other) ↦
            ap (λ (b : Bucket). b.data_list_num) other
            ∙ k.counted j
            ∙ ap (λ (b : Bucket). length b.data_list) (sym other)
      ];
      used = λ j z. elim (put_bucket-cases h.buckets i b j) [
        | inl (here, set) ↦
            let some_data : 0 < length (unlink e.name (data_of h i)) =
              subst (λ (b : Bucket). 0 < length b.data_list) set z in
            unused-keeps (num == 0) i j h.used_bucket_list
              (λ same. ground (arith, count, some_data))
              (subst (λ j. Memᴰ j h.used_bucket_list) here in_use)
        | inr (n, other) ↦
            unused-keeps (num == 0) i j h.used_bucket_list (λ same. absurd (n same))
              (k.used j (subst (λ (b : Bucket). 0 < length b.data_list) other z))
      ];
      used_counted =
          length-unused (num == 0) i h.used_bucket_list_num h.used_bucket_list k.used_counted
            (omega (arith, r.used_room)) in_use;
    }

-- A removal keeps the table in order.
pub remove-IsHash : (h : Hash) (e : Head) → HasRoom h → IsHash h → IsHeld h e → IsHash (remove h e)
remove-IsHash h e r k m = subst IsHash (sym (remove-removed h e m)) (removed-IsHash h e r k m)

matching-unlink :
    (e : Head) (key : List ℕ) (hs : List Head)
    → ((x : Head) → Memᴰ x hs → x.name ≡ e.name → x ≡ e)
    → matching key (unlink e.name hs)
      ≡ (if same_key e.key key then unlink e.name (matching key hs) else matching key hs)
matching-unlink e key hs only = elim (Bool-cases (same_key e.key key)) [
  | inl own ↦
      matching-unlink_own e key hs own only
      ∙ ap (λ b. if b then unlink e.name (matching key hs) else matching key hs) (sym own)
  | inr other ↦
      matching-unlink_other e key hs other only
      ∙ ap (λ b. if b then unlink e.name (matching key hs) else matching key hs) (sym other)
]

removed-data :
    (h : Hash) (e : Head) (j : ℕ)
    → ((e.key_index ≡ j) × (data_of (removed h e) j ≡ unlink e.name (data_of h e.key_index)))
      ⊎ ((e.key_index ≢ j) × (data_of (removed h e) j ≡ data_of h j))
unfolding removed
removed-data h e j =
    let i = e.key_index in
    let b : Bucket = record {
      data_list = unlink e.name (data_of h i);
      data_list_num = sub32 (h.buckets i).data_list_num 1;
    } in
    elim (put_bucket-cases h.buckets i b j) [
      | inl (here, set) ↦ inl (here, ap (λ (b : Bucket). b.data_list) set)
      | inr (n, other) ↦ inr (n, ap (λ (b : Bucket). b.data_list) other)
    ]

removed-size : (h : Hash) (e : Head) → (removed h e).size ≡ h.size
unfolding removed
removed-size h e = refl

other_key :
    (h : Hash) (e : Head) (key : List ℕ)
    → IsHeld h e
    → e.key_index ≢ key_index_of h key
    → same_key e.key key ≡ false
other_key h e key m n = elim (Bool-cases (same_key e.key key)) [
  | inl own ↦ absurd (n (m.own_index ∙ ap (key_index_of h) (same_key-eq e.key key own)))
  | inr other ↦ other
]

-- A removal takes its head out of those of its key, and leaves those of all other keys.
pub remove-contents :
    (h : Hash) (e : Head) (key : List ℕ)
    → IsHeld h e
    → contents (remove h e) key
      ≡ (if same_key e.key key then unlink e.name (contents h key) else contents h key)
remove-contents h e key m =
    let j = key_index_of h key in
    ap (λ g. contents g key) (remove-removed h e m)
    ∙ ap (λ s. matching key (data_of (removed h e) (hash_key key % s))) (removed-size h e)
    ∙ elim (removed-data h e j) [
      | inl (here, set) ↦
          ap (matching key) set
          ∙ matching-unlink e key (data_of h e.key_index) m.only
          ∙ ap
              (λ i.
                if same_key e.key key
                then unlink e.name (matching key (data_of h i))
                else matching key (data_of h i))
              here
      | inr (n, other) ↦
          ap (matching key) other
          ∙ ap (λ b. if b then unlink e.name (contents h key) else contents h key)
              (sym (other_key h e key m n))
    ]
