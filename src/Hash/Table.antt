-- ===== src/Hash/Table.antt =====
-- The invariant of the hash table: its counters and its list of used buckets.
use mathlib.Core.List.{Memᴰ}
use mathlib.Core.List.Memᴰ.{head, tail, not-nil, append_left, append_right}
use tsf4g.Prelude.{
  ℕ, ◌+◌, ◌≤◌, ◌<◌, ◌≡◌, ◌≢◌, refl, sym, ◌∙◌, ap, subst, ◌⊎◌, inl, inr, List, [], ◌∷◌, ◌++◌, arith,
  length, length-append, Bool, true, false, Bool-cases, ◌==◌, if◌then◌else◌, u32_mod, add32, take,
  take-length, lt_or_le, fun_ext,
}
use tsf4g.Hash.{
  Head, Bucket, Hash, no_data, init, key_index_of, put_bucket, insert, clear, clear_buckets,
}

abbrev pub data_of : Hash → ℕ → List Head
data_of h i = (h.buckets i).data_list

-- Each bucket counts its heads, and each that has some is in the list of the used ones, which is
-- counted too.
pub record IsHash (h : Hash) : Type 0 where
  pub positive : 0 < h.size
  pub counted : (i : ℕ) → (h.buckets i).data_list_num ≡ length (data_of h i)
  pub used : (i : ℕ) → 0 < length (data_of h i) → Memᴰ i h.used_bucket_list
  pub used_counted : h.used_bucket_list_num ≡ length h.used_bucket_list

pub init-IsHash : (size : ℕ) → 0 < size → IsHash (init size)
unfolding init
init-IsHash size h = record {
  positive = h;
  counted = λ i. omega arith;
  used = λ i z. absurd (omega arith);
  used_counted = omega arith;
}

-- The counters have not reached their limit.
pub record HasRoom (h : Hash) : Type 0 where
  pub data_room : (i : ℕ) → length (data_of h i) + 1 < u32_mod
  pub used_room : length h.used_bucket_list + 1 < u32_mod

pub put_bucket-cases :
    (v : ℕ → Bucket) (i : ℕ) (b : Bucket) (j : ℕ)
    → ((i ≡ j) × (put_bucket v i b j ≡ b)) ⊎ ((i ≢ j) × (put_bucket v i b j ≡ v j))
put_bucket-cases v i b j = elim (Bool-cases (i == j)) [
  | inl h ↦ inl (ground arith, ap (λ t. if t then b else v j) h)
  | inr h ↦ inr (ground arith, ap (λ t. if t then b else v j) h)
]

length-appended :
    (b : Bool) (i n : ℕ) (u : List ℕ)
    → n ≡ length u
    → length u + 1 < u32_mod
    → (if b then add32 n 1 else n) ≡ length (if b then u ++ i ∷ [] else u)
length-appended true i n u e h = omega (arith, length-append u (i ∷ []))
length-appended false i n u e h = e

appended-keeps :
    (b : Bool) (i j : ℕ) (u : List ℕ) → Memᴰ j u → Memᴰ j (if b then u ++ i ∷ [] else u)
appended-keeps true i j u m = append_left (i ∷ []) m
appended-keeps false i j u m = m

appended-has :
    (b : Bool) (i j : ℕ) (u : List ℕ)
    → j ≡ i
    → (b ≡ false → Memᴰ j u)
    → Memᴰ j (if b then u ++ i ∷ [] else u)
appended-has true i j u e h = append_right u (head e)
appended-has false i j u e h = h refl

-- An insertion keeps the table in order.
pub insert-IsHash :
    (h : Hash) (key : List ℕ) (name : ℕ) → HasRoom h → IsHash h → IsHash (insert h key name)
unfolding insert
insert-IsHash h key name r k =
    let i = key_index_of h key in
    let first = (h.buckets i).data_list_num == 0 in
    let own : Head = record { name = name; key = key; key_index = i } in
    let b : Bucket = record {
      data_list = data_of h i ++ own ∷ [];
      data_list_num = add32 (h.buckets i).data_list_num 1;
    } in
    let count : add32 (h.buckets i).data_list_num 1 ≡ length (data_of h i ++ own ∷ []) =
      omega (arith, k.counted i, r.data_room i, length-append (data_of h i) (own ∷ [])) in
    record {
      positive = k.positive;
      counted = λ j. elim (put_bucket-cases h.buckets i b j) [
        | inl (e, set) ↦
            ap (λ (b : Bucket). b.data_list_num) set
            ∙ count
            ∙ ap (λ (b : Bucket). length b.data_list) (sym set)
        | inr (n, other) ↦
            ap (λ (b : Bucket). b.data_list_num) other
            ∙ k.counted j
            ∙ ap (λ (b : Bucket). length b.data_list) (sym other)
      ];
      used = λ j z. elim (put_bucket-cases h.buckets i b j) [
        | inl (e, set) ↦ appended-has first i j h.used_bucket_list (sym e) (λ some_data.
            subst (λ j. Memᴰ j h.used_bucket_list) e
              (k.used i (ground (arith, k.counted i, some_data))))
        | inr (n, other) ↦
            appended-keeps first i j h.used_bucket_list
              (k.used j (subst (λ (b : Bucket). 0 < length b.data_list) other z))
      ];
      used_counted =
          length-appended first i h.used_bucket_list_num h.used_bucket_list k.used_counted
            r.used_room;
    }

cleared-stays :
    (u : List ℕ) (v : ℕ → Bucket) (i : ℕ) → v i ≡ no_data → clear_buckets u v i ≡ no_data
unfolding clear_buckets
cleared-stays [] v i e = e
cleared-stays (a ∷ u) v i e =
    cleared-stays u (put_bucket v a no_data) i
      (elim (put_bucket-cases v a no_data i) [ inl (h, set) ↦ set | inr (n, other) ↦ other ∙ e ])

clear_buckets-none :
    (u : List ℕ) (v : ℕ → Bucket) (i : ℕ) → Memᴰ i u → clear_buckets u v i ≡ no_data
unfolding clear_buckets
clear_buckets-none [] v i m = absurd (not-nil m)
clear_buckets-none (a ∷ u) v i (head e) =
    cleared-stays u (put_bucket v a no_data) i (elim (put_bucket-cases v a no_data i) [
      | inl (h, set) ↦ set
      | inr (n, other) ↦ absurd (n (sym e))
    ])
clear_buckets-none (a ∷ u) v i (tail m) = clear_buckets-none u (put_bucket v a no_data) i m

no_data-only :
    (hs : List Head) (n : ℕ)
    → n ≡ length hs
    → length hs ≤ 0
    → record { data_list = hs; data_list_num = n } ≡ no_data
no_data-only [] n e h = ap (λ n. record { data_list = []; data_list_num = n }) e
no_data-only (x ∷ hs) n e h = absurd (omega arith)

clear_buckets-all :
    (h : Hash) (i : ℕ) → IsHash h → clear_buckets h.used_bucket_list h.buckets i ≡ no_data
clear_buckets-all h i k = elim (lt_or_le 0 (length (data_of h i))) [
  | inl some_data ↦ clear_buckets-none h.used_bucket_list h.buckets i (k.used i some_data)
  | inr nothing ↦
      cleared-stays h.used_bucket_list h.buckets i
        (no_data-only (data_of h i) (h.buckets i).data_list_num (k.counted i) nothing)
]

-- `tlibc_hash_clear` leaves the table as `tlibc_hash_init` makes it, though it only visits the
-- buckets that are used.
pub clear-init : (h : Hash) → IsHash h → clear h ≡ init h.size
unfolding clear init
clear-init h k =
    ap (λ v. record { size = h.size; buckets = v; used_bucket_list = []; used_bucket_list_num = 0 })
      (fun_ext (λ i.
        ap (λ u. clear_buckets u h.buckets i)
          (ap (λ n. take n h.used_bucket_list) k.used_counted ∙ take-length h.used_bucket_list)
        ∙ clear_buckets-all h i k))
