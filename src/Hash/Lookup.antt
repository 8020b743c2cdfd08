-- ===== src/Hash/Lookup.antt =====
-- The hash table as a list of heads for each key: what a search finds.

use tsf4g.Prelude.{
  ℕ, ◌≡◌, ◌≢◌, refl, sym, ◌∙◌, ap, ◌⊎◌, inl, inr, List, [], ◌∷◌, ◌++◌, arith, length, Option, none,
  some, append-nil, ◌%◌, add32, true, Bool-cases, if◌then◌else◌,
}
use tsf4g.Hash.{Head, Bucket, Hash, same_key, key_index_of, hash_key, insert, find, find_from}
use tsf4g.Hash.Table.{data_of, IsHash, put_bucket-cases}

-- The heads with a key, in their order.
unfoldable pub matching : List ℕ → List Head → List Head
matching key [] = []
matching key (h ∷ hs) = if same_key h.key key then h ∷ matching key hs else matching key hs

-- The heads that the table has for a key.
abbrev pub contents : Hash → List ℕ → List Head
contents h key = matching key (data_of h (key_index_of h key))

abbrev pub first_of : List Head → Option Head
first_of [] = none
first_of (h ∷ hs) = some h

find_from-matching :
    (hs : List Head) (key : List ℕ) → find_from (length hs) hs key ≡ first_of (matching key hs)
unfolding find_from matching
find_from-matching [] key = refl
find_from-matching (h ∷ hs) key = elim (Bool-cases (same_key h.key key)) [
  | inl e ↦ rw e refl
  | inr e ↦ rw e (find_from-matching hs key)
]

-- A search finds the first head with its key, if there is one.
pub find-contents : (h : Hash) (key : List ℕ) → IsHash h → find h key ≡ first_of (contents h key)
unfolding find
find-contents h key k =
    ap (λ n. find_from n (data_of h (key_index_of h key)) key) (k.counted (key_index_of h key))
    ∙ find_from-matching (data_of h (key_index_of h key)) key

pub same_key-eq : (a b : List ℕ) → same_key a b ≡ true → a ≡ b
unfolding same_key
same_key-eq [] [] h = refl
same_key-eq [] (b ∷ w) h = absurd (ground arith)
same_key-eq (a ∷ u) [] h = absurd (ground arith)
same_key-eq (a ∷ u) (b ∷ w) h =
    let e : a ≡ b = ground arith in
    let r = same_key-eq u w (ground arith) in ap (λ x. x ∷ u) e ∙ ap (λ t. b ∷ t) r

matching-append :
    (key : List ℕ) (xs ys : List Head)
    → matching key (xs ++ ys) ≡ matching key xs ++ matching key ys
unfolding matching
matching-append key [] ys = refl
matching-append key (x ∷ xs) ys = elim (Bool-cases (same_key x.key key)) [
  | inl e ↦ rw e (ap (λ t. x ∷ t) (matching-append key xs ys))
  | inr e ↦ rw e (matching-append key xs ys)
]

abbrev pub head_of : Hash → List ℕ → ℕ → Head
head_of h key name = record { name = name; key = key; key_index = key_index_of h key }

pub data-insert :
    (h : Hash) (key : List ℕ) (name : ℕ) (j : ℕ)
    → ((key_index_of h key ≡ j)
        × (data_of (insert h key name) j ≡ data_of h j ++ head_of h key name ∷ []))
      ⊎ ((key_index_of h key ≢ j) × (data_of (insert h key name) j ≡ data_of h j))
unfolding insert
data-insert h key name j =
    let i = key_index_of h key in
    let b : Bucket = record {
      data_list = data_of h i ++ head_of h key name ∷ [];
      data_list_num = add32 (h.buckets i).data_list_num 1;
    } in
    elim (put_bucket-cases h.buckets i b j) [
      | inl (e, set) ↦ inl (
        e,
        ap (λ (b : Bucket). b.data_list) set ∙ ap (λ i. data_of h i ++ head_of h key name ∷ []) e,
      )
      | inr (n, other) ↦ inr (n, ap (λ (b : Bucket). b.data_list) other)
    ]

matching-other :
    (h : Hash) (key key' : List ℕ) (name : ℕ)
    → key_index_of h key ≢ key_index_of h key'
    → matching key' (head_of h key name ∷ []) ≡ []
unfolding matching
matching-other h key key' name n = elim (Bool-cases (same_key key key')) [
  | inl e ↦ absurd (n (ap (key_index_of h) (same_key-eq key key' e)))
  | inr e ↦ rw e refl
]

insert-size : (h : Hash) (key : List ℕ) (name : ℕ) → (insert h key name).size ≡ h.size
unfolding insert
insert-size h key name = refl

-- An insertion adds its head behind those of its key, and leaves those of all other keys, of the
-- same bucket or not.
pub insert-contents :
    (h : Hash) (key key' : List ℕ) (name : ℕ)
    → contents (insert h key name) key' ≡ contents h key' ++ matching key' (head_of h key name ∷ [])
insert-contents h key key' name =
    let j = key_index_of h key' in
    ap (λ s. matching key' (data_of (insert h key name) (hash_key key' % s)))
      (insert-size h key name)
    ∙ elim (data-insert h key name j) [
      | inl (e, set) ↦
          ap (matching key') set ∙ matching-append key' (data_of h j) (head_of h key name ∷ [])
      | inr (n, other) ↦
          ap (matching key') other
          ∙ sym (append-nil (contents h key'))
          ∙ ap (λ t. contents h key' ++ t) (sym (matching-other h key key' name n))
    ]
