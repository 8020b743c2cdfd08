-- ===== src/Tests/HashTests.antt =====
-- The hash table with a few keys.
use mathlib.Core.List.Memᴰ.{head, cases_cons, not-nil}
use tsf4g.Prelude.{
  ℕ, ◌+◌, ◌<◌, ◌≡◌, refl, sym, subst, inl, inr, List, [], ◌∷◌, ◌++◌, some, arith, length, u32_mod,
}
use tsf4g.Hash.{Head, Hash, init, insert, hash_from, same_key, find, remove, unlink, clear}
use tsf4g.Hash.Table.{IsHash, HasRoom, init-IsHash, insert-IsHash, clear-init, data_of}
use tsf4g.Hash.Lookup.{contents, matching, head_of, find-contents, insert-contents, data-insert}
use tsf4g.Hash.Removal.{IsHeld, remove-IsHash, remove-contents}

-- "ab"
abbrev ab : List ℕ
ab = 97 ∷ 98 ∷ []

abbrev one : Hash
one = insert (init 3) ab 7

abbrev ab_head : Head
ab_head = record { name = 7; key = ab; key_index = 0 }

own-ab_head : head_of (init 3) ab 7 ≡ ab_head
unfolding init hash_from
own-ab_head = refl

init-HasRoom : HasRoom (init 3)
unfolding init
init-HasRoom = record { data_room = λ i. omega arith; used_room = omega arith }

one-IsHash : IsHash one
one-IsHash = insert-IsHash (init 3) ab 7 init-HasRoom (init-IsHash 3 (omega arith))

one_data : (i : ℕ) → length (data_of one i) + 1 < u32_mod
unfolding init
one_data i = elim (data-insert (init 3) ab 7 i) [
  | inl a ↦ subst (λ l. length l + 1 < u32_mod) (sym a.1) (omega arith)
  | inr a ↦ subst (λ l. length l + 1 < u32_mod) (sym a.1) (omega arith)
]

one-HasRoom : HasRoom one
unfolding init insert hash_from
one-HasRoom = record { data_room = one_data; used_room = omega arith }

one-IsHeld : IsHeld one ab_head
unfolding init insert hash_from
one-IsHeld = record {
  own_index = refl;
  in_range = omega arith;
  held = head refl;
  only = λ x m n. elim (cases_cons m) [ inl e ↦ e | inr r ↦ absurd (not-nil r) ];
}

find-contents_example : find one ab ≡ some ab_head
unfolding init insert hash_from matching same_key
find-contents_example = find-contents one ab one-IsHash

insert-contents_example : contents (insert one ab 9) ab ≡ contents one ab ++ head_of one ab 9 ∷ []
unfolding matching same_key
insert-contents_example = insert-contents one ab ab 9

remove-contents_example : contents (remove one ab_head) ab ≡ []
unfolding init insert hash_from matching same_key unlink
remove-contents_example = remove-contents one ab_head ab one-IsHeld

remove-IsHash_example : IsHash (remove one ab_head)
remove-IsHash_example = remove-IsHash one ab_head one-HasRoom one-IsHash one-IsHeld

clear-init_example : clear one ≡ init 3
unfolding insert init
clear-init_example = clear-init one one-IsHash
