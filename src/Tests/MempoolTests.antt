-- ===== src/Tests/MempoolTests.antt =====
-- A pool of two units.
use tsf4g.Prelude.{◌≡◌, refl, [], ◌∷◌, some, true, false, arith}
use tsf4g.Mempool.{Mempool, init, ids_from, alloc, alloc_first, free, ptr_test}
use tsf4g.Mempool.Handles.{
  IsMempool, Steps, stay, step, allocates, takes_other, init-IsMempool, Steps-IsMempool,
  ptr_test-free, ptr_test-Spares,
}

-- The first unit is taken.
abbrev taken : Mempool
taken = alloc_first (init 2) 0 (1 ∷ [])

takes : alloc (init 2) ≡ some (0, taken)
unfolding alloc init ids_from
takes = refl

to_taken : Steps (init 2) taken
unfolding init
to_taken = step stay (allocates (λ e. omega (arith, e)) takes)

Steps-IsMempool_example : IsMempool taken
Steps-IsMempool_example = Steps-IsMempool to_taken (init-IsMempool 2)

taken_test : ptr_test taken 0 0 ≡ true
unfolding ptr_test alloc_first init
taken_test = refl

-- The unit is freed and taken again.
abbrev again : Mempool
again = alloc_first (free taken 0) 0 (1 ∷ [])

takes_again : alloc (free taken 0) ≡ some (0, again)
unfolding alloc free alloc_first init ids_from
takes_again = refl

ptr_test-free_example : ptr_test again 0 0 ≡ false
unfolding free alloc_first init
ptr_test-free_example =
    ptr_test-free 0 0 (Steps-IsMempool to_taken (init-IsMempool 2)) taken_test
      (step stay (allocates (λ e. omega (arith, e)) takes_again))

-- The second unit is taken.
abbrev both : Mempool
both = alloc_first taken 1 []

takes_both : alloc taken ≡ some (1, both)
unfolding alloc alloc_first init ids_from
takes_both = refl

ptr_test-Spares_example : ptr_test both 0 0 ≡ true
unfolding alloc_first init
ptr_test-Spares_example =
    ptr_test-Spares 0 0 (Steps-IsMempool to_taken (init-IsMempool 2)) taken_test
      (takes_other (λ e. omega (arith, e)) takes_both)
