-- ===== src/Tbus/Chain.antt =====
-- What it is for a stretch of a tbus to hold packets, and for a memory write to leave it alone.
use tsf4g.Prelude.{
  ℕ, ◌+◌, ◌≤◌, ◌≡◌, sym, ◌∙◌, subst, List, [], ◌∷◌, ◌++◌, arith, Memory, slice, Agree, length,
  read_u32-Agree, slice-Agree,
}
use tsf4g.Tbus.{cmd_package, header_size, header_cmd, header_len}

-- The bytes from `a` up to `b` are exactly the packets, each behind its header.
abbrev pub Chain : Memory → ℕ → ℕ → List (List ℕ) → Type 0
Chain m a b [] = a ≡ b
Chain m a b (p ∷ ps) =
    (header_cmd m a ≡ cmd_package)
    × (header_len m a ≡ length p)
    × (slice m (a + header_size) (length p) ≡ p)
    × Chain m (a + (header_size + length p)) b ps

pub Chain-le : (m : Memory) (a b : ℕ) (ps : List (List ℕ)) → Chain m a b ps → a ≤ b
Chain-le m a b [] c = omega arith
Chain-le m a b (p ∷ ps) c = omega (arith, Chain-le m (a + (header_size + length p)) b ps c.3)

pub Chain-append :
    (m : Memory) (a b c : ℕ) (ps qs : List (List ℕ))
    → Chain m a b ps
    → Chain m b c qs
    → Chain m a c (ps ++ qs)
Chain-append m a b c [] qs h k = subst (λ x. Chain m x c qs) (sym h) k
Chain-append m a b c (p ∷ ps) qs h k =
    (h.0, h.1, h.2, Chain-append m (a + (header_size + length p)) b c ps qs h.3 k)

-- A chain reads nothing outside its bounds.
pub Chain-Agree :
    {lo hi : ℕ} {m m' : Memory} (g : Agree lo hi m m') (a b : ℕ) (ps : List (List ℕ))
    → lo ≤ a
    → b ≤ hi
    → Chain m a b ps
    → Chain m' a b ps
Chain-Agree g a b [] l r c = c
Chain-Agree {lo} {hi} {m} {m'} g a b (p ∷ ps) l r c =
    let fits = Chain-le m (a + (header_size + length p)) b ps c.3 in
    (
      read_u32-Agree {lo = lo} {m = m} a g l (omega arith) ∙ c.0,
      read_u32-Agree {lo = lo} {m = m} (a + 4) g (omega arith) (omega arith) ∙ c.1,
      slice-Agree {lo = lo} {m = m} (a + header_size) (length p) g (omega arith) (omega arith)
          ∙ c.2,
      Chain-Agree {lo = lo} {m = m} g (a + (header_size + length p)) b ps (omega arith) r c.3,
    )
