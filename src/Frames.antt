-- ===== src/Frames.antt =====
-- The packets of a client's stream, as tconnd, tconnapi and socketapi read them: two bytes of
-- length, least significant first, and that many bytes.
pub mod Streams
use Prim.Native.Nat.{ℕ, zero, suc, ◌+◌, ◌*◌, ◌/◌, ◌%◌, ◌<◌, ◌≤◌}
use mathlib.Core.Bool.{Bool, ◌&&◌, ◌||◌}
use mathlib.Core.Logic.{◌⊎◌}
use mathlib.Core.List.{List, [], ◌∷◌, ◌++◌}
use tsf4g.Prelude.{length, drop, ltb, leb}

-- `*(uint16_t *)iter`
unfoldable pub word16 : List ℕ → ℕ
word16 [] = 0
word16 (a ∷ []) = 0
word16 (a ∷ b ∷ bs) = a + 256 * b

-- The bytes behind the length.
abbrev pub body : List ℕ → List ℕ
body [] = []
body (a ∷ []) = []
body (a ∷ b ∷ bs) = bs

-- A packet on the wire.
unfoldable pub frame : List ℕ → List ℕ
frame p = length p % 256 ∷ length p / 256 % 256 ∷ p

unfoldable pub stream : List (List ℕ) → List ℕ
stream [] = []
stream (p ∷ ps) = frame p ++ stream ps

-- No whole packet stands at the front.
abbrev pub IsPartial : List ℕ → Type 0
IsPartial bs = (length bs < 2) ⊎ (length (body bs) < word16 bs)

abbrev pub AreBytes : List ℕ → Type 0
AreBytes [] = Unit {0}
AreBytes (b ∷ bs) = (b < 256) × AreBytes bs

-- The length of each packet fits its two bytes.
abbrev pub AreShort : List (List ℕ) → Type 0
AreShort [] = Unit {0}
AreShort (p ∷ ps) = (length p < 65536) × AreShort ps
