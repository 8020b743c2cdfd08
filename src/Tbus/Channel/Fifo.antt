-- ===== src/Tbus/Channel/Fifo.antt =====
-- Any run of a channel: first in, first out, nothing lost and nothing twice.
use tsf4g.Prelude.{
  ℕ, ◌+◌, ◌*◌, ◌<◌, ◌≡◌, refl, sym, ◌∙◌, ap, inl, List, [], ◌∷◌, ◌++◌, append-nil, append_assoc,
  none, arith, Memory, u32_mod,
}
use tsf4g.Tbus.{init, header_size}
use tsf4g.Tbus.Position.{IsBounded, ahead}
use tsf4g.Tbus.Channel.{
  Channel, Label, silent, sent, taken, Run, here, next, Holds, Moves, stays, enters, leaves,
}
use tsf4g.Tbus.Channel.Steps.{Step-Holds}

-- The channel that `tbus_init` leaves.
abbrev pub fresh : Memory → ℕ → ℕ → Channel
fresh buff size number = record { bus = init buff size number; grant = none; lease = none }

abbrev pub sents : List Label → List (List ℕ)
sents [] = []
sents (silent ∷ ls) = sents ls
sents (sent p ∷ ls) = p ∷ sents ls
sents (taken ps ∷ ls) = sents ls

abbrev pub takens : List Label → List (List ℕ)
takens [] = []
takens (silent ∷ ls) = takens ls
takens (sent p ∷ ls) = takens ls
takens (taken ps ∷ ls) = ps ++ takens ls

sents-append : (ls ks : List Label) → sents (ls ++ ks) ≡ sents ls ++ sents ks
sents-append [] ks = refl
sents-append (silent ∷ ls) ks = sents-append ls ks
sents-append (sent p ∷ ls) ks = ap (λ ps. p ∷ ps) (sents-append ls ks)
sents-append (taken ps ∷ ls) ks = sents-append ls ks

takens-append : (ls ks : List Label) → takens (ls ++ ks) ≡ takens ls ++ takens ks
takens-append [] ks = refl
takens-append (silent ∷ ls) ks = takens-append ls ks
takens-append (sent p ∷ ls) ks = takens-append ls ks
takens-append (taken ps ∷ ls) ks =
    ap (λ qs. ps ++ qs) (takens-append ls ks) ∙ sym (append_assoc ps (takens ls) (takens ks))

init-IsBounded :
    (buff : Memory) (size number : ℕ)
    → size + header_size < u32_mod
    → (size + header_size) * number < u32_mod
    → IsBounded (init buff size number)
unfolding init
init-IsBounded buff size number h k = record {
  head_in = omega arith;
  tail_in = omega arith;
  packet_header = omega arith;
  small = omega arith;
}

-- `tbus_init` leaves an empty channel, if the sizes fit their 32 bits.
pub fresh-Holds :
    (buff : Memory) (size number : ℕ)
    → size + header_size < u32_mod
    → (size + header_size) * number < u32_mod
    → Holds (fresh buff size number) []
unfolding init
fresh-Holds buff size number h k = record {
  bounded = init-IsBounded buff size number h k;
  queue = ahead (omega arith) (inl (omega arith)) refl;
  granted = tt;
  leased = tt;
}

Moves-sents :
    (ls : List Label) (l : Label) (ps qs : List (List ℕ))
    → sents ls ≡ takens ls ++ ps
    → Moves ps l qs
    → sents (ls ++ l ∷ []) ≡ takens (ls ++ l ∷ []) ++ qs
Moves-sents ls silent ps ps' e stays = rw (sents-append, takens-append, append-nil, append-nil) e
Moves-sents ls (sent p) ps ps' e enters =
    simp (sents-append, takens-append, append-nil, e, append_assoc)
Moves-sents ls (taken ts) ps qs e (leaves split) =
    simp (sents-append, takens-append, append-nil, e, split, append_assoc)

-- Along any run the packets sent are those taken, in order, and then those that the channel holds.
pub Run-fifo :
    (buff : Memory) (size number : ℕ) {ls : List Label} {c : Channel}
    → size + header_size < u32_mod
    → (size + header_size) * number < u32_mod
    → Run (fresh buff size number) ls c
    → (ps : List (List ℕ)) × Holds c ps × (sents ls ≡ takens ls ++ ps)
Run-fifo buff size number h k here = ([], fresh-Holds buff size number h k, refl)
Run-fifo buff size number h k (next {ls} {l} r s) =
    let (ps, held, e) = Run-fifo buff size number h k r in
    let (qs, m, held') = Step-Holds ps s held in (qs, held', Moves-sents ls l ps qs e m)
