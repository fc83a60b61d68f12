-- ===== src/Prelude/TextOrder.antt =====
-- The order of Go's strings. It is by bytes, which for UTF-8 is the order by code points.
use Prim.Native.Char.{code}
use Prim.Native.String.{String, [], ◌∷◌}
use mathlib.Core.Path.{◌≡◌, refl}
use mathlib.Core.Bool.{Bool, true, false, ◌&&◌, ◌||◌}
use mathlib.Core.Logic.{◌⊎◌, inl, inr}
use native.Mathlib.Omega.{arith}
use text.Mathlib.TextEquality.{codes_equal}
use helvilette.Prelude.Tests.{ltb, is_char}

-- `s < t`
unfoldable pub precedes : String → String → Bool
precedes s [] = false
precedes [] (d ∷ t) = true
precedes (c ∷ s) (d ∷ t) = ltb (code c) (code d) || (is_char (code d) c && precedes s t)

pub precedes_irrefl : (s : String) → precedes s s ≡ false
unfolding precedes
precedes_irrefl [] = refl
precedes_irrefl (c ∷ s) = ground (arith, precedes_irrefl s)

pub precedes_trans :
    (s t u : String) → precedes s t ≡ true → precedes t u ≡ true → precedes s u ≡ true
unfolding precedes
precedes_trans s t [] h k = k
precedes_trans s [] (e ∷ u) h k = absurd (ground arith)
precedes_trans [] (d ∷ t) (e ∷ u) h k = refl
precedes_trans (c ∷ s) (d ∷ t) (e ∷ u) h k = ground (arith, precedes_trans s t u)

pub precedes_total : (s t : String) → (s ≡ t) ⊎ (precedes s t ≡ true) ⊎ (precedes t s ≡ true)
unfolding precedes
precedes_total [] [] = inl refl
precedes_total [] (d ∷ t) = inr (inl refl)
precedes_total (c ∷ s) [] = inr (inr refl)
precedes_total (c ∷ s) (d ∷ t) = ground (arith, precedes_total s t, codes_equal c d)
