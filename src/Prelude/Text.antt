-- ===== src/Prelude/Text.antt =====
-- Walks over texts, character by character: the prefixes, suffixes and white space of Go's strings.
-- The fixed texts that the program looks for are ASCII, so counting characters or bytes is the same.
use Prim.Native.Char.{Char, code}
use Prim.Native.String.{String, [], ◌∷◌, ◌++◌}
use Prim.Native.Nat.{ℕ}
use mathlib.Core.Path.{◌≡◌, refl, sym}
use mathlib.Core.List.{List}
use mathlib.Core.Option.{Option, none, some}
use mathlib.Core.Bool.{Bool, true, false, ◌&&◌, ◌||◌}
use native.Mathlib.Omega.{arith}
use text.Mathlib.Text.{◌==◌}
use text.Mathlib.TextEquality.{codes_equal}
use text.Mathlib.TextPositions.{eq_refl}
use text.Mathlib.TextLemmas.{cons-append, nil-append}
use helvilette.Prelude.Tests.{is_char, leb, if◌then◌else◌}

-- `strings.HasPrefix(s, prefix)`
unfoldable pub has_prefix : String → String → Bool
has_prefix s [] = true
has_prefix [] (d ∷ t) = false
has_prefix (c ∷ s) (d ∷ t) = is_char (code d) c && has_prefix s t

-- `strings.HasSuffix(s, suffix)`
unfoldable pub has_suffix : String → String → Bool
has_suffix [] t = [] == t
has_suffix (c ∷ s) t = (c ∷ s) == t || has_suffix s t

-- The text without the "/" that it ends with, if it does.
unfoldable pub trim_slash : String → String
trim_slash [] = []
trim_slash (c ∷ []) = if is_char b'/' c then [] else c ∷ []
trim_slash (c ∷ d ∷ s) = c ∷ trim_slash (d ∷ s)

abbrev cons_first : Char → List String → List String
cons_first c List.[] = List.◌∷◌ (c ∷ []) List.[]
cons_first c (List.◌∷◌ part parts) = List.◌∷◌ (c ∷ part) parts

-- `strings.Split(s, sep)` at a separator of one character.
unfoldable pub split : ℕ → String → List String
split sep [] = List.◌∷◌ [] List.[]
split sep (c ∷ s) =
    let rest = split sep s in if is_char sep c then List.◌∷◌ [] rest else cons_first c rest

abbrev cons_before : Char → Option (String × String) → Option (String × String)
cons_before c none = none
cons_before c (some (before, after)) = some (c ∷ before, after)

-- `strings.SplitN(s, sep, 2)`: the parts before and after the first separator, `none` without one.
unfoldable pub cut : ℕ → String → Option (String × String)
cut sep [] = none
cut sep (c ∷ s) = let rest = cut sep s in if is_char sep c then some ([], s) else cons_before c rest

abbrev within : ℕ → ℕ → Char → Bool
within lo hi c = leb lo (code c) && leb (code c) hi

-- `unicode.IsSpace`
abbrev pub is_space : Char → Bool
is_space c =
    within 9 13 c
    || is_char 0x20 c
    || is_char 0x85 c
    || is_char 0xa0 c
    || is_char 0x1680 c
    || within 0x2000 0x200a c
    || within 0x2028 0x2029 c
    || is_char 0x202f c
    || is_char 0x205f c
    || is_char 0x3000 c

trim_left : String → String
trim_left [] = []
trim_left (c ∷ s) = let rest = trim_left s in if is_space c then rest else c ∷ s

-- The text without the white space at its end.
trim_right : String → String
trim_right [] = []
trim_right (c ∷ s) = let rest = trim_right s in if is_space c && rest == "" then [] else c ∷ rest

-- `strings.TrimSpace`
unfoldable pub trim_space : String → String
unfolding trim_left trim_right
trim_space s = trim_right (trim_left s)

pub has_suffix-append : (s t : String) → has_suffix (s ++ t) t ≡ true
unfolding has_suffix
has_suffix-append [] [] = refl
has_suffix-append [] (d ∷ t) = rw nil-append (ground (arith, eq_refl (d ∷ t)))
has_suffix-append (c ∷ s) t = rw cons-append (ground (arith, has_suffix-append s t))

pub has_prefix-append : (s t u : String) → has_prefix s u ≡ true → has_prefix (s ++ t) u ≡ true
unfolding has_prefix
has_prefix-append [] t [] h = refl
has_prefix-append (c ∷ s) t [] h = refl
has_prefix-append [] t (d ∷ u) h = cc
has_prefix-append (c ∷ s) t (d ∷ u) h = rw cons-append (ground (arith, has_prefix-append s t u))

pub has_prefix-append_self : (s t : String) → has_prefix (s ++ t) s ≡ true
unfolding has_prefix
has_prefix-append_self [] t = refl
has_prefix-append_self (c ∷ s) t = rw cons-append (ground (arith, has_prefix-append_self s t))

pub has_prefix-split : (s p : String) → has_prefix s p ≡ true → (rest : String) × (s ≡ p ++ rest)
unfolding has_prefix
has_prefix-split s [] h = (s, sym (nil-append s))
has_prefix-split [] (d ∷ t) h = absurd (cc)
has_prefix-split (c ∷ s) (d ∷ t) h =
    let (rest, same) = has_prefix-split s t (ground arith) in
    let head : c ≡ d = codes_equal c d (ground arith) in
    (rest, cc (head, same, cons-append d t rest))
