-- ===== src/Prelude/Subsequence.antt =====
-- Lists that come from others by leaving items out.
use mathlib.Core.Path.{◌≡◌, refl}
use mathlib.Core.List.{List, [], ◌∷◌, ◌++◌}

pub data IsSubsequence {A : Type 0} : List A → List A → Type 0 where
  nil : IsSubsequence [] []
  keep : {a : A} {xs ys : List A} → IsSubsequence xs ys → IsSubsequence (a ∷ xs) (a ∷ ys)
  skip : {a : A} {xs ys : List A} → IsSubsequence xs ys → IsSubsequence xs (a ∷ ys)

module _ {A : Type 0} where
  pub IsSubsequence-refl : (xs : List A) → IsSubsequence xs xs
  IsSubsequence-refl [] = nil
  IsSubsequence-refl (x ∷ xs) = keep (IsSubsequence-refl xs)

  pub IsSubsequence-nil : (xs : List A) → IsSubsequence [] xs
  IsSubsequence-nil [] = nil
  IsSubsequence-nil (x ∷ xs) = skip (IsSubsequence-nil xs)

  pub IsSubsequence-append :
      {xs ys us vs : List A}
      → IsSubsequence xs ys
      → IsSubsequence us vs
      → IsSubsequence (xs ++ us) (ys ++ vs)
  IsSubsequence-append nil h = h
  IsSubsequence-append (keep s) h = keep (IsSubsequence-append s h)
  IsSubsequence-append (skip s) h = skip (IsSubsequence-append s h)

  pub IsSubsequence-trans :
      {ys zs : List A}
      → IsSubsequence ys zs
      → {xs : List A} → IsSubsequence xs ys
      → IsSubsequence xs zs
  IsSubsequence-trans nil s = s
  IsSubsequence-trans (skip t) s = skip (IsSubsequence-trans t s)
  IsSubsequence-trans (keep t) (keep s) = keep (IsSubsequence-trans t s)
  IsSubsequence-trans (keep t) (skip s) = skip (IsSubsequence-trans t s)

  pub IsSubsequence-eq_nil : {xs : List A} → IsSubsequence xs [] → xs ≡ []
  IsSubsequence-eq_nil nil = refl
