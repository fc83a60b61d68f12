-- ===== src/Prelude/Sort.antt =====
-- `sort.Strings` on distinct texts: the result is sorted, has the same items, and is the only such list.
use Prim.Native.String.{String}
use mathlib.Core.Path.{◌≡◌, refl, sym, ap, ap₂, ◌∙◌, subst}
use mathlib.Core.Bool.{true, false}
use mathlib.Core.Logic.{◌⊎◌, inl, inr, ◌↔◌, ◌≢◌}
use mathlib.Core.List.{List, [], ◌∷◌}
use native.Mathlib.Omega.{arith}
use helvilette.Prelude.Tests.{if◌then◌else◌, Bool-cases}
use helvilette.Prelude.Lists.{All, In}
use helvilette.Prelude.TextOrder.{precedes, precedes_irrefl, precedes_trans, precedes_total}

insert_sorted : String → List String → List String
insert_sorted k [] = k ∷ []
insert_sorted k (x ∷ xs) =
    let rest = insert_sorted k xs in if precedes x k then x ∷ rest else k ∷ x ∷ xs

unfoldable pub sort_strings : List String → List String
unfolding insert_sorted precedes
sort_strings [] = []
sort_strings (x ∷ xs) = insert_sorted x (sort_strings xs)

abbrev pub IsBelow : String → List String → Type 0
IsBelow x xs = All (λ y. precedes x y ≡ true) xs

abbrev pub IsSorted : List String → Type 0
IsSorted [] = Unit
IsSorted (x ∷ xs) = IsBelow x xs × IsSorted xs

abbrev pub IsDistinct : List String → Type 0
IsDistinct [] = Unit
IsDistinct (x ∷ xs) = (¬ In x xs) × IsDistinct xs

IsBelow-trans :
    (k x : String) (xs : List String) → precedes k x ≡ true → IsBelow x xs → IsBelow k xs
IsBelow-trans k x [] h _ = tt
IsBelow-trans k x (y ∷ xs) h (now, rest) = (precedes_trans k x y h now, IsBelow-trans k x xs h rest)

IsBelow-In : (x y : String) (xs : List String) → IsBelow x xs → In y xs → precedes x y ≡ true
IsBelow-In x y [] _ m = absurd m
IsBelow-In x y (z ∷ xs) (now, rest) (inl same) = ap (λ t. precedes x t) (sym same) ∙ now
IsBelow-In x y (z ∷ xs) (now, rest) (inr m) = IsBelow-In x y xs rest m

In-insert : (a k : String) (xs : List String) → In a (insert_sorted k xs) ↔ ((k ≡ a) ⊎ In a xs)
unfolding insert_sorted
In-insert a k [] = (λ h. h, λ h. h)
In-insert a k (x ∷ xs) = ground (arith, In-insert a k xs)

IsBelow-insert :
    (x k : String) (xs : List String)
    → precedes x k ≡ true
    → IsBelow x xs
    → IsBelow x (insert_sorted k xs)
unfolding insert_sorted
IsBelow-insert x k [] h _ = (h, tt)
IsBelow-insert x k (y ∷ xs) h (now, rest) = ground (arith, IsBelow-insert x k xs h rest)

after : (x k : String) → x ≢ k → precedes x k ≡ false → precedes k x ≡ true
after x k ne no_ = ground (arith, precedes_total x k)

insert-IsSorted :
    (k : String) (xs : List String) → ¬ In k xs → IsSorted xs → IsSorted (insert_sorted k xs)
unfolding insert_sorted
insert-IsSorted k [] new _ = (tt, tt)
insert-IsSorted k (x ∷ xs) new (below, sorted) = elim (Bool-cases (precedes x k)) [
  | inl earlier ↦
      rw earlier
        (IsBelow-insert x k xs earlier below, insert-IsSorted k xs (λ m. new (inr m)) sorted)
  | inr later ↦
      let first = after x k (λ e. new (inl e)) later in
      rw later ((first, IsBelow-trans k x xs first below), (below, sorted))
]

pub In-sort_strings : (a : String) (xs : List String) → In a (sort_strings xs) ↔ In a xs
unfolding sort_strings
In-sort_strings a [] = (λ h. h, λ h. h)
In-sort_strings a (x ∷ xs) = ground (arith, In-sort_strings a xs, In-insert a x (sort_strings xs))

pub sort_strings-IsSorted : (xs : List String) → IsDistinct xs → IsSorted (sort_strings xs)
unfolding sort_strings
sort_strings-IsSorted [] _ = tt
sort_strings-IsSorted (x ∷ xs) (new, distinct) =
    insert-IsSorted x (sort_strings xs) (λ m. new ((In-sort_strings x xs).0 m))
      (sort_strings-IsSorted xs distinct)

IsBelow-ne : (x : String) (xs : List String) → IsBelow x xs → ¬ In x xs
IsBelow-ne x xs below m = cc (IsBelow-In x x xs below m, precedes_irrefl x)

same_head :
    (x y : String) (xs ys : List String)
    → IsBelow x xs
    → IsBelow y ys
    → ((a : String) → In a (x ∷ xs) ↔ In a (y ∷ ys))
    → x ≡ y
same_head x y xs ys bx by same = elim ((same x).0 (inl refl)) [
  | inl e ↦ sym e
  | inr lower ↦ elim ((same y).1 (inl refl)) [
    | inl e ↦ e
    | inr upper ↦
        let down = IsBelow-In y x ys by lower in
        let up = IsBelow-In x y xs bx upper in
        absurd (cc (precedes_trans x y x up down, precedes_irrefl x))
  ]
]

-- Equal heads that are below the rest can be left out on both sides.
tail_In :
    (x y : String) (xs ys : List String)
    → x ≡ y
    → IsBelow x xs
    → ((a : String) → In a (x ∷ xs) → In a (y ∷ ys))
    → (a : String) → In a xs
    → In a ys
tail_In x y xs ys head bx sub a m = elim (sub a (inr m)) [
  | inl e ↦ absurd (IsBelow-ne x xs bx (subst (λ t. In t xs) (sym e ∙ sym head) m))
  | inr there ↦ there
]

-- Two sorted lists with the same items.
pub IsSorted-unique :
    (xs ys : List String) → IsSorted xs → IsSorted ys → ((a : String) → In a xs ↔ In a ys) → xs ≡ ys
IsSorted-unique [] [] _ _ same = refl
IsSorted-unique [] (y ∷ ys) _ _ same = absurd ((same y).1 (inl refl))
IsSorted-unique (x ∷ xs) [] _ _ same = absurd ((same x).0 (inl refl))
IsSorted-unique (x ∷ xs) (y ∷ ys) (bx, sx) (by, sy) same =
    let head = same_head x y xs ys bx by same in
    ap₂ (λ a l. a ∷ l) head
      (IsSorted-unique xs ys sx sy λ a. (
        tail_In x y xs ys head bx (λ b. (same b).0) a,
        tail_In y x ys xs (sym head) by (λ b. (same b).1) a,
      ))
