-- ===== src/Base/Sort.antt =====
-- `sort.Strings`: the sorted list, and what sorting keeps.
use Prim.Native.String.{String}
use mathlib.Core.Bool.{true, false}
use mathlib.Core.List.{List, [], ◌∷◌}
use mathlib.Core.Logic.{◌⊎◌, inl, inr, ◌↔◌}
use mathlib.Core.Path.{◌≡◌}
use native.Mathlib.Omega.{arith}
use fusion_bff.Base.Core.{if◌then◌else◌, Bool-cases}
use fusion_bff.Base.Names.{◌∈◌, IsDistinct}
use fusion_bff.Base.Order.{str_le, str_le_total}

insert_sorted : String → List String → List String
insert_sorted a [] = a ∷ []
insert_sorted a (x ∷ xs) = if str_le a x then a ∷ x ∷ xs else x ∷ insert_sorted a xs

unfoldable pub sort : List String → List String
unfolding insert_sorted str_le
sort [] = []
sort (x ∷ xs) = insert_sorted x (sort xs)

abbrev IsBelow : String → List String → Type 0
IsBelow a [] = Unit
IsBelow a (x ∷ _) = str_le a x ≡ true

-- Each element is at most the next one.
abbrev pub IsSorted : List String → Type 0
IsSorted [] = Unit
IsSorted (x ∷ xs) = IsBelow x xs × IsSorted xs

insert_sorted-IsBelow :
    (a x : String) (xs : List String)
    → str_le a x ≡ false
    → IsBelow x xs
    → IsBelow x (insert_sorted a xs)
unfolding insert_sorted
insert_sorted-IsBelow a x [] h b = str_le_total a x h
insert_sorted-IsBelow a x (y ∷ ys) h b = ground (arith, str_le_total a x)

insert_sorted-IsSorted :
    (a : String) (xs : List String) → IsSorted xs → IsSorted (insert_sorted a xs)
unfolding insert_sorted
insert_sorted-IsSorted a [] s = (tt, tt)
insert_sorted-IsSorted a (x ∷ xs) s = elim (Bool-cases (str_le a x)) [
  | inl le ↦ rw le (le, s)
  | inr gt ↦ rw gt (insert_sorted-IsBelow a x xs gt s.0, insert_sorted-IsSorted a xs s.1)
]

pub sort-IsSorted : (xs : List String) → IsSorted (sort xs)
unfolding sort
sort-IsSorted [] = tt
sort-IsSorted (x ∷ xs) = insert_sorted-IsSorted x (sort xs) (sort-IsSorted xs)

mem-insert_sorted :
    (a b : String) (xs : List String) → (b ∈ insert_sorted a xs) ↔ ((b ≡ a) ⊎ (b ∈ xs))
unfolding insert_sorted
mem-insert_sorted a b [] = ground arith
mem-insert_sorted a b (x ∷ xs) = ground (arith, mem-insert_sorted a b xs)

pub mem-sort : (b : String) (xs : List String) → (b ∈ sort xs) ↔ (b ∈ xs)
unfolding sort
mem-sort b [] = (λ h. h, λ h. h)
mem-sort b (x ∷ xs) = ground (arith, mem-sort b xs, mem-insert_sorted x b (sort xs))

insert_sorted-IsDistinct :
    (a : String) (xs : List String) → ¬ (a ∈ xs) → IsDistinct xs → IsDistinct (insert_sorted a xs)
unfolding insert_sorted
insert_sorted-IsDistinct a [] n d = (n, d)
insert_sorted-IsDistinct a (x ∷ xs) n d = elim (Bool-cases (str_le a x)) [
  | inl le ↦ rw le (n, d)
  | inr gt ↦ rw gt (
    λ m. ground (arith, mem-insert_sorted a x xs),
    insert_sorted-IsDistinct a xs (λ m. n (inr m)) d.1,
  )
]

pub sort-IsDistinct : (xs : List String) → IsDistinct xs → IsDistinct (sort xs)
unfolding sort
sort-IsDistinct [] d = tt
sort-IsDistinct (x ∷ xs) d =
    insert_sorted-IsDistinct x (sort xs) (λ m. d.0 ((mem-sort x xs).0 m)) (sort-IsDistinct xs d.1)
