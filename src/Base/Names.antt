-- ===== src/Base/Names.antt =====
-- Lists used as sets: membership, `slices.Contains`, and lists built without repetition, as Go code
-- builds them beside a `seen` map. Equality of the elements is an instance.
use Prim.Native.String.{String}
use mathlib.Core.Bool.{Bool, true, false, ◌||◌}
use mathlib.Core.List.{List, [], ◌∷◌, ◌++◌}
use mathlib.Core.Logic.{◌⊎◌, inl, inr, ◌↔◌}
use mathlib.Core.Path.{◌≡◌}
use native.Mathlib.Omega.{arith}
use text.Mathlib.Text.{◌==◌}
use text.Mathlib.TextEquality.{eq_iff}
use fusion_bff.Base.Core.{if◌then◌else◌, Bool-cases}

pub record Eq (A : Type 0) : Type 0 where
  pub beq : A → A → Bool
  pub beq_iff : (a b : A) → (beq a b ≡ true) ↔ (a ≡ b)

instance abbrev pub string_eq : Eq String
string_eq = record { beq = ◌==◌; beq_iff = eq_iff }

infix 50 ◌∈◌
abbrev pub ◌∈◌ : {A : Type 0} → A → List A → Type 0
a ∈ [] = ⊥
a ∈ (x ∷ xs) = (a ≡ x) ⊎ (a ∈ xs)

abbrev pub IsDistinct : {A : Type 0} → List A → Type 0
IsDistinct [] = Unit
IsDistinct (x ∷ xs) = (¬ (x ∈ xs)) × IsDistinct xs

pub mem-append : {A : Type 0} (a : A) (xs ys : List A) → (a ∈ xs ++ ys) ↔ ((a ∈ xs) ⊎ (a ∈ ys))
mem-append a [] ys = (inr, λ h. elim h [ inl e ↦ absurd e | inr m ↦ m ])
mem-append a (x ∷ xs) ys = grind (arith, mem-append a xs ys)

module _ {A : Type 0} ⦃e : Eq A⦄ where
  unfoldable pub contains : List A → A → Bool
  contains [] a = false
  contains (x ∷ xs) a = e.beq x a || contains xs a

  pub contains_iff : (xs : List A) (a : A) → (contains xs a ≡ true) ↔ (a ∈ xs)
  unfolding contains
  contains_iff [] a = (λ h. cc, λ h. absurd h)
  contains_iff (x ∷ xs) a = ground (arith, contains_iff xs a, e.beq_iff x a)

  -- `if _, ok := seen[a]; !ok { seen[a] = struct{}{}; result = append(result, a) }`
  unfoldable pub add_new : List A → A → List A
  add_new xs a = if contains xs a then xs else xs ++ (a ∷ [])

  -- The loop of `add_new` over a second list.
  unfoldable pub add_all : List A → List A → List A
  add_all acc [] = acc
  add_all acc (x ∷ xs) = add_all (add_new acc x) xs

  pub mem-add_new : (xs : List A) (a b : A) → (b ∈ add_new xs a) ↔ ((b ∈ xs) ⊎ (b ≡ a))
  unfolding add_new
  mem-add_new xs a b = elim (Bool-cases (contains xs a)) [
    | inl old ↦
        rw old (inl, λ h. elim h [ inl m ↦ m | inr same ↦ rw same ((contains_iff xs a).0 old) ])
    | inr new ↦ rw new (ground (arith, mem-append b xs (a ∷ [])))
  ]

  pub mem-add_all : (acc xs : List A) (b : A) → (b ∈ add_all acc xs) ↔ ((b ∈ acc) ⊎ (b ∈ xs))
  unfolding add_all
  mem-add_all acc [] b = ground arith
  mem-add_all acc (x ∷ xs) b = ground (arith, mem-add_all (add_new acc x) xs b, mem-add_new acc x b)

  IsDistinct-concat :
      (xs : List A) (a : A) → IsDistinct xs → ¬ (a ∈ xs) → IsDistinct (xs ++ (a ∷ []))
  IsDistinct-concat [] a d n = (λ h. h, tt)
  IsDistinct-concat (x ∷ xs) a d n =
      (λ m. ground (arith, mem-append x xs (a ∷ [])), IsDistinct-concat xs a d.1 (λ m. n (inr m)))

  pub add_new-IsDistinct : (xs : List A) (a : A) → IsDistinct xs → IsDistinct (add_new xs a)
  unfolding add_new
  add_new-IsDistinct xs a d = elim (Bool-cases (contains xs a)) [
    | inl old ↦ rw old d
    | inr new ↦ rw new (IsDistinct-concat xs a d (λ m. ground (arith, contains_iff xs a)))
  ]

  pub add_all-IsDistinct : (acc xs : List A) → IsDistinct acc → IsDistinct (add_all acc xs)
  unfolding add_all
  add_all-IsDistinct acc [] d = d
  add_all-IsDistinct acc (x ∷ xs) d =
      add_all-IsDistinct (add_new acc x) xs (add_new-IsDistinct acc x d)
