-- ===== src/Base/Maps.antt =====
-- A Go `map[string]V` as an association list: a lookup finds the first entry of a key, and a write
-- replaces it.
use Prim.Native.String.{String}
use mathlib.Core.Bool.{Bool}
use mathlib.Core.List.{List, [], ◌∷◌}
use mathlib.Core.Option.{Option, none, some}
use mathlib.Core.Path.{◌≡◌, refl}
use native.Mathlib.Omega.{arith}
use text.Mathlib.Text.{◌==◌}
use text.Mathlib.TextEquality.{eq_iff}
use fusion_bff.Base.Core.{if◌then◌else◌}

abbrev pub Dict : Type 0 → Type 0
Dict V = List (String × V)

module _ {V : Type 0} where
  unfoldable pub lookup : String → Dict V → Option V
  lookup key [] = none
  lookup key ((first, value) ∷ rest) = if first == key then some value else lookup key rest

  unfoldable pub insert : String → V → Dict V → Dict V
  insert key new [] = (key, new) ∷ []
  insert key new ((first, value) ∷ rest) =
      if first == key then (key, new) ∷ rest else (first, value) ∷ insert key new rest

  -- `delete(m, k)`
  unfoldable pub delete : String → Dict V → Dict V
  delete k [] = []
  delete k ((j, w) ∷ m) = if j == k then delete k m else (j, w) ∷ delete k m

  -- Deletes, in the course of a `range` over the map, the entries that pass the test.
  unfoldable pub delete_if : (V → Bool) → Dict V → Dict V
  delete_if p [] = []
  delete_if p ((j, w) ∷ m) = if p w then delete_if p m else (j, w) ∷ delete_if p m

  pub lookup-insert :
      (key asked : String) (new : V) (dict : Dict V)
      → lookup asked (insert key new dict) ≡ (if key == asked then some new else lookup asked dict)
  unfolding insert lookup
  lookup-insert key asked new [] = refl
  lookup-insert key asked new ((first, value) ∷ rest) =
      let later = lookup-insert key asked new rest in
      ground (arith, later, eq_iff first asked, eq_iff first key, eq_iff key asked)

  pub lookup-delete :
      (k j : String) (m : Dict V) → lookup j (delete k m) ≡ (if k == j then none else lookup j m)
  unfolding lookup delete
  lookup-delete k j [] = ground arith
  lookup-delete k j ((i, w) ∷ m) =
      ground (arith, eq_iff k j, eq_iff i k, eq_iff i j, lookup-delete k j m)

  -- Every key stands in the map once.
  abbrev pub IsKeyed : Dict V → Type 0
  IsKeyed [] = Unit
  IsKeyed ((j, _) ∷ m) = (lookup j m ≡ none) × IsKeyed m

  pub insert-IsKeyed : (k : String) (v : V) (m : Dict V) → IsKeyed m → IsKeyed (insert k v m)
  unfolding insert lookup
  insert-IsKeyed k v [] d = (refl, tt)
  insert-IsKeyed k v ((j, w) ∷ m) d =
      ground (arith, eq_iff j k, eq_iff k j, lookup-insert k j v m, insert-IsKeyed k v m)

  pub delete-IsKeyed : (k : String) (m : Dict V) → IsKeyed m → IsKeyed (delete k m)
  unfolding delete
  delete-IsKeyed k [] d = tt
  delete-IsKeyed k ((j, w) ∷ m) d = ground (arith, lookup-delete k j m, delete-IsKeyed k m)

  lookup-delete_if-none :
      (p : V → Bool) (j : String) (m : Dict V) → lookup j m ≡ none → lookup j (delete_if p m) ≡ none
  unfolding lookup delete_if
  lookup-delete_if-none p j [] h = refl
  lookup-delete_if-none p j ((i, w) ∷ m) h = ground (arith, lookup-delete_if-none p j m)

  pub delete_if-IsKeyed : (p : V → Bool) (m : Dict V) → IsKeyed m → IsKeyed (delete_if p m)
  unfolding delete_if
  delete_if-IsKeyed p [] d = tt
  delete_if-IsKeyed p ((j, w) ∷ m) d =
      ground (arith, lookup-delete_if-none p j m, delete_if-IsKeyed p m)

  -- The value, unless it passes the test.
  abbrev pub unless : (V → Bool) → Option V → Option V
  unless p none = none
  unless p (some v) = if p v then none else some v

  pub lookup-delete_if :
      (p : V → Bool) (j : String) (m : Dict V)
      → IsKeyed m
      → lookup j (delete_if p m) ≡ unless p (lookup j m)
  unfolding lookup delete_if
  lookup-delete_if p j [] d = refl
  lookup-delete_if p j ((i, w) ∷ m) d =
      ground (arith, eq_iff i j, lookup-delete_if-none p i m, lookup-delete_if p j m)
