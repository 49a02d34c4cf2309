-- ===== src/Base/Order.antt =====
-- The order of texts by their bytes, as Go compares strings.
use Prim.Native.Char.{code}
use Prim.Native.Nat.{ℕ, Ordering, compare as compare_nat}
use Prim.Native.String.{String, [], ◌∷◌, compare, then as or_else}
use Prim.Native.String.compare as compare_lem
use mathlib.Core.Bool.{Bool, true, false, false≢true}
use mathlib.Core.Path.{◌≡◌, refl, sym, ap, ◌∙◌}
use native.Mathlib.Omega.{arith}

abbrev not_gt : Ordering → Bool
not_gt Ordering.gt = false
not_gt _ = true

unfoldable pub str_le : String → String → Bool
str_le a b = not_gt (compare a b)

-- Of two comparisons in a row, the first that is not equal decides.
then_total :
    (a b : ℕ) (q r : Ordering)
    → (not_gt q ≡ false → not_gt r ≡ true)
    → not_gt (or_else (compare_nat a b) q) ≡ false
    → not_gt (or_else (compare_nat b a) r) ≡ true
then_total a b q r ih h = ground arith

pub str_le_total : (a b : String) → str_le a b ≡ false → str_le b a ≡ true
unfolding str_le
str_le_total [] [] h = h'
  where
    h' : not_gt (compare [] []) ≡ true
    h' = refl
str_le_total [] (d ∷ t) h = absurd (false≢true (sym h ∙ ap not_gt (compare_lem.nil-cons d t)))
str_le_total (c ∷ s) [] h = ap not_gt (compare_lem.nil-cons c s)
str_le_total (c ∷ s) (d ∷ t) h =
    ap not_gt (compare_lem.cons-cons d c t s)
    ∙ then_total (code c) (code d) (compare s t) (compare t s) (str_le_total s t)
        (sym (ap not_gt (compare_lem.cons-cons c d s t)) ∙ h)
