-- ===== src/Base/Parts.antt =====
-- Texts that are put together from parts with a separator between them, and split again.
use Prim.Native.Char.{Char, code}
use Prim.Native.Nat.{ℕ}
use Prim.Native.String
use Prim.Native.String.{String, [], ◌∷◌}
use mathlib.Core.Bool.{false}
use mathlib.Core.List.{List, [], ◌∷◌}
use mathlib.Core.Logic.{inl, inr}
use mathlib.Core.Path.{◌≡◌, refl}
use native.Mathlib.Omega.{arith}
use text.Mathlib.TextLemmas.{cons-append, nil-append}
use fusion_bff.Base.Core.{All, Bool-cases, eqb}
use fusion_bff.Base.Text.{split, has_char, push_front}

pub split-free : (sep : ℕ) (s : String) → has_char sep s ≡ false → split sep s ≡ s ∷ []
unfolding split has_char
split-free sep [] h = refl
split-free sep (c ∷ s) h = ground (arith, split-free sep s)

pub split-append :
    (sep : Char) (w t : String)
    → has_char (code sep) w ≡ false
    → split (code sep) (String.◌++◌ w (String.◌++◌ (sep ∷ []) t)) ≡ w ∷ split (code sep) t
unfolding split has_char
split-append sep [] t h = rw (nil-append, cons-append, nil-append) (ground arith)
split-append sep (c ∷ w) t h = rw (cons-append c w _) (ground (arith, split-append sep w t))

-- The text has no character with this code.
abbrev pub IsFreeOf : ℕ → String → Type 0
IsFreeOf sep s = has_char sep s ≡ false

IsFreeOf-push_front :
    (sep : ℕ) (c : Char) (ws : List String)
    → eqb (code c) sep ≡ false
    → All (IsFreeOf sep) ws
    → All (IsFreeOf sep) (push_front c ws)
unfolding has_char
IsFreeOf-push_front sep c [] h a = (ground arith, tt)
IsFreeOf-push_front sep c (w ∷ ws) h a = (ground arith, a.1)

pub split-IsFreeOf : (sep : ℕ) (s : String) → All (IsFreeOf sep) (split sep s)
unfolding split has_char
split-IsFreeOf sep [] = (refl, tt)
split-IsFreeOf sep (c ∷ s) = elim (Bool-cases (eqb (code c) sep)) [
  | inl same ↦ rw same (refl, split-IsFreeOf sep s)
  | inr other ↦ rw other (IsFreeOf-push_front sep c (split sep s) other (split-IsFreeOf sep s))
]
