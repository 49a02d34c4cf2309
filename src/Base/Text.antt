-- ===== src/Base/Text.antt =====
-- The functions of the package `strings` that the program calls, over the characters of a text.
-- Every separator and cut set of the program is ASCII, so that bytes and characters agree.
use Prim.Native.Char.{Char, code}
use Prim.Native.Nat.{ℕ}
use Prim.Native.String
use Prim.Native.String.{String, [], ◌∷◌}
use mathlib.Core.Bool.{Bool, true, false, ◌&&◌, ◌||◌, not}
use mathlib.Core.List.{List, [], ◌∷◌}
use mathlib.Core.Logic.{◌↔◌, inl, inr}
use mathlib.Core.Path.{◌≡◌, refl, ap}
use native.Mathlib.Omega.{arith}
use mathlib.Core.Option.{Option, none, some}
use fusion_bff.Base.Core.{if◌then◌else◌, eqb, leb, is_some, Bool-cases}

unfoldable pub is_empty : String → Bool
is_empty [] = true
is_empty (_ ∷ _) = false

pub is_empty_iff : (s : String) → (is_empty s ≡ true) ↔ (s ≡ "")
unfolding is_empty
is_empty_iff [] = (λ _. refl, λ _. refl)
is_empty_iff (c ∷ s) = (λ h. cc, λ h. cc)

-- `strings.TrimLeft(s, sep)`
unfoldable pub trim_left : ℕ → String → String
trim_left sep [] = []
trim_left sep (c ∷ s) = if eqb (code c) sep then trim_left sep s else c ∷ s

-- `strings.TrimRight(s, sep)`
unfoldable pub trim_right : ℕ → String → String
unfolding is_empty
trim_right sep [] = []
trim_right sep (c ∷ s) =
    let rest = trim_right sep s in if eqb (code c) sep && is_empty rest then [] else c ∷ rest

-- `strings.Trim(s, sep)`
unfoldable pub trim : ℕ → String → String
unfolding trim_left trim_right
trim sep s = trim_right sep (trim_left sep s)

-- `unicode.IsSpace`, the characters that `strings.TrimSpace` removes.
unfoldable pub is_space : ℕ → Bool
is_space c =
    (leb 9 c && leb c 13)
    || eqb c 0x20
    || eqb c 0x85
    || eqb c 0xa0
    || eqb c 0x1680
    || (leb 0x2000 c && leb c 0x200a)
    || eqb c 0x2028
    || eqb c 0x2029
    || eqb c 0x202f
    || eqb c 0x205f
    || eqb c 0x3000

trim_space_left : String → String
trim_space_left [] = []
trim_space_left (c ∷ s) = if is_space (code c) then trim_space_left s else c ∷ s

trim_space_right : String → String
trim_space_right [] = []
trim_space_right (c ∷ s) =
    let rest = trim_space_right s in if is_space (code c) && is_empty rest then [] else c ∷ rest

-- `strings.TrimSpace(s)`
unfoldable pub trim_space : String → String
unfolding trim_space_left trim_space_right is_empty is_space
trim_space s = trim_space_right (trim_space_left s)

-- Puts a character in front of the first part.
abbrev pub push_front : Char → List String → List String
push_front c [] = (c ∷ []) ∷ []
push_front c (w ∷ ws) = (c ∷ w) ∷ ws

-- `strings.Split(s, sep)`: one part more than `s` has separators.
unfoldable pub split : ℕ → String → List String
split sep [] = [] ∷ []
split sep (c ∷ s) =
    let rest = split sep s in if eqb (code c) sep then [] ∷ rest else push_front c rest

-- `strings.Join(parts, sep)`
unfoldable pub join : String → List String → String
join sep [] = []
join sep (w ∷ []) = w
join sep (w ∷ v ∷ ws) = String.◌++◌ w (String.◌++◌ sep (join sep (v ∷ ws)))

-- What follows the prefix, where `s` has it.
unfoldable pub cut_prefix : String → String → Option String
cut_prefix [] s = some s
cut_prefix (p ∷ ps) [] = none
cut_prefix (p ∷ ps) (c ∷ s) = if eqb (code p) (code c) then cut_prefix ps s else none

-- `strings.HasPrefix(s, prefix)`
unfoldable pub has_prefix : String → String → Bool
unfolding cut_prefix
has_prefix s prefix = is_some (cut_prefix prefix s)

-- `strings.TrimPrefix(s, prefix)`
unfoldable pub trim_prefix : String → String → String
unfolding cut_prefix
trim_prefix s prefix = elim (cut_prefix prefix s) [ none ↦ s | some rest ↦ rest ]

-- `s[:len(s)-1]`, where `s` ends in the character `last`.
unfoldable pub cut_last : ℕ → String → Option String
cut_last last [] = none
cut_last last (c ∷ []) = if eqb (code c) last then some [] else none
cut_last last (c ∷ d ∷ s) = elim (cut_last last (d ∷ s)) [
  | none ↦ none
  | some rest ↦ some (c ∷ rest)
]

-- `strings.Contains(s, sep)`
unfoldable pub has_char : ℕ → String → Bool
has_char sep [] = false
has_char sep (c ∷ s) = eqb (code c) sep || has_char sep s

-- `s[strings.Index(s, sep)+1:]`, and all of `s` where it has no `sep`.
unfoldable pub after_first : ℕ → String → String
unfolding has_char
after_first sep [] = []
after_first sep (c ∷ s) =
    let rest = after_first sep s in
    if eqb (code c) sep then s else if has_char sep s then rest else c ∷ s

-- `s[:strings.LastIndex(s, sep)]`, and all of `s` where it has no `sep`.
unfoldable pub before_last : ℕ → String → String
unfolding has_char
before_last sep [] = []
before_last sep (c ∷ s) =
    if eqb (code c) sep && not (has_char sep s) then [] else c ∷ before_last sep s

-- Two texts with a character between them, `s + "c" + t`.
abbrev pub joined : String → Char → String → String
joined [] sep t = sep ∷ t
joined (c ∷ s) sep t = c ∷ joined s sep t

-- The parts can be told from the whole, where the first has no separator.
pub joined_inj :
    (sep : Char) (s s' t t' : String)
    → has_char (code sep) s ≡ false
    → has_char (code sep) s' ≡ false
    → joined s sep t ≡ joined s' sep t'
    → (s ≡ s') × (t ≡ t')
unfolding has_char
joined_inj sep [] [] t t' h h' e = (refl, cc)
joined_inj sep [] (c ∷ s') t t' h h' e =
    let same : sep ≡ c = cc in let same_code = ap code same in absurd (ground arith)
joined_inj sep (c ∷ s) [] t t' h h' e =
    let same : sep ≡ c = cc in let same_code = ap code same in absurd (ground arith)
joined_inj sep (c ∷ s) (c' ∷ s') t t' h h' e =
    let (same, rest) = joined_inj sep s s' t t' (ground arith) (ground arith) cc in (cc, rest)

has_char-trim_space_left :
    (sep : ℕ) (s : String) → has_char sep s ≡ false → has_char sep (trim_space_left s) ≡ false
unfolding has_char trim_space_left
has_char-trim_space_left sep [] h = refl
has_char-trim_space_left sep (c ∷ s) h = ground (arith, has_char-trim_space_left sep s)

has_char-trim_space_right :
    (sep : ℕ) (s : String) → has_char sep s ≡ false → has_char sep (trim_space_right s) ≡ false
unfolding has_char trim_space_right
has_char-trim_space_right sep [] h = refl
has_char-trim_space_right sep (c ∷ s) h =
    elim (Bool-cases (is_space (code c) && is_empty (trim_space_right s))) [
      | inl kept ↦ rw (kept, has_char) (ground (arith, has_char-trim_space_right sep s))
      | inr gone ↦ rw (gone, has_char) (ground (arith, has_char-trim_space_right sep s))
    ]

pub has_char-trim_space :
    (sep : ℕ) (s : String) → has_char sep s ≡ false → has_char sep (trim_space s) ≡ false
unfolding trim_space
has_char-trim_space sep s h =
    has_char-trim_space_right sep (trim_space_left s) (has_char-trim_space_left sep s h)
