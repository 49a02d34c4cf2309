-- ===== src/Rbac/Route/Segments.antt =====
-- Route patterns as lists of segments, and when a path fits one: an account of matching by
-- recursion on pattern and path together, with no positions.
use fusion_bff.Base.{
  String, Bool, true, false, none, some, List, [], ◌∷◌, ◌==◌, ◌≡◌, if◌then◌else◌, cut_last,
  has_prefix,
}

pub data Segment : Type 0 where
  any : Segment
  prefixed literal : String → Segment

-- The meaning of one segment of a pattern.
unfoldable pub segment_of : String → Segment
segment_of seg =
    if seg == "*"
    then any
    else elim (cut_last b'*' seg) [ some prefix ↦ prefixed prefix | none ↦ literal seg ]

-- A literal stands for itself, a wildcard for one part, a last wildcard for one part or more, and
-- a prefix for all parts from one that begins so.
abbrev pub Fits : List Segment → List String → Type 0
Fits [] [] = Unit
Fits [] (_ ∷ _) = ⊥
Fits (_ ∷ _) [] = ⊥
Fits (any ∷ []) (_ ∷ _) = Unit
Fits (any ∷ seg ∷ more) (_ ∷ parts) = Fits (seg ∷ more) parts
Fits (prefixed prefix ∷ _) (part ∷ _) = has_prefix part prefix ≡ true
Fits (literal text ∷ more) (part ∷ parts) = (part ≡ text) × Fits more parts

-- The part at the first wildcard, and "" where no wildcard stands before the end or a prefix.
unfoldable pub first_wildcard : List Segment → List String → String
first_wildcard [] parts = ""
first_wildcard (_ ∷ _) [] = ""
first_wildcard (any ∷ _) (part ∷ _) = part
first_wildcard (prefixed _ ∷ _) (_ ∷ _) = ""
first_wildcard (literal _ ∷ more) (_ ∷ parts) = first_wildcard more parts

-- Matching with the variables of the loop, and no positions.
unfoldable pub walk : List Segment → List String → Bool → String → String × Bool
walk [] [] captured first = (first, true)
walk [] (_ ∷ _) captured first = (first, false)
walk (any ∷ []) (part ∷ _) captured first = (if captured then first else part, true)
walk (any ∷ []) [] captured first = (first, false)
walk (any ∷ seg ∷ more) [] captured first = ("", false)
walk (any ∷ seg ∷ more) (part ∷ parts) captured first =
    walk (seg ∷ more) parts true (if captured then first else part)
walk (prefixed prefix ∷ _) [] captured first = ("", false)
walk (prefixed prefix ∷ _) (part ∷ _) captured first =
    if has_prefix part prefix then (first, true) else ("", false)
walk (literal text ∷ more) [] captured first = ("", false)
walk (literal text ∷ more) (part ∷ parts) captured first =
    let rest = walk more parts captured first in if part == text then rest else ("", false)
