-- ===== src/Rbac/Route/Matching.antt =====
-- The loop of `matchAndCapture` agrees with the account of matching by segments.
use mathlib.Core.List.{append_assoc}
use fusion_bff.Base.{
  suc, ◌<◌, String, Bool, true, false, none, some, List, [], ◌∷◌, ◌++◌, map, ◌≡◌, refl, ◌↔◌, ◌∙◌,
  ap, sym, arith, if◌then◌else◌, length, get_elem?, eq_iff,
}
use fusion_bff.Rbac.Route.{parts_of, scan, match_and_capture}
use fusion_bff.Rbac.Route.Segments.{
  Segment, any, prefixed, literal, segment_of, Fits, first_wildcard, walk,
}

length-concat :
    (front : List String) (part : String) → length (front ++ (part ∷ [])) ≡ suc (length front)
length-concat [] part = refl
length-concat (x ∷ front) part = ap suc (length-concat front part)

get_elem?-append :
    (front : List String) (part : String) (parts : List String)
    → get_elem? (front ++ (part ∷ parts)) (length front) ≡ some part
get_elem?-append [] part parts = refl
get_elem?-append (x ∷ front) part parts = get_elem?-append front part parts

get_elem?-end : (front : List String) → get_elem? (front ++ []) (length front) ≡ none
get_elem?-end [] = refl
get_elem?-end (x ∷ front) = get_elem?-end front

length-front-lt :
    (front : List String) (part : String) (parts : List String)
    → length front < length (front ++ (part ∷ parts))
length-front-lt [] part parts = omega arith
length-front-lt (x ∷ front) part parts = omega (arith, length-front-lt front part parts)

length-end : (front : List String) → length (front ++ []) ≡ length front
length-end [] = refl
length-end (x ∷ front) = ap suc (length-end front)

-- One step further: the part moves to those that were passed.
step :
    (pp front : List String) (part : String) (parts : List String) (captured : Bool)
    (first : String)
    → scan pp (suc (length front)) (front ++ (part ∷ parts)) captured first
      ≡ scan pp (length (front ++ (part ∷ []))) ((front ++ (part ∷ [])) ++ parts) captured first
step pp front part parts captured first = rw (length-concat front part, append_assoc) refl

scan-walk :
    (pp front parts : List String) (captured : Bool) (first : String)
    → scan pp (length front) (front ++ parts) captured first
      ≡ walk (map segment_of pp) parts captured first
unfolding scan walk segment_of
scan-walk [] front [] captured first = ground (arith, length-end front)
scan-walk [] front (part ∷ parts) captured first = ground (arith, length-front-lt front part parts)
scan-walk (seg ∷ []) front [] captured first = ground (arith, get_elem?-end front, length-end front)
scan-walk (seg ∷ more) front [] captured first = ground (arith, get_elem?-end front)
scan-walk (seg ∷ []) front (part ∷ parts) captured first = ground (
  arith,
  get_elem?-append front part parts,
  length-front-lt front part parts,
  step [] front part parts captured first,
  scan-walk [] (front ++ (part ∷ [])) parts captured first,
)
scan-walk (seg ∷ seg' ∷ more) front (part ∷ parts) captured first =
    let chosen = if captured then first else part in
    let pp = seg' ∷ more in
    ground (
      arith,
      get_elem?-append front part parts,
      step pp front part parts captured first,
      step pp front part parts true chosen,
      scan-walk pp (front ++ (part ∷ [])) parts captured first,
      scan-walk pp (front ++ (part ∷ [])) parts true chosen,
    )

walk_captured :
    (segs : List Segment) (parts : List String) (first : String)
    → Fits segs parts
    → walk segs parts true first ≡ (first, true)
unfolding walk
walk_captured [] [] first h = refl
walk_captured (any ∷ []) (part ∷ parts) first h = refl
walk_captured (any ∷ seg ∷ more) (part ∷ parts) first h = walk_captured (seg ∷ more) parts first h
walk_captured (prefixed prefix ∷ more) (part ∷ parts) first h = rw h refl
walk_captured (literal text ∷ more) (part ∷ parts) first h =
    ground (arith, eq_iff part text, walk_captured more parts first)
walk_captured _ _ first h = absurd h

walk_fresh :
    (segs : List Segment) (parts : List String)
    → Fits segs parts
    → walk segs parts false "" ≡ (first_wildcard segs parts, true)
unfolding walk first_wildcard
walk_fresh [] [] h = refl
walk_fresh (any ∷ []) (part ∷ parts) h = refl
walk_fresh (any ∷ seg ∷ more) (part ∷ parts) h = walk_captured (seg ∷ more) parts part h
walk_fresh (prefixed prefix ∷ more) (part ∷ parts) h = rw h refl
walk_fresh (literal text ∷ more) (part ∷ parts) h =
    ground (arith, eq_iff part text, walk_fresh more parts)
walk_fresh _ _ h = absurd h

walk-Fits :
    (segs : List Segment) (parts : List String) (captured : Bool) (first : String)
    → (walk segs parts captured first).1 ≡ true
    → Fits segs parts
unfolding walk
walk-Fits [] [] captured first h = tt
walk-Fits [] (_ ∷ _) captured first h = cc
walk-Fits (any ∷ []) (part ∷ parts) captured first h = tt
walk-Fits (any ∷ []) [] captured first h = cc
walk-Fits (any ∷ seg ∷ more) [] captured first h = cc
walk-Fits (any ∷ seg ∷ more) (part ∷ parts) captured first h = walk-Fits (seg ∷ more) parts true _ h
walk-Fits (prefixed prefix ∷ more) [] captured first h = cc
walk-Fits (prefixed prefix ∷ more) (part ∷ parts) captured first h = ground arith
walk-Fits (literal text ∷ more) [] captured first h = cc
walk-Fits (literal text ∷ more) (part ∷ parts) captured first h =
    ground (arith, eq_iff part text, walk-Fits more parts captured first)

-- The segments of a rule's path.
abbrev pub pattern_of : String → List Segment
pattern_of path = map segment_of (parts_of path)

match_and_capture-walk :
    (pattern path : String)
    → match_and_capture pattern path ≡ walk (pattern_of pattern) (parts_of path) false ""
unfolding match_and_capture
match_and_capture-walk pattern path = scan-walk (parts_of pattern) [] (parts_of path) false ""

pub match_and_capture_of_Fits :
    (pattern path : String)
    → Fits (pattern_of pattern) (parts_of path)
    → match_and_capture pattern path ≡ (first_wildcard (pattern_of pattern) (parts_of path), true)
match_and_capture_of_Fits pattern path h =
    match_and_capture-walk pattern path ∙ walk_fresh (pattern_of pattern) (parts_of path) h

pub match_and_capture-Fits :
    (pattern path : String)
    → (match_and_capture pattern path).1 ≡ true
    → Fits (pattern_of pattern) (parts_of path)
match_and_capture-Fits pattern path h =
    walk-Fits (pattern_of pattern) (parts_of path) false ""
      (sym (ap (λ r. r.1) (match_and_capture-walk pattern path)) ∙ h)

-- The matcher accepts exactly the paths that fit the pattern, and captures the part at the first
-- wildcard.
pub match_and_capture_iff :
    (pattern path capture : String)
    → (match_and_capture pattern path ≡ (capture, true)) ↔ (
        Fits (pattern_of pattern) (parts_of path)
        × (capture ≡ first_wildcard (pattern_of pattern) (parts_of path)))
match_and_capture_iff pattern path capture = (
  λ h.
      let fits = match_and_capture-Fits pattern path (ap (λ r. r.1) h) in
      (fits, ap (λ r. r.0) (sym h ∙ match_and_capture_of_Fits pattern path fits)),
  λ (fits, same). rw same (match_and_capture_of_Fits pattern path fits),
)
