-- ===== src/Rbac/Route/Resource.antt =====
-- The resource id that a route match hands to the permission check.
use Prim.Native.String.{[], ◌∷◌}
use fusion_bff.Base.{
  ℕ, Char, code, String, List, [], ◌∷◌, ◌≢◌, inl, inr, arith, eqb, All, Bool-cases, split,
  push_front, is_empty, trim,
}
use fusion_bff.Rbac.Route.{RouteRule, route_match, parts_of, match_route}
use fusion_bff.Rbac.Route.Segments.{Segment, any, prefixed, literal, first_wildcard}
use fusion_bff.Rbac.Route.Matching.{pattern_of}
use fusion_bff.Rbac.Route.Rules.{match_route-IsFirst}

-- No character of the text is the separator.
abbrev pub IsFree : ℕ → String → Type 0
IsFree sep [] = Unit
IsFree sep (c ∷ s) = (code c ≢ sep) × IsFree sep s

push_front-All :
    (sep : ℕ) (c : Char) (ws : List String)
    → code c ≢ sep
    → All (IsFree sep) ws
    → All (IsFree sep) (push_front c ws)
push_front-All sep c [] n a = ((n, tt), tt)
push_front-All sep c (w ∷ ws) n a = ((n, a.0), a.1)

split-All : (sep : ℕ) (s : String) → All (IsFree sep) (split sep s)
unfolding split
split-All sep [] = (tt, tt)
split-All sep (c ∷ s) = elim (Bool-cases (eqb (code c) sep)) [
  | inl same ↦ rw same (tt, split-All sep s)
  | inr other ↦ rw other (push_front-All sep c (split sep s) (ground arith) (split-All sep s))
]

first_wildcard-IsFree :
    (sep : ℕ) (segs : List Segment) (parts : List String)
    → All (IsFree sep) parts
    → IsFree sep (first_wildcard segs parts)
unfolding first_wildcard
first_wildcard-IsFree sep [] parts a = tt
first_wildcard-IsFree sep (any ∷ more) [] a = tt
first_wildcard-IsFree sep (any ∷ more) (part ∷ parts) a = a.0
first_wildcard-IsFree sep (prefixed _ ∷ more) [] a = tt
first_wildcard-IsFree sep (prefixed _ ∷ more) (part ∷ parts) a = tt
first_wildcard-IsFree sep (literal _ ∷ more) [] a = tt
first_wildcard-IsFree sep (literal _ ∷ more) (part ∷ parts) a =
    first_wildcard-IsFree sep more parts a.1

route_match-IsFree :
    (rule : RouteRule) (capture : String)
    → IsFree b'/' capture
    → IsFree b'/' (route_match rule capture).resource_id
route_match-IsFree rule capture f = elim (Bool-cases (is_empty rule.resource_type)) [
  | inl e ↦ rw e tt
  | inr n ↦ rw n f
]

parts_of-All : (path : String) → All (IsFree b'/') (parts_of path)
unfolding parts_of
parts_of-All path = split-All b'/' (trim b'/' path)

-- Whatever the rules and the request path, the resource id holds no slash: it is one path part.
pub match_route-IsFree :
    (rules : List RouteRule) (method path : String)
    → IsFree b'/' (match_route rules method path).resource_id
match_route-IsFree rules method path = elim (match_route-IsFirst method path rules) [
  | inl (rule, first, same) ↦ rw same (
      route_match-IsFree rule _
        (first_wildcard-IsFree b'/' (pattern_of rule.path) (parts_of path) (parts_of-All path)))
  | inr (none, same) ↦ rw same tt
]
