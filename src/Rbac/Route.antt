-- ===== src/Rbac/Route.antt =====
-- internal/rbac/route.go and the rule type of config.go: matching a request against the route
-- permission rules.
pub mod Segments
pub mod Matching
pub mod Rules
pub mod Resource
mod Tests
use fusion_bff.Base.{
  ℕ, suc, String, Bool, true, false, not, ◌&&◌, ◌||◌, Option, none, some, List, [], ◌∷◌, ◌==◌, ltb,
  eqb, if◌then◌else◌, length, get_elem?, is_empty, trim, split, cut_last, has_prefix,
}

-- `RouteRule`
pub record RouteRule : Type 0 where
  pub method : String
  pub path : String
  pub permission : String
  pub resource_type : String

-- `RouteMatch`
pub record RouteMatch : Type 0 where
  pub permission : String
  pub resource_type : String
  pub resource_id : String

-- `RouteMatch{}`
abbrev pub no_match : RouteMatch
no_match = record { permission = ""; resource_type = ""; resource_id = "" }

-- `strings.Split(strings.Trim(s, "/"), "/")`
unfoldable pub parts_of : String → List String
parts_of s = split b'/' (trim b'/' s)

abbrev is_last : List String → Bool
is_last [] = true
is_last (_ ∷ _) = false

-- The value of the last wildcard: `ap[i]` unless something was captured before.
abbrev last_capture : List String → ℕ → Bool → String → String
last_capture ap i true first = first
last_capture ap i false first = elim (get_elem? ap i) [ none ↦ first | some part ↦ part ]

-- The loop of `matchAndCapture` over the pattern's segments from position `i` on: the capture,
-- and whether the pattern matched. The position is `len(pp)` where the loop ends.
unfoldable pub scan : List String → ℕ → List String → Bool → String → String × Bool
scan [] i ap captured first = (first, eqb (length ap) i)
scan (seg ∷ more) i ap captured first =
    if seg == "*"
    then if is_last more
      then (last_capture ap i captured first, ltb i (length ap))
      else elim (get_elem? ap i) [
        | none ↦ ("", false)
        | some part ↦ scan more (suc i) ap true (if captured then first else part)
      ]
    else elim (cut_last b'*' seg) [
      | some prefix ↦ elim (get_elem? ap i) [
        | none ↦ ("", false)
        | some part ↦ if has_prefix part prefix then (first, true) else ("", false)
      ]
      | none ↦ elim (get_elem? ap i) [
        | none ↦ ("", false)
        | some part ↦
            let rest = scan more (suc i) ap captured first in
            if part == seg then rest else ("", false)
      ]
    ]

-- `matchAndCapture`
unfoldable pub match_and_capture : String → String → String × Bool
match_and_capture pattern path = scan (parts_of pattern) 0 (parts_of path) false ""

-- The method test of `MatchRoute`: a rule is skipped unless its method is "*" or the request's.
abbrev pub method_applies : RouteRule → String → Bool
method_applies rule method = rule.method == "*" || rule.method == method

-- What `MatchRoute` returns for the rule that matched.
abbrev pub route_match : RouteRule → String → RouteMatch
route_match rule capture = record {
  permission = rule.permission;
  resource_type = rule.resource_type;
  resource_id = if is_empty rule.resource_type then "" else capture;
}

-- `MatchRoute`
unfoldable pub match_route : List RouteRule → String → String → RouteMatch
match_route [] method path = no_match
match_route (rule ∷ rules) method path =
    if method_applies rule method
    then (let (capture, matched) = match_and_capture rule.path path in
        if matched then route_match rule capture else match_route rules method path)
    else match_route rules method path

-- `RoutePermission`
unfoldable pub route_permission : List RouteRule → String → String → String
route_permission rules method path = (match_route rules method path).permission
