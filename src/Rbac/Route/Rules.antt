-- ===== src/Rbac/Route/Rules.antt =====
-- `MatchRoute` answers for the first rule of the list that applies to the request.
use fusion_bff.Base.{
  String, Bool, true, false, List, [], ◌∷◌, ◌≡◌, refl, ◌↔◌, ◌⊎◌, inl, inr, ◌∙◌, ap, arith, All,
  Bool-cases, eq_iff,
}
use fusion_bff.Rbac.Route.{
  RouteRule, RouteMatch, no_match, route_match, parts_of, match_and_capture, method_applies,
  match_route,
}
use fusion_bff.Rbac.Route.Segments.{Fits, first_wildcard}
use fusion_bff.Rbac.Route.Matching.{pattern_of, match_and_capture_of_Fits, match_and_capture-Fits}

module _ (method path : String) where
  -- The rule is about the request: its method is "*" or the request's, and its path fits.
  abbrev pub Applies : RouteRule → Type 0
  Applies rule =
      ((rule.method ≡ "*") ⊎ (rule.method ≡ method)) × Fits (pattern_of rule.path) (parts_of path)

  -- The rule applies, and none before it does.
  abbrev pub IsFirst : List RouteRule → RouteRule → Type 0
  IsFirst [] rule = ⊥
  IsFirst (r ∷ rules) rule = ((rule ≡ r) × Applies r) ⊎ ((¬ Applies r) × IsFirst rules rule)

  -- The answer that a rule gives for the path.
  abbrev pub answer : RouteRule → RouteMatch
  answer rule = route_match rule (first_wildcard (pattern_of rule.path) (parts_of path))

  method_applies_iff :
      (rule : RouteRule)
      → (method_applies rule method ≡ true) ↔ ((rule.method ≡ "*") ⊎ (rule.method ≡ method))
  method_applies_iff rule = ground (arith, eq_iff rule.method "*", eq_iff rule.method method)

  match_route_hit :
      (r : RouteRule) (rules : List RouteRule)
      → Applies r
      → match_route (r ∷ rules) method path ≡ answer r
  unfolding match_route
  match_route_hit r rules (m, fits) =
      rw ((method_applies_iff r).1 m, match_and_capture_of_Fits r.path path fits) refl

  match_route_miss :
      (r : RouteRule) (rules : List RouteRule)
      → ¬ Applies r
      → match_route (r ∷ rules) method path ≡ match_route rules method path
  unfolding match_route
  match_route_miss r rules n = elim (Bool-cases (method_applies r method)) [
    | inr other ↦ rw other refl
    | inl same ↦ elim (Bool-cases (match_and_capture r.path path).1) [
      | inr missed ↦ rw (same, missed) refl
      | inl hit ↦ absurd (n ((method_applies_iff r).0 same, match_and_capture-Fits r.path path hit))
    ]
  ]

  Applies-cases : (r : RouteRule) → Applies r ⊎ (¬ Applies r)
  Applies-cases r = elim (Bool-cases (method_applies r method)) [
    | inr other ↦ inr (λ a. false≢true' other ((method_applies_iff r).1 a.0))
    | inl same ↦ elim (Bool-cases (match_and_capture r.path path).1) [
      | inl hit ↦ inl ((method_applies_iff r).0 same, match_and_capture-Fits r.path path hit)
      | inr missed ↦
          inr (λ a. false≢true' missed (ap (λ c. c.1) (match_and_capture_of_Fits r.path path a.1)))
    ]
  ]
    where
      false≢true' : {b : Bool} → b ≡ false → b ≡ true → ⊥
      false≢true' p q = cc

  -- Either a rule applies and the answer is that of the first one, or none does and the answer is
  -- the empty match, which requires no permission.
  pub match_route-IsFirst :
      (rules : List RouteRule)
      → ((rule : RouteRule) × IsFirst rules rule × (match_route rules method path ≡ answer rule))
        ⊎ (All (λ r. ¬ Applies r) rules × (match_route rules method path ≡ no_match))
  unfolding match_route
  match_route-IsFirst [] = inr (tt, refl)
  match_route-IsFirst (r ∷ rules) = elim (Applies-cases r) [
    | inl a ↦ inl (r, inl (refl, a), match_route_hit r rules a)
    | inr n ↦ elim (match_route-IsFirst rules) [
      | inl (rule, first, same) ↦ inl (rule, inr (n, first), match_route_miss r rules n ∙ same)
      | inr (none, same) ↦ inr ((n, none), match_route_miss r rules n ∙ same)
    ]
  ]
