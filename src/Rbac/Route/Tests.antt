-- ===== src/Rbac/Route/Tests.antt =====
-- The cases of route_capture_test.go, and instances of the theorems.
use fusion_bff.Base.{
  List, [], ◌∷◌, ◌≡◌, refl, ◌↔◌, ◌⊎◌, All, true, is_empty, trim, trim_left, trim_right, split,
  cut_last, has_prefix, cut_prefix,
}
use fusion_bff.Rbac.Route.{
  RouteRule, no_match, parts_of, scan, match_and_capture, match_route, route_permission,
}
use fusion_bff.Rbac.Route.Segments.{Fits, first_wildcard}
use fusion_bff.Rbac.Route.Matching.{pattern_of, match_and_capture_iff}
use fusion_bff.Rbac.Route.Rules.{Applies, IsFirst, answer, match_route-IsFirst}

program : Unit {0}
unfolding is_empty trim trim_left trim_right split cut_last has_prefix cut_prefix parts_of scan
    match_and_capture match_route route_permission
program = tt

abbrev rules : List RouteRule
rules =
    record {
      method = "DELETE";
      path = "/api/index/api/v1/artifacts/*/versions/*";
      permission = "index:versions:delete";
      resource_type = "artifact";
    }
    ∷ record {
      method = "DELETE";
      path = "/api/index/api/v1/artifacts/*";
      permission = "index:artifacts:delete";
      resource_type = "artifact";
    }
    ∷ []

captures :
    (match_route rules "DELETE" "/api/index/api/v1/artifacts/351" ≡ record {
      permission = "index:artifacts:delete";
      resource_type = "artifact";
      resource_id = "351";
    })
    × (match_route rules "DELETE" "/api/index/api/v1/artifacts/351/versions/1.0.0" ≡ record {
      permission = "index:versions:delete";
      resource_type = "artifact";
      resource_id = "351";
    })
    × (match_route rules "GET" "/api/index/api/v1/artifacts/351" ≡ no_match)
    × (route_permission rules "DELETE" "/api/index/api/v1/artifacts/9/x" ≡ "index:artifacts:delete")
    × (match_and_capture "/a/b*/c" "/a/bcd" ≡ ("", true))
unfolding program
captures = (refl, refl, refl, refl, refl)

match_and_capture_iff_example : (match_and_capture "/a/*/c" "/a/7/c" ≡ ("7", true)) ↔ (
    Fits (pattern_of "/a/*/c") (parts_of "/a/7/c")
    × ("7" ≡ first_wildcard (pattern_of "/a/*/c") (parts_of "/a/7/c")))
match_and_capture_iff_example = match_and_capture_iff "/a/*/c" "/a/7/c" "7"

match_route-IsFirst_example :
    ((rule : RouteRule) × IsFirst "DELETE" "/x" rules rule
      × (match_route rules "DELETE" "/x" ≡ answer "DELETE" "/x" rule))
    ⊎ (All (λ r. ¬ Applies "DELETE" "/x" r) rules × (match_route rules "DELETE" "/x" ≡ no_match))
match_route-IsFirst_example = match_route-IsFirst "DELETE" "/x" rules
