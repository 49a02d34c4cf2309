-- ===== src/Server/Guarded.antt =====
-- Who reaches the handlers behind the routes.
use fusion_bff.Base.{
  String, Bool, true, false, not, ◌&&◌, ◌||◌, List, [], ◌∷◌, ◌++◌, if◌then◌else◌, has_prefix,
  cut_prefix, is_empty, is_empty_iff, All, ◌≡◌, ◌≢◌, refl, ◌⊎◌, inl, inr, arith, Bool-cases,
}
use fusion_bff.Server.Routes.{
  Guard, anyone, session, api, Route, Handlers, public_routes, admin_routes, resource_perm_routes,
  owner_group_routes, preferences_routes, presets_routes, system_health_routes, api_routes,
  mock_routes, new_router, all_routes,
}

-- Below /bff/admin a session with some permission is required, and below /api the identity and the
-- permission that the matched rule asks for.
abbrev pub IsGuarded : Route → Type 0
IsGuarded r =
    ((has_prefix r.path "/bff/admin" ≡ false)
      ⊎ ((permission : String) × (permission ≢ "") × (r.guard ≡ session permission)))
    × ((has_prefix r.path "/api" ≡ false) ⊎ (r.guard ≡ api))

abbrev has_permission : Guard → Bool
has_permission (session permission) = not (is_empty permission)
has_permission _ = false

abbrev is_api : Guard → Bool
is_api api = true
is_api _ = false

-- The same as a test, which computes on the table.
abbrev is_guarded : Route → Bool
is_guarded r =
    (not (has_prefix r.path "/bff/admin") || has_permission r.guard)
    && (not (has_prefix r.path "/api") || is_api r.guard)

abbrev all_guarded : List Route → Bool
all_guarded [] = true
all_guarded (r ∷ routes) = is_guarded r && all_guarded routes

has_permission_lem :
    (g : Guard)
    → has_permission g ≡ true
    → (permission : String) × (permission ≢ "") × (g ≡ session permission)
has_permission_lem (session permission) h =
    let empty = is_empty_iff permission in (permission, ground arith, refl)
has_permission_lem anyone h = cc
has_permission_lem api h = cc

is_api_lem : (g : Guard) → is_api g ≡ true → g ≡ api
is_api_lem (session permission) h = cc
is_api_lem anyone h = cc
is_api_lem api h = refl

is_guarded_lem : (r : Route) → is_guarded r ≡ true → IsGuarded r
is_guarded_lem r h = (
  elim (Bool-cases (has_prefix r.path "/bff/admin")) [
    | inl below ↦ inr (has_permission_lem r.guard (ground arith))
    | inr beside ↦ inl beside
  ],
  elim (Bool-cases (has_prefix r.path "/api")) [
    | inl below ↦ inr (is_api_lem r.guard (ground arith))
    | inr beside ↦ inl beside
  ],
)

all_guarded_lem : (routes : List Route) → all_guarded routes ≡ true → All IsGuarded routes
all_guarded_lem [] h = tt
all_guarded_lem (r ∷ routes) h =
    (is_guarded_lem r (ground arith), all_guarded_lem routes (ground arith))

all_guarded-append :
    (xs ys : List Route)
    → all_guarded xs ≡ true
    → all_guarded ys ≡ true
    → all_guarded (xs ++ ys) ≡ true
all_guarded-append [] ys h k = k
all_guarded-append (x ∷ xs) ys h k =
    let rest = all_guarded-append xs ys (ground arith) k in ground arith

-- A list of routes that passes the test.
record Checked (routes : List Route) : Type 0 where
  passed : all_guarded routes ≡ true

checked : (routes : List Route) → all_guarded routes ≡ true → Checked routes
checked routes h = record { passed = h }

both : {xs ys : List Route} → Checked xs → Checked ys → Checked (xs ++ ys)
both {xs} {ys} a b = record { passed = all_guarded-append xs ys a.passed b.passed }

-- A group of routes that is only there where its handler is.
only_if-Checked : (b : Bool) {xs : List Route} → Checked xs → Checked (if b then xs else [])
only_if-Checked true a = a
only_if-Checked false a = record { passed = refl }

new_router-Checked : (h : Handlers) → Checked (new_router h)
unfolding has_prefix cut_prefix is_empty new_router
new_router-Checked h =
    let perms = only_if-Checked h.resource_perm (checked resource_perm_routes refl) in
    let admin = both (checked admin_routes refl) perms in
    let r1 = both (checked public_routes refl) (only_if-Checked h.admin admin) in
    let r2 = both r1 (only_if-Checked h.owner_group (checked owner_group_routes refl)) in
    let r3 = both r2 (only_if-Checked h.preferences (checked preferences_routes refl)) in
    let r4 = both r3 (only_if-Checked h.presets (checked presets_routes refl)) in
    let r5 = both r4 (only_if-Checked h.system_health (checked system_health_routes refl)) in
    both r5 (checked api_routes refl)

-- Of the routes of the process, whatever handlers are there, each below /bff/admin requires a session
-- with a permission that is not empty, and each below /api passes the API middleware.
pub all_routes-IsGuarded : (h : Handlers) → All IsGuarded (all_routes h)
unfolding has_prefix cut_prefix all_routes mock_routes
all_routes-IsGuarded h =
    let passing = both (new_router-Checked h) (only_if-Checked h.mock (checked mock_routes refl)) in
    all_guarded_lem (all_routes h) passing.passed
