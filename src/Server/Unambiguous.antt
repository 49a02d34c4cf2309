-- ===== src/Server/Unambiguous.antt =====
-- Which route of the table serves a request: gin's patterns are texts, `:name` for one segment that is
-- not empty, and `*name` for all that remains; `Any` serves every method.
use fusion_bff.Base.{
  String, split, has_prefix, cut_prefix, ◌||◌, Bool, true, false, not, ◌&&◌, List, [], ◌∷◌, ◌++◌,
  ◌==◌, eq_iff, if◌then◌else◌, All, ◌≡◌, ◌≢◌, refl, ◌⊎◌, arith,
}
use fusion_bff.Server.Routes.{
  Route, Handlers, public_routes, admin_routes, resource_perm_routes, owner_group_routes,
  preferences_routes, presets_routes, system_health_routes, api_routes, mock_routes, new_router,
  all_routes,
}

-- The segments of the path are those of the pattern.
abbrev pub Fits : List String → List String → Type 0
Fits [] [] = Unit
Fits [] (_ ∷ _) = ⊥
Fits (_ ∷ _) [] = ⊥
Fits (p ∷ ps) (s ∷ segments) =
    (has_prefix p "*" ≡ true)
    ⊎ ((((has_prefix p ":" ≡ true) × (s ≢ "")) ⊎ (p ≡ s)) × Fits ps segments)

-- The route serves requests with the method and the path.
abbrev pub Serves : Route → String → String → Type 0
Serves r method path =
    ((r.method ≡ "*") ⊎ (r.method ≡ method)) × Fits (split b'/' r.path) (split b'/' path)

-- No request is served by both routes.
abbrev pub AreDisjoint : Route → Route → Type 0
AreDisjoint r s =
    ¬ ((method : String) × (path : String) × Serves r method path × Serves s method path)

-- No two routes of the list serve the same request.
abbrev pub IsUnambiguous : List Route → Type 0
IsUnambiguous [] = Unit
IsUnambiguous (r ∷ routes) = All (AreDisjoint r) routes × IsUnambiguous routes

-- Some path may fit both patterns.
unfoldable overlap : List String → List String → Bool
overlap [] [] = true
overlap [] (_ ∷ _) = false
overlap (_ ∷ _) [] = false
overlap (p ∷ ps) (q ∷ qs) =
    has_prefix p "*"
    || has_prefix q "*"
    || ((has_prefix p ":" || has_prefix q ":" || p == q) && overlap ps qs)

overlap-Fits :
    (ps qs segments : List String) → Fits ps segments → Fits qs segments → overlap ps qs ≡ true
unfolding overlap
overlap-Fits [] [] [] f g = refl
overlap-Fits (p ∷ ps) (q ∷ qs) (s ∷ segments) f g =
    ground (arith, eq_iff p q, overlap-Fits ps qs segments)
overlap-Fits [] (q ∷ qs) [] f g = absurd g
overlap-Fits [] qs (s ∷ segments) f g = absurd f
overlap-Fits (p ∷ ps) qs [] f g = absurd f
overlap-Fits (p ∷ ps) [] (s ∷ segments) f g = absurd g

abbrev collide : Route → Route → Bool
collide r s =
    (r.method == "*" || s.method == "*" || r.method == s.method)
    && overlap (split b'/' r.path) (split b'/' s.path)

collide-AreDisjoint : (r s : Route) → collide r s ≡ false → AreDisjoint r s
collide-AreDisjoint r s apart (method, path, f, g) =
    let both = overlap-Fits (split b'/' r.path) (split b'/' s.path) (split b'/' path) f.1 g.1 in
    ground (arith, eq_iff r.method "*", eq_iff s.method "*", eq_iff r.method s.method)

abbrev is_fresh : Route → List Route → Bool
is_fresh r [] = true
is_fresh r (s ∷ routes) = not (collide r s) && is_fresh r routes

abbrev all_fresh : List Route → Bool
all_fresh [] = true
all_fresh (r ∷ routes) = is_fresh r routes && all_fresh routes

is_fresh_lem :
    (r : Route) (routes : List Route) → is_fresh r routes ≡ true → All (AreDisjoint r) routes
is_fresh_lem r [] h = tt
is_fresh_lem r (s ∷ routes) h =
    (collide-AreDisjoint r s (ground arith), is_fresh_lem r routes (ground arith))

all_fresh_lem : (routes : List Route) → all_fresh routes ≡ true → IsUnambiguous routes
all_fresh_lem [] h = tt
all_fresh_lem (r ∷ routes) h =
    (is_fresh_lem r routes (ground arith), all_fresh_lem routes (ground arith))

-- Some of the routes of a list, in its order.
data Part : List Route → List Route → Type 0 where
  done : Part [] []
  skip : {xs ys : List Route} (r : Route) → Part xs ys → Part xs (r ∷ ys)
  keep : {xs ys : List Route} (r : Route) → Part xs ys → Part (r ∷ xs) (r ∷ ys)

none_of : (ys : List Route) → Part [] ys
none_of [] = done
none_of (r ∷ ys) = skip r (none_of ys)

all_of : (ys : List Route) → Part ys ys
all_of [] = done
all_of (r ∷ ys) = keep r (all_of ys)

both : {xs xs' ys ys' : List Route} → Part xs xs' → Part ys ys' → Part (xs ++ ys) (xs' ++ ys')
both done q = q
both (skip r p) q = skip r (both p q)
both (keep r p) q = keep r (both p q)

present : (b : Bool) {xs ys : List Route} → Part xs ys → Part (if b then xs else []) ys
present true p = p
present false {ys = ys} p = none_of ys

is_fresh-Part :
    {xs ys : List Route} (s : Route) → Part xs ys → is_fresh s ys ≡ true → is_fresh s xs ≡ true
is_fresh-Part s done h = refl
is_fresh-Part s (skip r p) h = let rest = is_fresh-Part s p (ground arith) in rest
is_fresh-Part s (keep r p) h = let rest = is_fresh-Part s p (ground arith) in ground arith

all_fresh-Part : {xs ys : List Route} → Part xs ys → all_fresh ys ≡ true → all_fresh xs ≡ true
all_fresh-Part done h = refl
all_fresh-Part (skip r p) h = all_fresh-Part p (ground arith)
all_fresh-Part (keep r p) h =
    let first = is_fresh-Part r p (ground arith) in
    let rest = all_fresh-Part p (ground arith) in ground arith

-- Every handler is there.
abbrev complete : Handlers
complete = record {
  admin = true;
  resource_perm = true;
  owner_group = true;
  preferences = true;
  presets = true;
  system_health = true;
  mock = true;
}

all_routes-Part : (h : Handlers) → Part (all_routes h) (all_routes complete)
unfolding all_routes new_router
all_routes-Part h =
    let admin =
      both (all_of admin_routes) (present h.resource_perm (all_of resource_perm_routes)) in
    let r1 = both (all_of public_routes) (present h.admin admin) in
    let r2 = both r1 (present h.owner_group (all_of owner_group_routes)) in
    let r3 = both r2 (present h.preferences (all_of preferences_routes)) in
    let r4 = both r3 (present h.presets (all_of presets_routes)) in
    let r5 = both r4 (present h.system_health (all_of system_health_routes)) in
    both (both r5 (all_of api_routes)) (present h.mock (all_of mock_routes))

complete-fresh : all_fresh (all_routes complete) ≡ true
unfolding all_routes new_router mock_routes overlap split has_prefix cut_prefix
complete-fresh = refl

-- Whatever handlers are there, each request is served by at most one route of the table: no two routes
-- have a method in common and patterns that the same path fits.
pub all_routes-IsUnambiguous : (h : Handlers) → IsUnambiguous (all_routes h)
all_routes-IsUnambiguous h =
    all_fresh_lem (all_routes h) (all_fresh-Part (all_routes-Part h) complete-fresh)
