-- ===== src/Middleware/ApiAuth/Permissions.antt =====
-- The permission checks of `APIAuth`, by session and by bearer token.
use fusion_bff.Base.{
  String, Bool, true, false, List, [], ◌∷◌, ◌≡◌, refl, ◌≢◌, ◌↔◌, ◌⊎◌, inl, inr, ap, arith, ◌||◌,
  Result, ok, err, Bool-cases, is_empty, is_empty_iff, contains, contains_iff, string_eq, ◌∈◌,
  if◌then◌else◌,
}
use fusion_bff.Session.{Session, ResourcePermission, permission_eq, same_permission}
use fusion_bff.Oidc.{UserClaims}
use fusion_bff.Rbac.Route.{RouteMatch}
use fusion_bff.Rbac.Engine.{Engine, resolve, resolve_resource_permissions}
use fusion_bff.Middleware.{has_resource_perm}
use fusion_bff.Middleware.ApiAuth.{session_may, bearer_scope, bearer_may}

module _ (m : RouteMatch) where
  -- The grant of the required permission on the route's resource.
  abbrev pub required_grant : ResourcePermission
  required_grant = record {
    permission = m.permission;
    resource_type = m.resource_type;
    resource_id = m.resource_id;
  }

  has_resource_perm-contains :
      (grants : List ResourcePermission)
      → has_resource_perm grants m.permission m.resource_type m.resource_id
        ≡ contains grants required_grant
  unfolding has_resource_perm contains
  has_resource_perm-contains [] = refl
  has_resource_perm-contains (rp ∷ rps) =
      ap (◌||◌ (same_permission rp required_grant)) (has_resource_perm-contains rps)

  has_resource_perm_iff :
      (grants : List ResourcePermission)
      → (has_resource_perm grants m.permission m.resource_type m.resource_id ≡ true)
        ↔ (required_grant ∈ grants)
  has_resource_perm_iff grants =
      rw (has_resource_perm-contains grants) (contains_iff grants required_grant)

  -- The session has what the route requires: nothing, the permission, or a grant on the resource.
  abbrev pub MaySession : Session → Type 0
  MaySession sess =
      (m.permission ≡ "")
      ⊎ ((m.permission ∈ sess.permissions)
          ⊎ ((m.resource_type ≢ "") × (required_grant ∈ sess.resource_permissions)))

  pub session_may_iff : (sess : Session) → (session_may m sess ≡ true) ↔ MaySession sess
  unfolding session_may
  session_may_iff sess = ground (
    arith,
    is_empty_iff m.permission,
    is_empty_iff m.resource_type,
    contains_iff sess.permissions m.permission,
    has_resource_perm_iff sess.resource_permissions,
  )

  scoped :
      (perms : List String) (answer : Result (List ResourcePermission))
      → ((if contains perms m.permission
            then true
            else if is_empty m.resource_type
            then false
            else elim answer [
              | err _ ↦ false
              | ok grants ↦ has_resource_perm grants m.permission m.resource_type m.resource_id
            ])
          ≡ true)
        ↔ ((m.permission ∈ perms)
            ⊎ ((m.resource_type ≢ "")
                × ((grants : List ResourcePermission) × (answer ≡ ok grants)
                    × (required_grant ∈ grants))))
  scoped perms (err e) =
      ground (arith, contains_iff perms m.permission, is_empty_iff m.resource_type)
  scoped perms (ok grants) = (
    λ h. elim (Bool-cases (contains perms m.permission)) [
      | inl global ↦ inl ((contains_iff perms m.permission).0 global)
      | inr scope ↦ inr (
        λ e. ground (arith, is_empty_iff m.resource_type),
        (grants, refl, (has_resource_perm_iff grants).0 (ground arith)),
      )
    ],
    λ w. elim w [
      | inl global ↦ ground (arith, contains_iff perms m.permission)
      | inr (typed, (grants', same, granted)) ↦
          let same' : grants ≡ grants' = cc in
          let given = (has_resource_perm_iff grants).1 (rw same' granted) in
          ground (arith, is_empty_iff m.resource_type)
    ],
  )

  resolved :
      (may : List String → Bool) (May : List String → Type 0)
      → ((perms : List String) → (may perms ≡ true) ↔ May perms)
      → (answer : Result (List String × List String))
      → ((if is_empty m.permission
            then true
            else elim answer [ err _ ↦ false | ok (_, perms) ↦ may perms ])
          ≡ true)
        ↔ ((m.permission ≡ "")
            ⊎ ((roles : List String) × (perms : List String) × (answer ≡ ok (roles, perms))
                × May perms))
  resolved may May iff (err e) = ground (arith, is_empty_iff m.permission)
  resolved may May iff (ok (roles, perms)) = (
    λ h. elim (Bool-cases (is_empty m.permission)) [
      | inl free ↦ inl ((is_empty_iff m.permission).0 free)
      | inr bound ↦ inr (roles, perms, refl, (iff perms).0 (rw bound at h))
    ],
    λ w. elim w [
      | inl free ↦ rw ((is_empty_iff m.permission).1 free) refl
      | inr (roles', perms', same, given) ↦
          let same' : perms ≡ perms' = cc in
          let passed = (iff perms).1 (rw same' given) in ground arith
    ],
  )

  module _ (engine : Engine) where
    -- The same for the permissions that the engine resolves for the claims, and for the grants that
    -- it finds when it is asked with the permissions in the place of the roles.
    abbrev pub MayWith : UserClaims → List String → Type 0
    MayWith claims perms =
        (m.permission ∈ perms)
        ⊎ ((m.resource_type ≢ "")
            × ((grants : List ResourcePermission) × (resolve_resource_permissions engine
                    claims.subject claims.groups perms
                  ≡ ok grants)
                × (required_grant ∈ grants)))

    abbrev pub MayBearer : UserClaims → Type 0
    MayBearer claims =
        (m.permission ≡ "")
        ⊎ ((roles : List String) × (perms : List String) × (resolve engine claims.subject
                claims.groups
              ≡ ok (roles, perms))
            × MayWith claims perms)

    bearer_perms :
        (claims : UserClaims) (perms : List String)
        → (bearer_scope engine m claims perms ≡ true) ↔ MayWith claims perms
    unfolding bearer_scope
    bearer_perms claims perms =
        scoped perms (resolve_resource_permissions engine claims.subject claims.groups perms)

    pub bearer_may_iff :
        (claims : UserClaims) → (bearer_may engine m claims ≡ true) ↔ MayBearer claims
    unfolding bearer_may
    bearer_may_iff claims =
        resolved (λ perms. bearer_scope engine m claims perms) (MayWith claims)
          (bearer_perms claims) (resolve engine claims.subject claims.groups)
