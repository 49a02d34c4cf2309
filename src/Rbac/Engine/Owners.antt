-- ===== src/Rbac/Engine/Owners.antt =====
-- Owner groups of a user, and the one that the GUI preselects.
use fusion_bff.Base.{
  String, not, ◌&&◌, List, [], ◌∷◌, ◌++◌, ◌≡◌, ◌≢◌, ◌↔◌, ◌⊎◌, inl, inr, arith, is_empty,
  is_empty_iff, ok, Bool-cases, ◌∈◌, IsSorted, contains, contains_iff, sort-IsSorted, mem-sort,
  mem-append, string_eq,
}
use fusion_bff.Rbac.Engine.{
  Engine, load_owner_groups, add_default_group, resolve_owner_groups,
  effective_preferred_owner_group,
}

add_default_group-mem :
    (name : String) (groups : List String) (group : String)
    → (group ∈ add_default_group name groups) ↔ ((group ∈ groups) ⊎ ((name ≢ "") × (group ≡ name)))
add_default_group-mem name groups group = elim (Bool-cases (is_empty name)) [
  | inl e ↦
      rw e (inl, λ m. elim m [ inl g ↦ g | inr (n, _) ↦ absurd (n ((is_empty_iff name).0 e)) ])
  | inr n ↦ elim (Bool-cases (contains groups name)) [
    | inl c ↦
        rw n (
          rw c
            (inl, λ m. elim m [ inl g ↦ g | inr (_, e) ↦ rw e ((contains_iff groups name).0 c) ]))
    | inr c ↦ rw n (
        rw c (
          ground (
            arith,
            is_empty_iff name,
            mem-sort group (groups ++ (name ∷ [])),
            mem-append group groups (name ∷ []),
          )))
  ]
]

add_default_group-IsSorted :
    (name : String) (groups : List String)
    → IsSorted groups
    → IsSorted (add_default_group name groups)
add_default_group-IsSorted name groups s =
    elim (Bool-cases (not (is_empty name) && not (contains groups name))) [
      | inl added ↦ rw added (sort-IsSorted (groups ++ (name ∷ [])))
      | inr kept ↦ rw kept s
    ]

-- When owner groups are resolved, the user is in exactly the groups that the database names and,
-- if one is configured, the default group.
pub resolve_owner_groups-mem :
    (e : Engine) (user_id email : String) (oidc stored groups : List String)
    → load_owner_groups e.owner_pool user_id email oidc ≡ ok stored
    → resolve_owner_groups e user_id email oidc ≡ ok groups
    → (group : String)
    → (group ∈ groups)
      ↔ ((group ∈ stored) ⊎ ((e.default_owner_group ≢ "") × (group ≡ e.default_owner_group)))
unfolding resolve_owner_groups
resolve_owner_groups-mem e user_id email oidc stored groups loaded h group =
    let answered : ok (add_default_group e.default_owner_group stored) ≡ ok groups =
      rw loaded at h in
    let same : add_default_group e.default_owner_group stored ≡ groups = cc in
    rw (← same) (add_default_group-mem e.default_owner_group stored group)

-- The group to preselect is the stored preference if the user belongs to it, and else the default
-- group; so it is never another group that the user does not belong to.
pub effective_preferred_owner_group_cases :
    (e : Engine) (stored : String) (groups : List String)
    → ((stored ≢ "")
        × (stored ∈ groups)
        × (effective_preferred_owner_group e stored groups ≡ stored))
      ⊎ (((stored ≡ "") ⊎ (¬ (stored ∈ groups)))
          × (effective_preferred_owner_group e stored groups ≡ e.default_owner_group))
unfolding effective_preferred_owner_group
effective_preferred_owner_group_cases e stored groups =
    ground (arith, is_empty_iff stored, contains_iff groups stored)
