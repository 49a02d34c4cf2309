-- ===== src/Rbac/Engine/Roles.antt =====
-- `Resolve`: which roles and permissions a user has, and when it fails.
use fusion_bff.Base.{
  String, List, [], ◌∷◌, ◌≡◌, refl, ◌≢◌, ◌↔◌, ◌⊎◌, inl, inr, arith, is_empty, Dict, ok, >>=-eq-ok,
  Bool-cases, ◌∈◌, IsDistinct, IsSorted, add_all, mem-add_all, subst, add_all-IsDistinct, sort,
  sort-IsSorted, mem-sort, sort-IsDistinct, string_eq, is_empty_iff,
}
use fusion_bff.Rbac.Store.{GroupRoleStore, roles_of}
use fusion_bff.Rbac.Engine.{Engine, collect_roles, add_user_roles, collect_permissions, resolve}

module _ (store : GroupRoleStore) where
  -- One of the groups has the role in the store.
  abbrev pub FromGroups : List String → String → Type 0
  FromGroups groups role =
      (group : String) × (group ∈ groups)
      × ((roles : List String) × (store.roles_for_group group ≡ ok roles) × (role ∈ roles))

  -- The role is assigned to the user, whose `sub` is known.
  abbrev pub FromUser : String → String → Type 0
  FromUser sub role =
      (sub ≢ "") × ((roles : List String) × (store.roles_for_user sub ≡ ok roles) × (role ∈ roles))

  same_answer :
      (role : String) {group g : String} {rs rs' : List String}
      → g ≡ group
      → store.roles_for_group group ≡ ok rs
      → store.roles_for_group g ≡ ok rs'
      → role ∈ rs'
      → role ∈ rs
  same_answer role {rs} {rs'} e asked asked' m = let same : rs' ≡ rs = cc in rw (← same) m

  collect_roles-mem :
      (groups acc out : List String) (role : String)
      → collect_roles store acc groups ≡ ok out
      → (role ∈ out) ↔ ((role ∈ acc) ⊎ FromGroups groups role)
  unfolding collect_roles
  collect_roles-mem [] acc out role h =
      let same : acc ≡ out = cc in
      rw (← same) (inl, λ m. elim m [ inl old ↦ old | inr (g, listed, _) ↦ absurd listed ])
  collect_roles-mem (group ∷ groups) acc out role h =
      let (rs, asked, rest) = >>=-eq-ok (store.roles_for_group group) _ h in
      let ih = collect_roles-mem groups (add_all acc rs) out role rest in
      let here = mem-add_all acc rs role in
      (
        λ m. elim (ih.0 m) [
          | inl now ↦ elim (here.0 now) [
            | inl old ↦ inl old
            | inr new ↦ inr (group, inl refl, (rs, asked, new))
          ]
          | inr (g, listed, w) ↦ inr (g, inr listed, w)
        ],
        λ m. elim m [
          | inl old ↦ ih.1 (inl (here.1 (inl old)))
          | inr (g, inl e, (rs', asked', new)) ↦
              ih.1 (inl (here.1 (inr (same_answer role e asked asked' new))))
          | inr (g, inr listed, w) ↦ ih.1 (inr (g, listed, w))
        ],
      )

  collect_roles-IsDistinct :
      (groups acc out : List String)
      → collect_roles store acc groups ≡ ok out
      → IsDistinct acc
      → IsDistinct out
  unfolding collect_roles
  collect_roles-IsDistinct [] acc out h d = let same : acc ≡ out = cc in rw (← same) d
  collect_roles-IsDistinct (group ∷ groups) acc out h d =
      let (rs, asked, rest) = >>=-eq-ok (store.roles_for_group group) _ h in
      collect_roles-IsDistinct groups (add_all acc rs) out rest (add_all-IsDistinct acc rs d)

  add_user_roles-mem :
      (sub : String) (acc out : List String) (role : String)
      → add_user_roles store sub acc ≡ ok out
      → (role ∈ out) ↔ ((role ∈ acc) ⊎ FromUser sub role)
  unfolding add_user_roles
  add_user_roles-mem sub acc out role h = elim (Bool-cases (is_empty sub)) [
    | inl e ↦
        let same : acc ≡ out = ground arith in
        rw (← same)
          (inl, λ m. elim m [ inl old ↦ old | inr (n, _) ↦ absurd (n ((is_empty_iff sub).0 e)) ])
    | inr n ↦
        let (rs, asked, same') =
          >>=-eq-ok (store.roles_for_user sub) (λ rs. ok (add_all acc rs)) (rw n at h) in
        let same : add_all acc rs ≡ out = cc in
        let here = mem-add_all acc rs role in
        rw (← same) (
          λ m. elim (here.0 m) [
            | inl old ↦ inl old
            | inr new ↦ inr (λ e. absurd (cc ((is_empty_iff sub).1 e)), (rs, asked, new))
          ],
          λ m. elim m [
            | inl old ↦ here.1 (inl old)
            | inr (_, (rs', asked', new)) ↦
                let same' : rs' ≡ rs = cc in here.1 (inr (rw (← same') new))
          ],
        )
  ]

  add_user_roles-IsDistinct :
      (sub : String) (acc out : List String)
      → add_user_roles store sub acc ≡ ok out
      → IsDistinct acc
      → IsDistinct out
  unfolding add_user_roles
  add_user_roles-IsDistinct sub acc out h d = elim (Bool-cases (is_empty sub)) [
    | inl e ↦ let same : acc ≡ out = ground arith in rw (← same) d
    | inr n ↦
        let (rs, asked, same') =
          >>=-eq-ok (store.roles_for_user sub) (λ rs. ok (add_all acc rs)) (rw n at h) in
        let same : add_all acc rs ≡ out = cc in rw (← same) (add_all-IsDistinct acc rs d)
  ]

-- One of the roles has the permission in the configuration.
abbrev pub FromRoles : Dict (List String) → List String → String → Type 0
FromRoles role_permissions roles perm =
    (role : String) × (role ∈ roles) × (perm ∈ roles_of role_permissions role)

collect_permissions-mem :
    (rp : Dict (List String)) (acc roles : List String) (perm : String)
    → (perm ∈ collect_permissions rp acc roles) ↔ ((perm ∈ acc) ⊎ FromRoles rp roles perm)
unfolding collect_permissions
collect_permissions-mem rp acc [] perm =
    (inl, λ m. elim m [ inl old ↦ old | inr (r, listed, _) ↦ absurd listed ])
collect_permissions-mem rp acc (role ∷ roles) perm =
    let ih = collect_permissions-mem rp (add_all acc (roles_of rp role)) roles perm in
    let here = mem-add_all acc (roles_of rp role) perm in
    (
      λ m. elim (ih.0 m) [
        | inl now ↦ elim (here.0 now) [ inl old ↦ inl old | inr new ↦ inr (role, inl refl, new) ]
        | inr (r, listed, w) ↦ inr (r, inr listed, w)
      ],
      λ m. elim m [
        | inl old ↦ ih.1 (inl (here.1 (inl old)))
        | inr (r, inl e, new) ↦ ih.1 (inl (here.1 (inr (subst (λ x. perm ∈ roles_of rp x) e new))))
        | inr (r, inr listed, w) ↦ ih.1 (inr (r, listed, w))
      ],
    )

collect_permissions-IsDistinct :
    (rp : Dict (List String)) (acc roles : List String)
    → IsDistinct acc
    → IsDistinct (collect_permissions rp acc roles)
unfolding collect_permissions
collect_permissions-IsDistinct rp acc [] d = d
collect_permissions-IsDistinct rp acc (role ∷ roles) d =
    collect_permissions-IsDistinct rp (add_all acc (roles_of rp role)) roles
      (add_all-IsDistinct acc (roles_of rp role) d)

-- What a successful `Resolve` returns.
pub record IsResolved (e : Engine) (sub : String) (groups roles perms : List String) : Type 0 where
  pub roles_iff :
      (role : String)
      → (role ∈ roles) ↔ (FromGroups e.role_store groups role ⊎ FromUser e.role_store sub role)
  pub perms_iff : (perm : String) → (perm ∈ perms) ↔ FromRoles e.cfg.role_permissions roles perm
  pub roles_sorted : IsSorted roles
  pub perms_sorted : IsSorted perms
  pub roles_distinct : IsDistinct roles
  pub perms_distinct : IsDistinct perms

FromRoles-sort :
    (rp : Dict (List String)) (roles : List String) (perm : String)
    → FromRoles rp roles perm ↔ FromRoles rp (sort roles) perm
FromRoles-sort rp roles perm = (
  λ (role, listed, w). (role, (mem-sort role roles).1 listed, w),
  λ (role, listed, w). (role, (mem-sort role roles).0 listed, w),
)

sort-IsResolved :
    (e : Engine) (sub : String) (groups acc set : List String)
    → collect_roles e.role_store [] groups ≡ ok acc
    → add_user_roles e.role_store sub acc ≡ ok set
    → IsResolved e sub groups (sort set) (sort (collect_permissions e.cfg.role_permissions [] set))
sort-IsResolved e sub groups acc set collected added =
    let rp = e.cfg.role_permissions in
    let distinct =
      add_user_roles-IsDistinct e.role_store sub acc set added
        (collect_roles-IsDistinct e.role_store groups [] acc collected tt) in
    record {
      roles_iff = λ role.
          let sorted = mem-sort role set in
          let user = add_user_roles-mem e.role_store sub acc set role added in
          let group = collect_roles-mem e.role_store groups [] acc role collected in
          (
            λ m. elim (user.0 (sorted.0 m)) [
              | inl a ↦ elim (group.0 a) [ inl none ↦ absurd none | inr w ↦ inl w ]
              | inr w ↦ inr w
            ],
            λ m. elim m [
              | inl w ↦ sorted.1 (user.1 (inl (group.1 (inr w))))
              | inr w ↦ sorted.1 (user.1 (inr w))
            ],
          );
      perms_iff = λ perm.
          let sorted = mem-sort perm (collect_permissions rp [] set) in
          let found = collect_permissions-mem rp [] set perm in
          let same = FromRoles-sort rp set perm in
          (
            λ m. elim (found.0 (sorted.0 m)) [ inl none ↦ absurd none | inr w ↦ same.0 w ],
            λ w. sorted.1 (found.1 (inr (same.1 w))),
          );
      roles_sorted = sort-IsSorted set;
      perms_sorted = sort-IsSorted _;
      roles_distinct = sort-IsDistinct set distinct;
      perms_distinct = sort-IsDistinct _ (collect_permissions-IsDistinct rp [] set tt);
    }

-- When `Resolve` succeeds, the roles are exactly those of the user's groups and those assigned to
-- the user's own `sub`, the permissions are exactly those of the roles, and both lists are sorted
-- and without repetition.
pub resolve-IsResolved :
    (e : Engine) (sub : String) (groups roles perms : List String)
    → resolve e sub groups ≡ ok (roles, perms)
    → IsResolved e sub groups roles perms
unfolding resolve
resolve-IsResolved e sub groups roles perms h =
    let (acc, collected, h1) = >>=-eq-ok (collect_roles e.role_store [] groups) _ h in
    let (set, added, h2) = >>=-eq-ok (add_user_roles e.role_store sub acc) _ h1 in
    let same_roles : sort set ≡ roles = cc in
    let same_perms : sort (collect_permissions e.cfg.role_permissions [] set) ≡ perms = cc in
    subst (λ r. IsResolved e sub groups r perms) same_roles
      (subst (IsResolved e sub groups (sort set)) same_perms
        (sort-IsResolved e sub groups acc set collected added))
