-- ===== src/Db/Roles/Laws.antt =====
-- What the assignments mean to the readers of the tables.
use fusion_bff.Base.{
  String, Bool, true, false, Option, some, List, [], ◌∷◌, ◌++◌, ◌==◌, if◌then◌else◌, Dict, lookup,
  insert, lookup-insert, ok, ◌≡◌, refl, sym, ap, subst, ◌∙◌, ◌↔◌, ◌⊎◌, inl, inr, ◌∈◌, arith, eq_iff,
  mem-append,
}
use fusion_bff.Db.Tables.{GroupRoleRow, Database}
use fusion_bff.Db.Roles.{or_nil, roles_at, collect_group_roles, load_all_group_roles}

-- A row assigns the role to the group.
abbrev pub Assigns : String → String → List GroupRoleRow → Type 0
Assigns group role [] = ⊥
Assigns group role (r ∷ rows) =
    ((r.group_name ≡ group) × (r.role_name ≡ role)) ⊎ Assigns group role rows

or_nil-if :
    (b : Bool) (roles : List String) (o : Option (List String))
    → or_nil (if b then some roles else o) ≡ (if b then roles else or_nil o)
or_nil-if true roles o = refl
or_nil-if false roles o = refl

roles_at-insert :
    (k group : String) (roles : List String) (m : Dict (List String))
    → roles_at (insert k roles m) group ≡ (if k == group then roles else roles_at m group)
unfolding roles_at
roles_at-insert k group roles m =
    ap or_nil (lookup-insert k group roles m) ∙ or_nil-if (k == group) roles (lookup group m)

-- Appending a role to those of the first group.
mem-append_role :
    (same : Bool) (a group role role' : String) (m : Dict (List String))
    → (same ≡ true) ↔ (a ≡ group)
    → (role ∈ (if same then roles_at m a ++ (role' ∷ []) else roles_at m group))
      ↔ ((role ∈ roles_at m group) ⊎ ((a ≡ group) × (role' ≡ role)))
mem-append_role true a group role role' m iff =
    let e = iff.0 refl in
    let app = mem-append role (roles_at m a) (role' ∷ []) in
    (
      λ h. elim (app.0 h) [
        | inl old ↦ inl (subst (λ g. role ∈ roles_at m g) e old)
        | inr (inl new) ↦ inr (e, sym new)
        | inr (inr never) ↦ absurd never
      ],
      λ w. elim w [
        | inl old ↦ app.1 (inl (subst (λ g. role ∈ roles_at m g) (sym e) old))
        | inr (_, new) ↦ app.1 (inr (inl (sym new)))
      ],
    )
mem-append_role false a group role role' m iff =
    (inl, λ w. elim w [ inl old ↦ old | inr (e, _) ↦ cc (iff.1 e) ])

mem-collect_group_roles :
    (m : Dict (List String)) (rows : List GroupRoleRow) (group role : String)
    → (role ∈ roles_at (collect_group_roles m rows) group)
      ↔ ((role ∈ roles_at m group) ⊎ Assigns group role rows)
unfolding collect_group_roles
mem-collect_group_roles m [] group role = ground arith
mem-collect_group_roles m (r ∷ rows) group role =
    let added = roles_at m r.group_name ++ (r.role_name ∷ []) in
    let ih = mem-collect_group_roles (insert r.group_name added m) rows group role in
    let head =
      mem-append_role (r.group_name == group) r.group_name group role r.role_name m
        (eq_iff r.group_name group) in
    let ih' = rw (roles_at-insert r.group_name group added m) at ih in
    (
      λ h. elim (ih'.0 h) [
        | inl first ↦ elim (head.0 first) [ inl old ↦ inl old | inr new ↦ inr (inl new) ]
        | inr later ↦ inr (inr later)
      ],
      λ w. elim w [
        | inl old ↦ ih'.1 (inl (head.1 (inl old)))
        | inr (inl new) ↦ ih'.1 (inl (head.1 (inr new)))
        | inr (inr later) ↦ ih'.1 (inr later)
      ],
    )

-- The roles of a group, as the map that the database source reads, are those that some row assigns
-- to the group.
pub load_all_group_roles_iff :
    (db : Database) (group role : String)
    → (m : Dict (List String)) × (load_all_group_roles (ok tt) db ≡ ok m)
      × ((role ∈ roles_at m group) ↔ Assigns group role db.group_roles)
unfolding load_all_group_roles roles_at lookup
load_all_group_roles_iff db group role = (
  collect_group_roles [] db.group_roles,
  refl,
  (
    λ h. elim ((mem-collect_group_roles [] db.group_roles group role).0 h) [
      | inl n ↦ absurd n
      | inr w ↦ w
    ],
    λ w. (mem-collect_group_roles [] db.group_roles group role).1 (inr w),
  ),
)
