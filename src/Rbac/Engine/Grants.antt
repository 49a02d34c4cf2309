-- ===== src/Rbac/Engine/Grants.antt =====
-- Resource-scoped permissions: each row grants its own permission and those implied by it.
use fusion_bff.Base.{
  String, List, [], ◌∷◌, map, ◌≡◌, refl, ◌↔◌, ◌⊎◌, inl, inr, ap, ◌∙◌, subst, some, Dict, ok, ◌∈◌,
  IsDistinct, add_new, mem-add_new, mem-add_all, add_new-IsDistinct, add_all-IsDistinct,
}
use fusion_bff.Db.{Pool, ResourcePermRow}
use fusion_bff.Session.{ResourcePermission, permission_eq}
use fusion_bff.Rbac.Store.{roles_of}
use fusion_bff.Rbac.Engine.{Engine, grant_on, add_row, add_rows, resolve_resource_permissions}

-- The row grants the permission on its resource: its own permission, or one that is implied by it.
abbrev pub Grants : Dict (List String) → ResourcePermRow → ResourcePermission → Type 0
Grants implies row grant =
    (perm : String) × ((perm ≡ row.permission) ⊎ (perm ∈ roles_of implies row.permission))
    × (grant ≡ grant_on row perm)

mem-map :
    {A B : Type 0} (f : A → B) (xs : List A) (b : B)
    → (b ∈ map f xs) ↔ ((a : A) × (a ∈ xs) × (b ≡ f a))
mem-map f [] b = (λ m. absurd m, λ w. absurd w.1)
mem-map f (x ∷ xs) b = (
  λ m. elim m [
    | inl e ↦ (x, inl refl, e)
    | inr later ↦ let (a, listed, e) = (mem-map f xs b).0 later in (a, inr listed, e)
  ],
  λ (a, listed, e). elim listed [
    | inl same ↦ inl (rw (← same) e)
    | inr later ↦ inr ((mem-map f xs b).1 (a, later, e))
  ],
)

module _ (implies : Dict (List String)) where
  mem-add_row :
      (acc : List ResourcePermission) (row : ResourcePermRow) (grant : ResourcePermission)
      → (grant ∈ add_row implies acc row) ↔ ((grant ∈ acc) ⊎ Grants implies row grant)
  unfolding add_row
  mem-add_row acc row grant =
      let own = grant_on row row.permission in
      let implied = map (grant_on row) (roles_of implies row.permission) in
      let all = mem-add_all (add_new acc own) implied grant in
      let new = mem-add_new acc own grant in
      let mapped = mem-map (grant_on row) (roles_of implies row.permission) grant in
      (
        λ m. elim (all.0 m) [
          | inl n ↦ elim (new.0 n) [ inl old ↦ inl old | inr e ↦ inr (row.permission, inl refl, e) ]
          | inr i ↦ let (perm, listed, e) = mapped.0 i in inr (perm, inr listed, e)
        ],
        λ m. elim m [
          | inl old ↦ all.1 (inl (new.1 (inl old)))
          | inr (perm, inl same, e) ↦ all.1 (inl (new.1 (inr (e ∙ ap (grant_on row) same))))
          | inr (perm, inr listed, e) ↦ all.1 (inr (mapped.1 (perm, listed, e)))
        ],
      )

  -- One of the rows grants the permission.
  abbrev pub Granted : List ResourcePermRow → ResourcePermission → Type 0
  Granted rows grant = (row : ResourcePermRow) × (row ∈ rows) × Grants implies row grant

  mem-add_rows :
      (acc : List ResourcePermission) (rows : List ResourcePermRow) (grant : ResourcePermission)
      → (grant ∈ add_rows implies acc rows) ↔ ((grant ∈ acc) ⊎ Granted rows grant)
  unfolding add_rows
  mem-add_rows acc [] grant = (inl, λ m. elim m [ inl old ↦ old | inr w ↦ absurd w.1 ])
  mem-add_rows acc (row ∷ rows) grant =
      let ih = mem-add_rows (add_row implies acc row) rows grant in
      let here = mem-add_row acc row grant in
      (
        λ m. elim (ih.0 m) [
          | inl now ↦ elim (here.0 now) [ inl old ↦ inl old | inr new ↦ inr (row, inl refl, new) ]
          | inr (r, listed, w) ↦ inr (r, inr listed, w)
        ],
        λ m. elim m [
          | inl old ↦ ih.1 (inl (here.1 (inl old)))
          | inr (r, inl e, w) ↦ ih.1 (inl (here.1 (inr (subst (λ x. Grants implies x grant) e w))))
          | inr (r, inr listed, w) ↦ ih.1 (inr (r, listed, w))
        ],
      )

  add_rows-IsDistinct :
      (acc : List ResourcePermission) (rows : List ResourcePermRow)
      → IsDistinct acc
      → IsDistinct (add_rows implies acc rows)
  unfolding add_rows add_row
  add_rows-IsDistinct acc [] d = d
  add_rows-IsDistinct acc (row ∷ rows) d = add_rows-IsDistinct (add_row implies acc row) rows (
      add_all-IsDistinct (add_new acc (grant_on row row.permission))
        (map (grant_on row) (roles_of implies row.permission))
        (add_new-IsDistinct acc (grant_on row row.permission) d))

-- With a database, the grants are exactly those of the rows that the database answers: for each
-- row its own permission and the permissions that the configuration lists under it, on the row's
-- resource; an implied permission implies nothing further. No grant is repeated.
pub resolve_resource_permissions_iff :
    (e : Engine) (pool : Pool) (sub : String) (groups roles : List String)
    (rows : List ResourcePermRow) (grants : List ResourcePermission)
    → e.pool ≡ some pool
    → pool.load_resource_perms_for_user sub groups roles ≡ ok rows
    → resolve_resource_permissions e sub groups roles ≡ ok grants
    → ((grant : ResourcePermission)
        → (grant ∈ grants) ↔ Granted e.cfg.permission_implies rows grant)
      × IsDistinct grants
unfolding resolve_resource_permissions
resolve_resource_permissions_iff e pool sub groups roles rows grants has loaded h =
    let implies = e.cfg.permission_implies in
    let answered : ok (add_rows implies [] rows) ≡ ok grants =
      rw loaded at (rw (has, resolve_resource_permissions) at h) in
    let same : add_rows implies [] rows ≡ grants = cc in
    rw (← same) (
      λ grant.
          let found = mem-add_rows implies [] rows grant in
          (λ m. elim (found.0 m) [ inl none ↦ absurd none | inr w ↦ w ], λ w. found.1 (inr w)),
      add_rows-IsDistinct implies [] rows tt,
    )
