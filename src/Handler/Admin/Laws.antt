-- ===== src/Handler/Admin/Laws.antt =====
-- The guards of the admin handlers.
use fusion_bff.Base.{
  ℕ, String, false, none, some, ◌==◌, eq_iff, is_empty, is_empty_iff, Result, ok, err, ◌≡◌, sym, ap,
  ◌∙◌, ◌≢◌, inl, inr, arith, Bool-cases, Option-cases, Result-cases,
}
use fusion_bff.Db.Tables.{Database, OwnerGroupRow, find_row, scan_row}
use fusion_bff.Db.OwnerGroups.{delete_owner_group, get_owner_group, cascade}
use fusion_bff.Db.OwnerGroups.Consistent.{
  Exists, IsKeyed, same_id, delete-Exists, drop_rows-Exists, find_row-HasId,
}
use fusion_bff.Handler.Admin.{delete_by_id, delete_group_handler}

delete_owner_group-Exists :
    (link : Result (Unit {0})) (db : Database) (name : String) (id : ℕ)
    → IsKeyed db.owner_groups
    → ((g : OwnerGroupRow) → get_owner_group link db id ≡ ok (some g) → g.name ≢ name)
    → Exists name db.owner_groups
    → Exists name (delete_owner_group link db id).1.owner_groups
unfolding delete_owner_group get_owner_group scan_row cascade
delete_owner_group-Exists (err e) db name id k f x = x
delete_owner_group-Exists (ok _) db name id k f x =
    elim (Option-cases (find_row (same_id id) db.owner_groups)) [
      | inl absent ↦
          rw (absent, cascade)
            (drop_rows-Exists id name db.owner_groups (find_row-HasId id db.owner_groups absent) x)
      | inr (g, found) ↦
          rw (found, cascade)
            (delete-Exists id name g.name db.owner_groups k
              (λ g' h. (let same : g' ≡ g = cc in ap (λ r. r.name) same))
              (λ e. f g (ap ok found) (sym e)) x)
    ]

-- The handler never deletes the default owner group, whatever id it is given: if a default group is
-- configured and exists, it exists afterwards.
pub delete_group_handler-Exists :
    (link : Result (Unit {0})) (db : Database) (default_group : String) (param : Result ℕ)
    → default_group ≢ ""
    → IsKeyed db.owner_groups
    → Exists default_group db.owner_groups
    → Exists default_group (delete_group_handler link db default_group param).1.owner_groups
unfolding delete_group_handler delete_by_id
delete_group_handler-Exists link db default_group (err e) n k x =
    ground (arith, is_empty_iff default_group)
delete_group_handler-Exists link db default_group (ok id) n k x =
    let named : is_empty default_group ≡ false = ground (arith, is_empty_iff default_group) in
    elim (Result-cases (get_owner_group link db id)) [
      | inr (e, failed) ↦ rw (named, failed, delete_group_handler) x
      | inl (none, found) ↦
          rw (named, found, delete_group_handler)
            (delete_owner_group-Exists link db default_group id k (λ g h. cc) x)
      | inl (some row, found) ↦ elim (Bool-cases (row.name == default_group)) [
        | inl same ↦ rw (named, found, same, delete_group_handler) x
        | inr other ↦
            rw (named, found, other, delete_group_handler)
              (delete_owner_group-Exists link db default_group id k
                (λ g h e.
                  (let same : row ≡ g = cc in
                    let e' = (eq_iff row.name default_group).1 (ap (λ r. r.name) same ∙ e) in cc))
                x)
      ]
    ]
