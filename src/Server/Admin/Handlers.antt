-- ===== src/Server/Admin/Handlers.antt =====
-- What each handler of the owner groups keeps.
use fusion_bff.Base.{
  ℕ, String, List, ◌==◌, Result, ok, err, ◌≡◌, ◌≢◌, ◌⊎◌, inl, inr, arith, is_empty, is_empty_iff,
  Option-cases, Bool-cases, Result-cases,
}
use fusion_bff.Db.Tables.{OwnerGroupRow, Database, find_row, insert_row, delete_returning}
use fusion_bff.Db.OwnerGroups.{
  create_owner_group, create_owner_group_mapping, create_owner_group_member,
  delete_owner_group_mapping, delete_owner_group_member, references, get_owner_group,
}
use fusion_bff.Db.OwnerGroups.Consistent.{Exists, HasId, IsConsistent}
use fusion_bff.Db.OwnerGroups.Statements.{
  create_group, create_mapping, create_member, delete_group, delete_mapping, delete_member, after,
  after-IsConsistent,
}
use fusion_bff.Handler.Admin.{
  post_owner_group, post_owner_group_mapping, post_owner_group_member, delete_by_id,
  delete_group_handler, normal_group, match_value_of,
}
use fusion_bff.Handler.Admin.Names.{valid_owner_group_name}
use fusion_bff.Handler.Admin.Laws.{delete_group_handler-Exists}
use fusion_bff.Handler.Admin.Tables.{remove_owner_group_mapping, remove_owner_group_member}
use fusion_bff.Server.Admin.Kept.{SameOwners}

-- The keys of the owner groups hold, and the default owner group, if there is one, exists.
abbrev pub IsSound : String → Database → Type 0
IsSound default_group db =
    IsConsistent db × ((default_group ≡ "") ⊎ Exists default_group db.owner_groups)

pub same-IsSound :
    (g : String) (db db' : Database) → SameOwners db db' → IsSound g db → IsSound g db'
same-IsSound g db db' (groups, mappings, members) (c, e) = (
  record {
    keyed = rw groups c.keyed;
    mapped = rw (groups, mappings) c.mapped;
    included = rw (groups, members) c.included;
  },
  rw groups e,
)

-- The default group stays where the groups only grow.
with-Exists :
    (g : String) (groups groups' : List OwnerGroupRow)
    → ((g ≡ "") ⊎ Exists g groups)
    → groups' ≡ groups
    → (g ≡ "") ⊎ Exists g groups'
with-Exists g groups groups' e same = rw same e

module _ (link : Result (Unit {0})) (db : Database) (sub : String) (id now : ℕ) (g : String) where
  create_owner_group-Exists :
      (name description : String)
      → ((g ≡ "") ⊎ Exists g db.owner_groups)
      → (g ≡ "") ⊎ Exists g (create_owner_group link db id now name description sub).1.owner_groups
  unfolding create_owner_group insert_row
  create_owner_group-Exists name description e = elim (Result-cases link) [
    | inr (why, broken) ↦ rw (broken, create_owner_group) e
    | inl (_, works) ↦ elim (Option-cases (find_row (λ row. row.name == name) db.owner_groups)) [
      | inr (row, found) ↦ rw (works, create_owner_group, found) e
      | inl absent ↦
          rw (works, create_owner_group, absent)
            (elim e [ inl none_set ↦ inl none_set | inr exists ↦ inr (inr exists) ])
    ]
  ]

  pub post_owner_group-IsSound :
      (body : Result (String × String))
      → ¬ HasId id db.owner_groups
      → IsSound g db
      → IsSound g (post_owner_group link db sub id now body).1
  unfolding post_owner_group after
  post_owner_group-IsSound (err e) fresh s = s
  post_owner_group-IsSound (ok (name, description)) fresh (c, e) =
      elim (Bool-cases (valid_owner_group_name name)) [
        | inl valid ↦
            rw (valid, post_owner_group)
              (
                after-IsConsistent link (create_group id now name description sub) db fresh c,
                create_owner_group-Exists name description e,
              )
        | inr bad ↦ rw (bad, post_owner_group) (c, e)
      ]

  pub post_mapping-IsSound :
      (body : Result (String × String))
      → IsSound g db
      → IsSound g (post_owner_group_mapping link db sub id now body).1
  unfolding post_owner_group_mapping after create_owner_group_mapping insert_row references
  post_mapping-IsSound (err e) s = s
  post_mapping-IsSound (ok (owner_group, oidc_group)) (c, e) =
      elim (Bool-cases (is_empty (normal_group link db sub id now oidc_group))) [
        | inl empty ↦ rw (empty, post_owner_group_mapping) (c, e)
        | inr named ↦
            rw (named, post_owner_group_mapping)
              (
                after-IsConsistent link
                    (create_mapping id now owner_group (normal_group link db sub id now oidc_group)
                      sub)
                    db tt c,
                with-Exists g db.owner_groups _ e (ground arith),
              )
      ]

  pub post_member-IsSound :
      (lower : String → String) (body : Result (String × String × String))
      → IsSound g db
      → IsSound g (post_owner_group_member link db sub id now lower body).1
  unfolding post_owner_group_member after create_owner_group_member insert_row references
  post_member-IsSound lower (err e) s = s
  post_member-IsSound lower (ok (owner_group, match_type, match_value)) (c, e) =
      elim (Result-cases (match_value_of link db sub id now lower match_type match_value)) [
        | inr (why, bad) ↦ rw (bad, post_owner_group_member) (c, e)
        | inl (value, good) ↦
            rw (good, post_owner_group_member)
              (
                after-IsConsistent link (create_member id now owner_group match_type value sub) db
                    tt c,
                with-Exists g db.owner_groups _ e (ground arith),
              )
      ]

module _ (link : Result (Unit {0})) (db : Database) (g : String) where
  pub remove_mapping-IsSound :
      (param : Result ℕ) → IsSound g db → IsSound g (remove_owner_group_mapping link db param).1
  unfolding remove_owner_group_mapping delete_by_id after delete_owner_group_mapping
      delete_returning
  remove_mapping-IsSound (err e) s = s
  remove_mapping-IsSound (ok id) (c, e) = (
    after-IsConsistent link (delete_mapping id) db tt c,
    with-Exists g db.owner_groups _ e (ground arith),
  )

  pub remove_member-IsSound :
      (param : Result ℕ) → IsSound g db → IsSound g (remove_owner_group_member link db param).1
  unfolding remove_owner_group_member delete_by_id after delete_owner_group_member delete_returning
  remove_member-IsSound (err e) s = s
  remove_member-IsSound (ok id) (c, e) = (
    after-IsConsistent link (delete_member id) db tt c,
    with-Exists g db.owner_groups _ e (ground arith),
  )

  delete_group_handler-IsConsistent :
      (param : Result ℕ) → IsConsistent db → IsConsistent (delete_group_handler link db g param).1
  unfolding delete_group_handler delete_by_id after
  delete_group_handler-IsConsistent (err e) c = elim (Bool-cases (is_empty g)) [
    | inl none_set ↦ rw (none_set, delete_group_handler) c
    | inr set ↦ rw (set, delete_group_handler) c
  ]
  delete_group_handler-IsConsistent (ok id) c =
      let deleted = after-IsConsistent link (delete_group id) db tt c in
      elim (Bool-cases (is_empty g)) [
        | inl none_set ↦ rw (none_set, delete_group_handler) deleted
        | inr set ↦ elim (Result-cases (get_owner_group link db id)) [
          | inr (why, failed) ↦ rw (set, failed, delete_group_handler) c
          | inl (answer, read) ↦ elim (Option-cases answer) [
            | inl absent ↦ rw (set, read, absent, delete_group_handler) deleted
            | inr (row, found) ↦ elim (Bool-cases (row.name == g)) [
              | inl default_row ↦ rw (set, read, found, default_row, delete_group_handler) c
              | inr other ↦ rw (set, read, found, other, delete_group_handler) deleted
            ]
          ]
        ]
      ]

  pub delete_group_handler-IsSound :
      (param : Result ℕ) → IsSound g db → IsSound g (delete_group_handler link db g param).1
  delete_group_handler-IsSound param (c, e) = (
    delete_group_handler-IsConsistent param c,
    elim e [
      | inl none_set ↦ inl none_set
      | inr exists ↦ elim (Bool-cases (is_empty g)) [
        | inl none_set ↦ inl ((is_empty_iff g).0 none_set)
        | inr set ↦
            let named : g ≢ "" = λ n. ground (arith, is_empty_iff g) in
            inr (delete_group_handler-Exists link db g param named c.keyed exists)
      ]
    ],
  )
