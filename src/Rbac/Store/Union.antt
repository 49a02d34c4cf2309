-- ===== src/Rbac/Store/Union.antt =====
-- The merged store: the union of both sources, without repetition, or the first error.
use fusion_bff.Base.{
  String, List, [], ◌++◌, ◌≡◌, refl, ◌>>=◌, ◌↔◌, ◌⊎◌, arith, Result, ok, err, Error, ◌∈◌,
  IsDistinct, mem-append, mem-add_all, add_all-IsDistinct, string_eq,
}
use fusion_bff.Rbac.Store.{GroupRoleStore, union_strings, merge_roles, merged_store}

pub mem-union_strings :
    (a b : List String) (role : String) → (role ∈ union_strings a b) ↔ ((role ∈ a) ⊎ (role ∈ b))
unfolding union_strings
mem-union_strings a b role = ground (arith, mem-add_all [] (a ++ b) role, mem-append role a b)

-- Both sources answer, and the list is their union without repetition.
abbrev IsUnion : Result (List String) → Result (List String) → List String → Type 0
IsUnion (ok a) (ok b) roles =
    ((role : String) → (role ∈ roles) ↔ ((role ∈ a) ⊎ (role ∈ b))) × IsDistinct roles
IsUnion _ _ roles = ⊥

-- One of the sources fails, with the error.
abbrev FailsWith : Result (List String) → Result (List String) → Error → Type 0
FailsWith (err e) _ e' = e ≡ e'
FailsWith (ok _) (err e) e' = e ≡ e'
FailsWith (ok _) (ok _) e' = ⊥

abbrev pub Merges : Result (List String) → Result (List String) → Result (List String) → Type 0
Merges r s (ok roles) = IsUnion r s roles
Merges r s (err e) = FailsWith r s e

merge_of : (r s : Result (List String)) → Merges r s (r >>= λ a. s >>= λ b. ok (union_strings a b))
unfolding union_strings
merge_of (ok a) (ok b) = (λ role. mem-union_strings a b role, add_all-IsDistinct [] (a ++ b) tt)
merge_of (ok a) (err e) = refl
merge_of (err e) s = refl

-- For every group the merged store answers with the union of the two stores' roles, without
-- repetition; it fails where one of them fails, with the first one's error if both do.
pub merged_store-Merges :
    (static db : GroupRoleStore) (group : String)
    → Merges
        (static.roles_for_group group)
        (db.roles_for_group group)
        ((merged_store static db).roles_for_group group)
unfolding merged_store merge_roles
merged_store-Merges static db group =
    merge_of (static.roles_for_group group) (db.roles_for_group group)
