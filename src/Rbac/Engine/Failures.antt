-- ===== src/Rbac/Engine/Failures.antt =====
-- `Resolve` fails exactly when a role store that it asks fails.
use fusion_bff.Base.{
  String, List, [], ◌∷◌, ◌≡◌, refl, ◌≢◌, ◌↔◌, inl, inr, is_empty, is_empty_iff, Result, ok,
  >>=-eq-ok, Bool-cases, ◌∈◌, add_all, sort, string_eq,
}
use fusion_bff.Rbac.Store.{GroupRoleStore}
use fusion_bff.Rbac.Engine.{Engine, collect_roles, add_user_roles, collect_permissions, resolve}

abbrev pub Succeeds : {A : Type 0} → Result A → Type 0
Succeeds {A} r = (a : A) × (r ≡ ok a)

module _ (store : GroupRoleStore) where
  -- The store answers for every group, and for the user where `sub` is known.
  abbrev pub AnswersAll : List String → Type 0
  AnswersAll groups = (group : String) → group ∈ groups → Succeeds (store.roles_for_group group)

  abbrev pub AnswersUser : String → Type 0
  AnswersUser sub = sub ≢ "" → Succeeds (store.roles_for_user sub)

  collect_roles_iff :
      (groups acc : List String) → Succeeds (collect_roles store acc groups) ↔ AnswersAll groups
  unfolding collect_roles
  collect_roles_iff [] acc = (λ _ g m. absurd m, λ _. (acc, refl))
  collect_roles_iff (group ∷ groups) acc = (
    λ (out, h).
        let (rs, asked, rest) = >>=-eq-ok (store.roles_for_group group) _ h in
        λ g m. elim m [
          | inl e ↦ rw e (rs, asked)
          | inr listed ↦ (collect_roles_iff groups (add_all acc rs)).0 (out, rest) g listed
        ],
    λ all.
        let (rs, asked) = all group (inl refl) in
        let (out, rest) = (collect_roles_iff groups (add_all acc rs)).1 (λ g m. all g (inr m)) in
        (out, rw asked rest),
  )

  add_user_roles_iff :
      (sub : String) (acc : List String) → Succeeds (add_user_roles store sub acc) ↔ AnswersUser sub
  unfolding add_user_roles
  add_user_roles_iff sub acc = elim (Bool-cases (is_empty sub)) [
    | inl e ↦ rw e (λ _ n. absurd (n ((is_empty_iff sub).0 e)), λ _. (acc, refl))
    | inr n ↦ rw n (
      λ (out, h).
          let (rs, asked, _) = >>=-eq-ok (store.roles_for_user sub) (λ rs. ok (add_all acc rs)) h in
          λ _. (rs, asked),
      λ all.
          let (rs, asked) = all (λ e. absurd (cc ((is_empty_iff sub).1 e))) in
          (add_all acc rs, rw asked refl),
    )
  ]

-- `Resolve` succeeds exactly when the role store answers for each of the groups and, unless `sub`
-- is empty, for the user.
pub resolve-Succeeds_iff :
    (e : Engine) (sub : String) (groups : List String)
    → Succeeds (resolve e sub groups)
      ↔ (AnswersAll e.role_store groups × AnswersUser e.role_store sub)
unfolding resolve
resolve-Succeeds_iff e sub groups = (
  λ (out, h).
      let (acc, collected, h1) = >>=-eq-ok (collect_roles e.role_store [] groups) _ h in
      let (set, added, _) = >>=-eq-ok (add_user_roles e.role_store sub acc) _ h1 in
      (
        (collect_roles_iff e.role_store groups []).0 (acc, collected),
        (add_user_roles_iff e.role_store sub acc).0 (set, added),
      ),
  λ (all, user).
      let (acc, collected) = (collect_roles_iff e.role_store groups []).1 all in
      let (set, added) = (add_user_roles_iff e.role_store sub acc).1 user in
      let perms = sort (collect_permissions e.cfg.role_permissions [] set) in
      ((sort set, perms), rw collected (rw added refl)),
)
