-- ===== src/Rbac/Engine/Tables.antt =====
-- The engine over the tables: what the owner groups of a user come to.
use fusion_bff.Base.{String, List, some, ok, ◌∈◌, ◌≡◌, ◌≢◌, ◌↔◌, ◌⊎◌, arith}
use fusion_bff.Db.Tables.{Database}
use fusion_bff.Db.Pools.{pool_of}
use fusion_bff.Db.OwnerGroups.Laws.{Maps, Includes, load_owner_groups_for_user-mem}
use fusion_bff.Rbac.Engine.{Engine, load_owner_groups, resolve_owner_groups}
use fusion_bff.Rbac.Engine.Owners.{resolve_owner_groups-mem}

-- An engine on the tables, over a connection that works, resolves for a user exactly the owner groups
-- that a mapping gives to one of the user's OIDC groups, those that have the user as a member by
-- email or by user id, and the default group, if one is configured.
pub resolve_owner_groups_iff :
    (e : Engine) (db : Database) (lower : String → String) (user_id email : String)
    (oidc groups : List String)
    → e.owner_pool ≡ some (pool_of (ok tt) lower db)
    → resolve_owner_groups e user_id email oidc ≡ ok groups
    → (name : String)
    → (name ∈ groups) ↔ (
        (Maps oidc name db.mappings ⊎ Includes lower user_id email name db.members)
        ⊎ ((e.default_owner_group ≢ "") × (name ≡ e.default_owner_group)))
unfolding pool_of
resolve_owner_groups_iff e db lower user_id email oidc groups pool resolved name =
    let (stored, loaded, iff) = load_owner_groups_for_user-mem db lower user_id email oidc in
    let loaded' : load_owner_groups e.owner_pool user_id email oidc ≡ ok stored = rw pool loaded in
    let mem = resolve_owner_groups-mem e user_id email oidc stored groups loaded' resolved in
    ground (arith, mem name, iff name)
