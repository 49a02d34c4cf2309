-- ===== src/Session.antt =====
-- internal/session/session.go: sessions and the in-memory store with its pending login states.
-- Times and durations are numbers of nanoseconds.
pub mod Calls
pub mod Cookie
pub mod Invariant
pub mod Pending
pub mod Updates
mod Tests
use Prim.Native.String
use fusion_bff.Base.{
  ℕ, ◌+◌, ◌*◌, String, Bool, true, not, ◌||◌, ◌&&◌, Option, none, some, List, [], ◌==◌, ◌≡◌, ◌↔◌,
  ltb, arith, eq_iff, if◌then◌else◌, Dict, lookup, insert, delete, delete_if, Result, ok, err,
  Error, plain, has_char, after_first, before_last, Eq,
}

-- `ResourcePermission`
pub record ResourcePermission : Type 0 where
  pub permission : String
  pub resource_type : String
  pub resource_id : String

-- Equality of the struct: all three fields.
abbrev pub same_permission : ResourcePermission → ResourcePermission → Bool
same_permission p q =
    p.permission == q.permission
    && p.resource_type == q.resource_type
    && p.resource_id == q.resource_id

pub same_permission_iff : (p q : ResourcePermission) → (same_permission p q ≡ true) ↔ (p ≡ q)
same_permission_iff p q = ground (
  arith,
  eq_iff p.permission q.permission,
  eq_iff p.resource_type q.resource_type,
  eq_iff p.resource_id q.resource_id,
)

instance abbrev pub permission_eq : Eq ResourcePermission
permission_eq = record { beq = same_permission; beq_iff = same_permission_iff }

-- `Session`
pub record Session : Type 0 where
  pub id : String
  pub sub : String
  pub user_id : String
  pub email : String
  pub name : String
  pub groups : List String
  pub roles : List String
  pub permissions : List String
  pub resource_permissions : List ResourcePermission
  pub owner_groups : List String
  pub preferred_owner_group : String
  pub access_token : String
  pub refresh_token : String
  pub id_token : String
  pub expires_at : ℕ
  pub created_at : ℕ

-- `pendingEntry`
pub record PendingEntry : Type 0 where
  pub verifier : String
  pub expires_at : ℕ

-- `InMemoryStore`, without its locks: each method runs alone.
pub record SessionStore : Type 0 where
  pub max_age : ℕ
  pub state_ttl : ℕ
  pub sessions : Dict Session
  pub pending : Dict PendingEntry

-- `ErrNotFound`
abbrev pub not_found : Error
not_found = plain "session: not found"

abbrev pub second : ℕ
second = 1_000_000_000

abbrev pub minute : ℕ
minute = 60 * second

-- `NewInMemoryStore`
unfoldable pub new_store : ℕ → SessionStore
new_store max_age = record {
  max_age = max_age;
  state_ttl = 5 * minute;
  sessions = [];
  pending = [];
}

-- `Create`, with what `GenerateSID` returned.
unfoldable pub create : Result String → ℕ → Session → SessionStore → Result String × SessionStore
create (err e) now sess s = (err e, s)
create (ok id) now sess s = (
  ok id,
  record s { sessions = insert id (record sess { id = id; created_at = now }) s.sessions },
)

-- `Get`
unfoldable pub get : String → SessionStore → Result Session
get id s = elim (lookup id s.sessions) [ none ↦ err not_found | some sess ↦ ok sess ]

-- `Update`: nil or `ErrNotFound`.
unfoldable pub update : Session → SessionStore → Result (Unit {0}) × SessionStore
update sess s = elim (lookup sess.id s.sessions) [
  | none ↦ (err not_found, s)
  | some _ ↦ (ok tt, record s { sessions = insert sess.id sess s.sessions })
]

-- `Delete`
unfoldable pub delete_session : String → SessionStore → SessionStore
delete_session id s = record s { sessions = delete id s.sessions }

-- `SavePending`
unfoldable pub save_pending : ℕ → String → String → SessionStore → SessionStore
save_pending now state verifier s = record s {
  pending = insert state (record { verifier = verifier; expires_at = now + s.state_ttl }) s.pending;
}

-- `TakePending`: the verifier, if the state is known and not expired; the entry goes in any case.
unfoldable pub take_pending : ℕ → String → SessionStore → Option String × SessionStore
take_pending now state s =
    let s' = record s { pending = delete state s.pending } in
    elim (lookup state s.pending) [
      | none ↦ (none, s')
      | some entry ↦ if ltb entry.expires_at now then (none, s') else (some entry.verifier, s')
    ]

-- The test of `Reap` on a session.
abbrev pub is_stale : ℕ → ℕ → Session → Bool
is_stale max_age now sess = ltb (sess.created_at + max_age) now

-- The test of `Reap` on a pending state.
abbrev pub is_expired : ℕ → PendingEntry → Bool
is_expired now entry = ltb entry.expires_at now

-- `Reap`
unfoldable pub reap : ℕ → SessionStore → SessionStore
reap now s = record s {
  sessions = delete_if (is_stale s.max_age now) s.sessions;
  pending = delete_if (is_expired now) s.pending;
}

-- `CookieDomain`, and the copy `resolvedCookieDomain` of the login handler.
unfoldable pub cookie_domain : String → String → String
cookie_domain configured request_host =
    if not (configured == "auto")
    then configured
    else (let host = before_last b':' request_host in
        if host == "localhost" || not (has_char b'.' host)
        then ""
        else String.◌++◌ "." (after_first b'.' host))
