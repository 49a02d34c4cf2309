-- ===== src/Handler.antt =====
-- internal/api/handler/helpers.go and the replies of the handlers. The log lines are left out.
pub mod Auth
pub mod Preferences
pub mod Admin
pub mod SystemHealth
mod Tests
use fusion_bff.Base.{
  ℕ, String, Bool, true, false, Option, none, some, List, [], ◌==◌, Error, pg, wrapped, plain,
  no_rows,
}
use fusion_bff.Session.{Session}

-- What a handler writes: an error in JSON, a redirect, a value in JSON, or a status alone.
pub data Reply (A : Type 0) : Type 0 where
  abort : ℕ → String → Reply A
  redirect : String → Reply A
  json : ℕ → A → Reply A
  status : ℕ → Reply A

-- `internalError`
abbrev pub internal_error : {A : Type 0} → Reply A
internal_error = abort 500 "internal error"

-- The SQLSTATE that `errors.As` finds in the chain of an error.
unfoldable pub pg_code : Error → Option String
pg_code (pg code) = some code
pg_code (plain _) = none
pg_code no_rows = none
pg_code (wrapped _ e) = pg_code e

abbrev is_code : String → Option String → Bool
is_code code none = false
is_code code (some c) = c == code

-- `isUniqueViolation`
unfoldable pub is_unique_violation : Error → Bool
is_unique_violation e = is_code "23505" (pg_code e)

-- `actor`
pub record Actor : Type 0 where
  pub sub : String
  pub name : String
  pub groups : List String

-- `actorFromCtx`
unfoldable pub actor_from_ctx : Option Session → Actor
actor_from_ctx none = record { sub = ""; name = ""; groups = [] }
actor_from_ctx (some sess) = record { sub = sess.sub; name = sess.name; groups = sess.groups }
