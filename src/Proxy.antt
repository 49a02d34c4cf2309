-- ===== src/Proxy.antt =====
-- internal/proxy/upstream.go: what the proxy sends to an upstream service. Header names are in the
-- canonical form that net/http gives them; the reverse proxy itself is a parameter.
pub mod Headers
pub mod Groups
pub mod Paths
mod Tests
use Prim.Native.String
use Prim.Native.String.{[], ◌∷◌}
use fusion_bff.Base.{
  ℕ, code, String, Option, none, some, List, [], ◌∷◌, Dict, insert, delete, Result, ok, err,
  if◌then◌else◌, eqb, is_empty, trim_prefix, join,
}

-- The values that the program stores in the request's context, absent until they are set.
pub record ProxyContext : Type 0 where
  pub user_id : Option String
  pub user_email : Option String
  pub user_groups : Option String
  pub sa_token : Option String

abbrev pub no_context : ProxyContext
no_context = record { user_id = none; user_email = none; user_groups = none; sa_token = none }

-- `SetUserContext`
unfoldable pub set_user_context : ProxyContext → String → String → List String → ProxyContext
set_user_context ctx user_id email owner_groups = record ctx {
  user_id = some user_id;
  user_email = some email;
  user_groups = some (join "," owner_groups);
}

-- A header map: each name with its values.
abbrev pub Header : Type 0
Header = Dict (List String)

abbrev pub plain : String → String
plain v = v

abbrev pub bearer : String → String
bearer tok = String.◌++◌ "Bearer " tok

-- `Header.Set` of a context value, if it is present and not empty.
unfoldable pub set_from : String → (String → String) → Option String → Header → Header
set_from name shape none h = h
set_from name shape (some v) h = if is_empty v then h else insert name (shape v ∷ []) h

-- Puts a slash in front, unless one stands there.
unfoldable pub with_slash : String → String
with_slash [] = "/"
with_slash (c ∷ s) = if eqb (code c) b'/' then c ∷ s else "/" ∷ c ∷ s

-- The paths of `Rewrite`: the prefix goes, and a slash stands in front.
unfoldable pub strip_path : String → String → String
strip_path prefix path = with_slash (trim_prefix path prefix)

-- A raw path is only rewritten where the request has one.
unfoldable pub strip_raw_path : String → String → String
strip_raw_path prefix raw_path = if is_empty raw_path then "" else strip_path prefix raw_path

-- The headers that the client must not choose.
unfoldable pub strip_identity : Header → Header
strip_identity h =
    delete "Authorization" (delete "X-User-Groups" (delete "X-User-Email" (delete "X-User-Id" h)))

-- The headers of `Rewrite`.
unfoldable pub rewrite_header : ProxyContext → Header → Header
rewrite_header ctx h = set_from "X-User-Groups" plain ctx.user_groups (
    set_from "X-User-Email" plain ctx.user_email (
      set_from "X-User-Id" plain ctx.user_id
        (set_from "Authorization" bearer ctx.sa_token (strip_identity h))))

-- What is sent upstream.
pub record Upstream : Type 0 where
  pub path : String
  pub raw_path : String
  pub header : Header

-- `Rewrite`, without the target's address.
unfoldable pub rewrite : String → ProxyContext → String → String → Header → Upstream
rewrite prefix ctx path raw_path h = record {
  path = strip_path prefix path;
  raw_path = strip_raw_path prefix raw_path;
  header = rewrite_header ctx h;
}

-- `ModifyResponse`: the upstream's CORS headers go.
unfoldable pub modify_response : Header → Header
modify_response h = delete "Access-Control-Max-Age" (
    delete "Access-Control-Expose-Headers" (
      delete "Access-Control-Allow-Headers" (
        delete "Access-Control-Allow-Methods"
          (delete "Access-Control-Allow-Credentials" (delete "Access-Control-Allow-Origin" h)))))

-- The answer of the proxy's handler: a refusal with its status, or the request sent upstream.
pub data Handled : Type 0 where
  refused : ℕ → String → Handled
  forwarded : Upstream → Handled

-- `Handler`, with what the token provider answered.
unfoldable pub handle : Result String → String → ProxyContext → String → String → Header → Handled
handle (err e) prefix ctx path raw_path h = refused 502 "upstream unavailable"
handle (ok tok) prefix ctx path raw_path h =
    forwarded (rewrite prefix (record ctx { sa_token = some tok }) path raw_path h)
