-- ===== src/Proxy/Tests.antt =====
-- A forged identity that the proxy removes, and instances of the theorems.
use fusion_bff.Base.{
  String, none, some, List, [], ◌∷◌, ◌≡◌, refl, ◌⊎◌, lookup, insert, delete, is_empty, join, split,
  cut_prefix, trim_prefix, has_char,
}
use Prim.Native.String.{◌∷◌}
use fusion_bff.Proxy.{
  ProxyContext, no_context, Header, plain, bearer, set_from, set_user_context, with_slash,
  strip_path, strip_raw_path, strip_identity, rewrite_header, rewrite,
}
use fusion_bff.Proxy.Headers.{sent, rewrite_header-identity}
use fusion_bff.Proxy.Groups.{groups_in, groups_in-rewrite_header}
use fusion_bff.Proxy.Paths.{IsRooted, rewrite-IsRooted}

program : Unit {0}
unfolding lookup insert delete is_empty join split cut_prefix trim_prefix has_char set_from
    set_user_context with_slash strip_path strip_raw_path strip_identity rewrite_header rewrite
program = tt

abbrev forged : Header
forged = ("X-User-Id", "root" ∷ []) ∷ ("X-User-Groups", "admins" ∷ []) ∷ ("Accept", "*/*" ∷ []) ∷ []

abbrev context : ProxyContext
context = record no_context { user_id = some "u1"; sa_token = some "sa" }

abbrev accept : String
accept = "Accept"

sends :
    (lookup "X-User-Id" (rewrite_header context forged) ≡ some ("u1" ∷ []))
    × (lookup "X-User-Groups" (rewrite_header context forged) ≡ none)
    × (lookup "Authorization" (rewrite_header context forged) ≡ some ("Bearer sa" ∷ []))
    × ((rewrite "/api/forge" context "/api/forge/x" "" forged).path ≡ "/x")
unfolding program
sends = (refl, refl, refl, refl)

rewrite_header-identity_example :
    (lookup "X-User-Id" (rewrite_header context forged) ≡ sent plain context.user_id)
    × (lookup "X-User-Email" (rewrite_header context forged) ≡ sent plain context.user_email)
    × (lookup "X-User-Groups" (rewrite_header context forged) ≡ sent plain context.user_groups)
    × (lookup "Authorization" (rewrite_header context forged) ≡ sent bearer context.sa_token)
rewrite_header-identity_example = rewrite_header-identity context forged

rewrite-IsRooted_example :
    IsRooted (rewrite "/api/forge" context "/api/forge/x" "/api/forge/%2f" forged).path
    × (((rewrite "/api/forge" context "/api/forge/x" "/api/forge/%2f" forged).raw_path ≡ "")
        ⊎ IsRooted (rewrite "/api/forge" context "/api/forge/x" "/api/forge/%2f" forged).raw_path)
rewrite-IsRooted_example =
    rewrite-IsRooted "/api/forge" context "/api/forge/x" "/api/forge/%2f" forged

abbrev teams : List String
teams = "a" ∷ "team" ∷ []

groups_in-rewrite_header_example :
    groups_in
      (lookup "X-User-Groups" (rewrite_header (set_user_context no_context "u1" "" teams) forged))
    ≡ teams
unfolding program
groups_in-rewrite_header_example =
    groups_in-rewrite_header no_context "u1" "" teams forged ((refl, refl), ((refl, refl), tt))
