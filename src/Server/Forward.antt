-- ===== src/Server/Forward.antt =====
-- internal/api/router.go: a request below /api, through `APIAuth` and the handler of a proxy.
mod Tests
use Prim.Native.String
use fusion_bff.Base.{
  ℕ, String, Bool, true, false, Option, none, some, List, [], ◌∷◌, Result, ok, err, lookup, ◌≡◌,
  refl, sym, ap, ◌∙◌, ◌↔◌, ◌⊎◌, inl, inr, Result-cases, Option-cases, join, Bool-cases, subst,
}
use fusion_bff.Session.{Session, SessionStore, get}
use fusion_bff.Oidc.{UserClaims}
use fusion_bff.Rbac.Route.{match_route}
use fusion_bff.Rbac.Engine.{Engine}
use fusion_bff.Proxy.{
  ProxyContext, Upstream, Header, Handled, forwarded, plain, bearer, handle, rewrite,
  set_user_context,
}
use fusion_bff.Proxy.Headers.{sent, rewrite_header-identity}
use fusion_bff.Middleware.{Request, Outcome, denied, passes, CookieConfig, session_id}
use fusion_bff.Middleware.ApiAuth.{OauthToken, api_auth}
use fusion_bff.Middleware.ApiAuth.Permissions.{MaySession}
use fusion_bff.Middleware.ApiAuth.Allowed.{LiveSession, StaysAlive, session_context, api_auth_iff}

-- Where a request ends: in the middleware, or in the handler of the proxy.
pub data Ended : Type 0 where
  rejected : ℕ → String → Ended
  proxied : Handled → Ended

-- The handler runs where the middleware lets the request pass.
abbrev pub finish : (ProxyContext → Handled) → Outcome ProxyContext → Ended
finish handler (denied code message) = rejected code message
finish handler (passes ctx) = proxied (handler ctx)

handled_of : {a b : Handled} → proxied a ≡ proxied b → a ≡ b
handled_of e = cc

upstream_of : {a b : Upstream} → forwarded a ≡ forwarded b → a ≡ b
upstream_of e = cc

handle-forwarded :
    (sa_token : Result String) (prefix : String) (ctx : ProxyContext) (path raw_path : String)
    (header : Header) (up : Upstream)
    → handle sa_token prefix ctx path raw_path header ≡ forwarded up
    → (tok : String) × (sa_token ≡ ok tok)
      × (rewrite prefix (record ctx { sa_token = some tok }) path raw_path header ≡ up)
unfolding handle
handle-forwarded (err e) prefix ctx path raw_path header up h = cc
handle-forwarded (ok tok) prefix ctx path raw_path header up h = (tok, refl, upstream_of h)

finish-proxied :
    (handler : ProxyContext → Handled) (o : Outcome ProxyContext) (got : Handled)
    → finish handler o ≡ proxied got
    → (ctx : ProxyContext) × (o ≡ passes ctx) × (handler ctx ≡ got)
finish-proxied handler (denied code message) got h = cc
finish-proxied handler (passes ctx) got h = (ctx, refl, handled_of h)

module _ (refresh : String → Result OauthToken) (cfg : CookieConfig) (engine : Engine)
    (validate : String → Result UserClaims) (permits : String → String → Bool) where
  -- The group /api of `NewRouter`: the middleware, then the proxy with its prefix and what its token
  -- provider answers.
  unfoldable pub serve_api :
      String → Result String → ℕ → Request → String → Header → SessionStore → Ended × SessionStore
  serve_api prefix sa_token now req raw_path header store =
      let answer = api_auth refresh cfg engine validate permits now req store in
      (
        finish (λ ctx. handle sa_token prefix ctx req.path raw_path header) answer.outcome,
        answer.store,
      )

  -- What a service is sent for a request that is forwarded, in terms of the context and the token.
  serve_api-forwarded :
      (prefix : String) (sa_token : Result String) (now : ℕ) (req : Request) (raw_path : String)
      (header : Header) (store : SessionStore) (up : Upstream)
      → (serve_api prefix sa_token now req raw_path header store).0 ≡ proxied (forwarded up)
      → (ctx : ProxyContext) × (tok : String) × (sa_token ≡ ok tok)
        × ((api_auth refresh cfg engine validate permits now req store).outcome ≡ passes ctx)
        × (rewrite prefix (record ctx { sa_token = some tok }) req.path raw_path header ≡ up)
  unfolding serve_api
  serve_api-forwarded prefix sa_token now req raw_path header store up h =
      let (ctx, passed, handled) = finish-proxied _ _ (forwarded up) h in
      let (tok, token, built) =
        handle-forwarded sa_token prefix ctx req.path raw_path header up handled in
      (ctx, tok, token, passed, built)

  -- A request below /api that carries the cookie of a stored session and is forwarded is one that the
  -- session may make, by the first rule for its method and path. The service sees the user, the e-mail
  -- address and the owner groups of that session, and the token of the BFF, whatever the client's
  -- headers say.
  pub serve_api-identity :
      (prefix : String) (sa_token : Result String) (now : ℕ) (req : Request) (raw_path : String)
      (header : Header) (store : SessionStore) (up : Upstream) (sid : String) (sess : Session)
      → LiveSession cfg req store sid sess
      → (serve_api prefix sa_token now req raw_path header store).0 ≡ proxied (forwarded up)
      → MaySession (match_route engine.cfg.route_permissions req.method req.path) sess
        × (lookup "X-User-Id" up.header ≡ sent plain (some sess.sub))
        × (lookup "X-User-Email" up.header ≡ sent plain (some sess.email))
        × (lookup "X-User-Groups" up.header ≡ sent plain (some (join "," sess.owner_groups)))
        × ((tok : String) × (sa_token ≡ ok tok)
            × (lookup "Authorization" up.header ≡ sent bearer (some tok)))
  unfolding set_user_context rewrite
  serve_api-identity prefix sa_token now req raw_path header store up sid sess live h =
      let (ctx, tok, token, passed, built) =
        serve_api-forwarded prefix sa_token now req raw_path header store up h in
      elim ((api_auth_iff engine validate permits refresh cfg now req store ctx).0 passed) [
        | inr (no_session, _) ↦ absurd (no_session sid sess live)
        | inl (sid', sess', live', _, may, same) ↦
            let named : sid ≡ sid' = cc in
            let found : get sid store ≡ ok sess' = rw named live'.1 in
            let who : sess' ≡ sess = cc in
            let ctx' = record ctx { sa_token = some tok } in
            let (id, email, groups, auth) = rewrite_header-identity ctx' header in
            let told = ap (λ u. u.header) built in
            let is : ctx ≡ session_context sess = sym same ∙ ap session_context who in
            (
              rw⁻¹ who may,
              ap (lookup "X-User-Id") (sym told) ∙ (id ∙ ap (λ c. sent plain c.user_id) is),
              ap (lookup "X-User-Email") (sym told)
                  ∙ (email ∙ ap (λ c. sent plain c.user_email) is),
              ap (lookup "X-User-Groups") (sym told)
                  ∙ (groups ∙ ap (λ c. sent plain c.user_groups) is),
              (tok, token, ap (lookup "Authorization") (sym told) ∙ auth),
            )
      ]
