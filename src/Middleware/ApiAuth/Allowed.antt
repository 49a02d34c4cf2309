-- ===== src/Middleware/ApiAuth/Allowed.antt =====
-- When `APIAuth` lets a request through, and as whom.
use fusion_bff.Base.{
  ℕ, String, Bool, true, false, not, some, ◌≡◌, refl, ◌↔◌, ◌⊎◌, inl, inr, ap, sym, ◌∙◌, Result, ok,
  err, Result-cases, Option-cases, Bool-cases, cut_prefix, if◌then◌else◌,
}
use fusion_bff.Session.{Session, SessionStore, get}
use fusion_bff.Oidc.{UserClaims}
use fusion_bff.Proxy.{ProxyContext, no_context, set_user_context}
use fusion_bff.Rbac.Route.{RouteMatch, match_route}
use fusion_bff.Rbac.Engine.{Engine}
use fusion_bff.Middleware.{Request, denied, passes, CookieConfig, session_id}
use fusion_bff.Middleware.ApiAuth.{
  OauthToken, expires_soon, with_tokens, session_may, bearer_may, bearer_context, by_bearer,
  authorise_session, by_session, api_auth,
}
use fusion_bff.Middleware.ApiAuth.Permissions.{
  MaySession, session_may_iff, MayBearer, bearer_may_iff,
}

-- The identity that a session stands for.
abbrev pub session_context : Session → ProxyContext
session_context sess = set_user_context no_context sess.sub sess.email sess.owner_groups

-- The session that a request's cookie names.
abbrev pub LiveSession : CookieConfig → Request → SessionStore → String → Session → Type 0
LiveSession cfg req store sid sess =
    (session_id cfg.cookie_name req ≡ some sid) × (get sid store ≡ ok sess)

authorise_session_iff :
    (m : RouteMatch) (sess : Session) (ctx : ProxyContext)
    → (authorise_session m sess ≡ passes ctx) ↔ (MaySession m sess × (session_context sess ≡ ctx))
unfolding authorise_session
authorise_session_iff m sess ctx = elim (Bool-cases (session_may m sess)) [
  | inl may ↦ rw may (λ h. ((session_may_iff m sess).0 may, cc), λ (_, e). ap passes e)
  | inr cannot ↦ rw cannot (λ h. cc, λ (may, _). cc ((session_may_iff m sess).1 may))
]

authorise-with_tokens :
    (m : RouteMatch) (tok : OauthToken) (sess : Session)
    → authorise_session m (with_tokens tok sess) ≡ authorise_session m sess
unfolding authorise_session session_may with_tokens
authorise-with_tokens m tok sess = refl

module _ (refresh : String → Result OauthToken) (cfg : CookieConfig) where
  -- The session's access token lives for 30 seconds more, or it can be refreshed.
  abbrev pub StaysAlive : ℕ → Session → Type 0
  StaysAlive now sess =
      (expires_soon now sess ≡ false) ⊎ ((tok : OauthToken) × (refresh sess.refresh_token ≡ ok tok))

  by_session_iff :
      (now : ℕ) (m : RouteMatch) (req : Request) (sid : String) (sess : Session)
      (store : SessionStore) (ctx : ProxyContext)
      → ((by_session refresh cfg now m req sid sess store).outcome ≡ passes ctx)
        ↔ (StaysAlive now sess × MaySession m sess × (session_context sess ≡ ctx))
  unfolding by_session
  by_session_iff now m req sid sess store ctx = elim (Bool-cases (expires_soon now sess)) [
    | inr lives ↦ rw lives (
      λ h. let (may, same) = (authorise_session_iff m sess ctx).0 h in (inl refl, may, same),
      λ (_, may, same). (authorise_session_iff m sess ctx).1 (may, same),
    )
    | inl soon ↦ elim (Result-cases (refresh sess.refresh_token)) [
      | inr (e, failed) ↦
          rw (soon, failed, by_session)
            (λ h. cc, λ (alive, _, _). elim alive [ inl lives ↦ cc | inr (tok, refreshed) ↦ cc ])
      | inl (tok, refreshed) ↦
          rw (soon, refreshed, by_session)
            (
              λ h.
                  let (may, same) =
                    (authorise_session_iff m sess ctx).0
                      (sym (authorise-with_tokens m tok sess) ∙ h) in
                  (inr (tok, refl), may, same),
              λ (_, may, same).
                  authorise-with_tokens m tok sess
                  ∙ (authorise_session_iff m sess ctx).1 (may, same),
            )
    ]
  ]

module _ (engine : Engine) (validate : String → Result UserClaims)
    (permits : String → String → Bool) where
  -- The request bears a valid token of a permitted user.
  abbrev pub BearerWay : RouteMatch → Request → ProxyContext → Type 0
  BearerWay m req ctx =
      (raw : String) × (claims : UserClaims) × (cut_prefix "Bearer " req.authorization ≡ some raw)
      × (validate raw ≡ ok claims)
      × (permits claims.subject claims.email ≡ true)
      × MayBearer m engine claims
      × (bearer_context engine claims ≡ ctx)

  gate_iff :
      (permit may : Bool) (here ctx : ProxyContext)
      → ((if not permit
            then denied 403 "forbidden"
            else if may
            then passes here
            else denied 403 "forbidden")
          ≡ passes ctx)
        ↔ ((permit ≡ true) × (may ≡ true) × (here ≡ ctx))
  gate_iff true true here ctx = (λ h. (refl, refl, cc), λ (_, _, e). ap passes e)
  gate_iff true false here ctx = (λ h. cc, λ (_, b, _). cc)
  gate_iff false may here ctx = (λ h. cc, λ (b, _, _). cc)

  by_bearer_iff :
      (m : RouteMatch) (req : Request) (ctx : ProxyContext)
      → (by_bearer engine validate permits m req ≡ passes ctx) ↔ BearerWay m req ctx
  unfolding by_bearer
  by_bearer_iff m req ctx = elim (Option-cases (cut_prefix "Bearer " req.authorization)) [
    | inl absent ↦ rw (absent, by_bearer) (λ h. cc, λ (raw, claims, found, _, _, _, _). cc)
    | inr (raw, found) ↦ elim (Result-cases (validate raw)) [
      | inr (e, failed) ↦
          rw (found, failed, by_bearer)
            (
              λ h. cc,
              λ (raw', claims, found', valid, _, _, _).
                  let same : raw ≡ raw' = cc in
                  let clash : validate raw' ≡ err e = rw (sym same) failed in cc,
            )
      | inl (claims, valid) ↦
          let gate =
            gate_iff (permits claims.subject claims.email) (bearer_may engine m claims)
              (bearer_context engine claims) ctx in
          let may = bearer_may_iff m engine claims in
          rw (found, valid, by_bearer)
            (
              λ h. let (a, b, c) = gate.0 h in (raw, claims, refl, valid, a, may.0 b, c),
              λ (raw', claims', found', valid', a, b, c).
                  let same : raw ≡ raw' = cc in
                  let same' : claims ≡ claims' = cc in
                  gate.1 (rw same' a, may.1 (rw same' b), rw same' c),
            )
    ]
  ]

  module _ (refresh : String → Result OauthToken) (cfg : CookieConfig) where
    -- The session of the request lives, may do this, and is who the context says.
    abbrev pub SessionWay : ℕ → Request → SessionStore → ProxyContext → Type 0
    SessionWay now req store ctx =
        (sid : String) × (sess : Session) × LiveSession cfg req store sid sess
        × StaysAlive refresh cfg now sess
        × MaySession (match_route engine.cfg.route_permissions req.method req.path) sess
        × (session_context sess ≡ ctx)

    abbrev pub NoSession : Request → SessionStore → Type 0
    NoSession req store = (sid : String) (sess : Session) → ¬ (LiveSession cfg req store sid sess)

    -- The middleware lets a request through as some identity exactly in two cases. Either the cookie
    -- names a stored session, its access token lives 30 seconds more or can be refreshed, the session
    -- has the permission of the matched rule (or a grant on the resource, or the rule asks for none),
    -- and the identity is the session's. Or there is no such session and a valid bearer token of a
    -- permitted user has the permission, and the identity is that of its claims.
    pub api_auth_iff :
        (now : ℕ) (req : Request) (store : SessionStore) (ctx : ProxyContext)
        → ((api_auth refresh cfg engine validate permits now req store).outcome ≡ passes ctx) ↔ (
            SessionWay now req store ctx
            ⊎ (NoSession req store
                × BearerWay (match_route engine.cfg.route_permissions req.method req.path) req ctx))
    unfolding api_auth
    api_auth_iff now req store ctx =
        let m = match_route engine.cfg.route_permissions req.method req.path in
        elim (Option-cases (session_id cfg.cookie_name req)) [
          | inl absent ↦
              rw (absent, api_auth)
                (
                  λ h. inr (λ sid sess (named, _). cc, (by_bearer_iff m req ctx).0 h),
                  λ w. elim w [
                    | inl (sid, sess, (named, _), _, _, _) ↦ cc
                    | inr (_, bearer) ↦ (by_bearer_iff m req ctx).1 bearer
                  ],
                )
          | inr (sid, named) ↦ elim (Result-cases (get sid store)) [
            | inr (e, gone) ↦
                rw (named, gone, api_auth)
                  (
                    λ h. inr (
                      λ sid' sess' (named', lives').
                          let same : sid ≡ sid' = cc in
                          let clash : get sid' store ≡ err e = rw (sym same) gone in cc,
                      (by_bearer_iff m req ctx).0 h,
                    ),
                    λ w. elim w [
                      | inl (sid', sess', (named', lives'), _, _, _) ↦
                          let same : sid ≡ sid' = cc in
                          let clash : get sid' store ≡ err e = rw (sym same) gone in cc
                      | inr (_, bearer) ↦ (by_bearer_iff m req ctx).1 bearer
                    ],
                  )
            | inl (sess, lives) ↦
                let path = by_session_iff refresh cfg now m req sid sess store ctx in
                rw (named, lives, api_auth)
                  (
                    λ h.
                        let (alive, may, same) = path.0 h in
                        inl (sid, sess, (refl, lives), alive, may, same),
                    λ w. elim w [
                      | inl (sid', sess', (named', lives'), alive, may, who) ↦
                          let same_id : sid ≡ sid' = cc in
                          let lives'' : get sid' store ≡ ok sess = rw (sym same_id) lives in
                          let same : sess ≡ sess' = cc in
                          path.1 (rw same alive, rw same may, rw same who)
                      | inr (nobody, _) ↦ absurd (nobody sid sess (refl, lives))
                    ],
                  )
          ]
        ]
