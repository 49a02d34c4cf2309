-- ===== src/Middleware/ApiAuth/Sessions.antt =====
-- What `APIAuth` does to the session store and to the cookie.
use fusion_bff.Base.{
  ℕ, String, Bool, true, ◌==◌, some, ◌≡◌, ◌≢◌, ◌⊎◌, refl, arith, is_empty, is_empty_iff, ap, ◌∙◌,
  Result, ok, err, Error, lookup, lookup-delete, eq_refl, if◌then◌else◌,
}
use fusion_bff.Session.{Session, SessionStore, get, delete_session, not_found}
use fusion_bff.Session.Calls.{sessions_of}
use fusion_bff.Session.Updates.{get-none, lookup-get, sessions_of-update}
use fusion_bff.Oidc.{UserClaims}
use fusion_bff.Rbac.Engine.{Engine}
use fusion_bff.Middleware.{Request, denied, CookieConfig, clear_session_cookie}
use fusion_bff.Middleware.ApiAuth.{OauthToken, expires_soon, with_tokens, by_session, api_auth}
use fusion_bff.Middleware.ApiAuth.Allowed.{LiveSession}

get-deleted :
    (sid : String) (store : SessionStore) → get sid (delete_session sid store) ≡ err not_found
unfolding delete_session
get-deleted sid store =
    get-none sid (delete_session sid store)
      (lookup-delete sid sid store.sessions ∙ rw (eq_refl sid) refl)

module _ (refresh : String → Result OauthToken) (cfg : CookieConfig) (engine : Engine)
    (validate : String → Result UserClaims) (permits : String → String → Bool) where
  -- A session whose access token ends within 30 seconds and cannot be refreshed is over: the request
  -- is denied with 401, the cookie is cleared, and a later request finds no such session.
  pub api_auth-ends_session :
      (now : ℕ) (req : Request) (store : SessionStore) (sid : String) (sess : Session) (e : Error)
      → LiveSession cfg req store sid sess
      → expires_soon now sess ≡ true
      → refresh sess.refresh_token ≡ err e
      → ((api_auth refresh cfg engine validate permits now req store).outcome
          ≡ denied 401 "unauthorized")
        × ((api_auth refresh cfg engine validate permits now req store).cookie
            ≡ some (clear_session_cookie cfg req))
        × (get sid (api_auth refresh cfg engine validate permits now req store).store
            ≡ err not_found)
  unfolding api_auth by_session
  api_auth-ends_session now req store sid sess e (named, lives) soon failed =
      rw (named, lives, soon, failed, api_auth, by_session) (refl, refl, get-deleted sid store)

  -- The refresh token after a refresh: the provider's new one, or the old one if it sent none.
  abbrev pub IsNewest : String → String → String → Type 0
  IsNewest sent old kept = ((sent ≡ "") × (kept ≡ old)) ⊎ ((sent ≢ "") × (kept ≡ sent))

  newest : (sent old : String) → IsNewest sent old (if is_empty sent then old else sent)
  newest sent old = ground (arith, is_empty_iff sent)

  -- A session whose access token ends within 30 seconds and is refreshed stays. It has the new access
  -- token and its end, and the new refresh token, or the old one where the provider sent none; nothing
  -- else of it changes, its roles and permissions included. Every other session stays as it was,
  -- whether the request is then allowed or not. The session in the store must have the id under which
  -- it is stored.
  pub api_auth-refreshes :
      (now : ℕ) (req : Request) (store : SessionStore) (sid q : String) (sess : Session)
      (tok : OauthToken)
      → LiveSession cfg req store sid sess
      → sess.id ≡ sid
      → expires_soon now sess ≡ true
      → refresh sess.refresh_token ≡ ok tok
      → (kept : String) × IsNewest tok.refresh_token sess.refresh_token kept
        × (sessions_of (api_auth refresh cfg engine validate permits now req store).store q ≡ (
            if sid == q
            then some (record sess {
              access_token = tok.access_token;
              refresh_token = kept;
              expires_at = tok.expiry;
            })
            else sessions_of store q))
  unfolding api_auth by_session with_tokens
  api_auth-refreshes now req store sid q sess tok (named, lives) own soon given = (
    if is_empty tok.refresh_token then sess.refresh_token else tok.refresh_token,
    newest tok.refresh_token sess.refresh_token,
    rw (named, lives, soon, given, api_auth, by_session)
        (sessions_of-update q store sess (with_tokens tok sess)
            (ap (λ i. lookup i store.sessions) own ∙ lookup-get sid store sess lives)
          ∙ ap (λ i. if i == q then some (with_tokens tok sess) else sessions_of store q) own),
  )
