-- ===== src/MockOidc/Bypass.antt =====
-- The login callback with the embedded provider behind it: OIDC_BYPASS of cmd/server/main.go.
use fusion_bff.Base.{
  if◌then◌else◌, is_empty, trim_space, ℕ, ◌+◌, ◌*◌, ◌≤◌, String, some, List, [], ok, ◌≡◌, ◌≢◌, refl,
  sym, ap, ◌∙◌, All, lookup, insert, lookup-insert, eq_refl,
}
use fusion_bff.Session.{Session, SessionStore, minute, get, create, take_pending}
use fusion_bff.Allowlist.{new_checker, permitted}
use fusion_bff.Middleware.{Request}
use fusion_bff.Handler.{json}
use fusion_bff.Handler.Auth.{AuthHandler, Exchanged, set_session_cookie, session_for, callback}
use fusion_bff.Handler.Auth.Callback.{callback_iff}
use fusion_bff.MockOidc.{Crypto, IsSound, MockServer, unix, token_end, mint_jwt, validate_mock}
use fusion_bff.MockOidc.Endpoints.{LoginForm, TokenReply, form_identity, handle_token}
use fusion_bff.MockOidc.Validated.{claims_for, mint_jwt-set}
use fusion_bff.MockOidc.Grants.{Call, after_calls, by_code, Spares}
use fusion_bff.MockOidc.Login.{submitted, handle_token-identifies}

-- The session that a callback has created is the one that is looked up.
get-create :
    (id : String) (now : ℕ) (sess : Session) (store : SessionStore)
    → get id (create (ok id) now sess store).1 ≡ ok (record sess { id = id; created_at = now })
unfolding get create
get-create id now sess store =
    let written = lookup-insert id id (record sess { id = id; created_at = now }) store.sessions in
    let found : lookup id (insert id (record sess { id = id; created_at = now }) store.sessions)
        ≡ some (record sess { id = id; created_at = now }) =
      written ∙ rw (eq_refl id) refl in
    rw (found, get) refl

module _ {Key : Type 0} (crypto : Crypto Key) (sound : IsSound crypto) (h : AuthHandler) where
  -- With the embedded provider behind the handler, a login ends in a session of the identity in the
  -- submitted form: the callback sets the cookie of the session id, and the session has the form's
  -- subject, e-mail address and name without white space around them (the default subject for an empty
  -- one), and its groups. The state must be
  -- pending, the code presented within 5 minutes, the token minted and not ended, and the session id
  -- drawn; the OAuth library must hand on the id token of the provider's reply.
  pub callback-signs_in :
      (query_escape : String → String) (host : String) (form : LoginForm) (code : String)
      (at checked_at minted_at later : ℕ) (calls : List Call) (s : MockServer Key)
      (fresh token : String) (req : Request) (state verifier id : String) (taken_at now : ℕ)
      (store : SessionStore)
      → ((raw : String) → h.services.validate raw ≡ validate_mock crypto s.private_key later raw)
      → ((sub email : String) → h.services.permits sub email ≡ permitted (new_checker []) sub email)
      → ((t : TokenReply)
          → (handle_token crypto
              (by_code code "")
              (ok fresh)
              checked_at
              minted_at
              (after_calls crypto calls (submitted crypto query_escape host form code at s))).0
            ≡ json 200 t
          → (tok : Exchanged) × (h.services.exchange code verifier ≡ ok tok)
            × (tok.id_token ≡ t.id_token))
      → All (Spares code) calls
      → checked_at ≤ at + 5 * minute
      → unix later ≤ token_end minted_at
      → mint_jwt crypto
          (after_calls crypto calls (submitted crypto query_escape host form code at s))
          (form_identity s form)
          minted_at
        ≡ ok token
      → state ≢ ""
      → code ≢ ""
      → (take_pending taken_at state store).0 ≡ some verifier
      → ((callback h req state code (ok id) taken_at now store).cookie
          ≡ some (set_session_cookie h req id))
        × ((sess : Session) × (get id (callback h req state code (ok id) taken_at now store).store
              ≡ ok sess)
            × (sess.sub
                ≡ (if is_empty (trim_space form.sub) then s.default_sub else trim_space form.sub))
            × (sess.email ≡ trim_space form.email)
            × (sess.name ≡ trim_space form.name)
            × (sess.groups ≡ form.groups))
  unfolding permitted new_checker session_for form_identity
  callback-signs_in query_escape host form code at checked_at minted_at later calls s fresh token
        req state verifier id taken_at now store validates permits exchanges spared soon valid
        minted st cd pending =
      let claims = claims_for (form_identity s form) in
      let (reply, accepted) =
        handle_token-identifies crypto query_escape host form code sound at checked_at minted_at
          later calls s "" fresh token spared soon valid minted in
      let (tok, exchanged, same) = exchanges _ reply in
      let validated : h.services.validate tok.id_token ≡ ok claims =
        validates tok.id_token
        ∙ (ap (λ raw. validate_mock crypto s.private_key later raw) same ∙ accepted) in
      let set : tok.id_token ≢ "" =
        λ e. mint_jwt-set crypto _ _ minted_at token minted (sym same ∙ e) in
      let store1 = (take_pending taken_at state store).1 in
      let made = (create (ok id) now (session_for h tok claims) store1).1 in
      let (cookie, left) =
        (callback_iff h req now taken_at state code (ok id) store (set_session_cookie h req id)
            made).1
          (
            st,
            cd,
            (
              verifier,
              pending,
              (
                tok,
                claims,
                (exchanged, set, validated, permits claims.subject claims.email),
                (id, refl, refl, refl),
              ),
            ),
          ) in
      (
        cookie,
        (
          _,
          ap (λ st. get id st) left ∙ get-create id now (session_for h tok claims) store1,
          refl,
          refl,
          refl,
          refl,
        ),
      )
