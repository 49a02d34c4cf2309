-- ===== src/Handler/Auth/Callback.antt =====
-- What `Callback` asks for before it creates a session, and what it leaves behind.
use fusion_bff.Base.{
  ℕ, String, true, false, ◌||◌, none, some, is_empty, is_empty_iff, Result, ok, err, ◌≡◌, refl, sym,
  ap, ◌∙◌, ◌≢◌, ◌↔◌, inl, inr, arith, Result-cases, Option-cases, Bool-cases, lookup, delete,
  lookup-delete, eq_refl,
}
use fusion_bff.Session.{Session, SessionStore, take_pending, create}
use fusion_bff.Session.Calls.{take_pending-state}
use fusion_bff.Session.Pending.{take_pending-none}
use fusion_bff.Oidc.{UserClaims}
use fusion_bff.Middleware.{Request, Cookie}
use fusion_bff.Handler.Auth.{
  AuthHandler, Exchanged, Served, set_session_cookie, session_for, start_session, exchange_code,
  callback,
}

-- The reply sets this cookie, and leaves this store.
abbrev pub SignsIn : Served → Cookie → SessionStore → Type 0
SignsIn served c store' = (served.cookie ≡ some c) × (served.store ≡ store')

module _ (h : AuthHandler) (req : Request) (now : ℕ) where
  start_session_iff :
      (sid : Result String) (sess : Session) (store : SessionStore) (c : Cookie)
      (store' : SessionStore)
      → SignsIn (start_session h req sid now sess store) c store' ↔ (
          (id : String) × (sid ≡ ok id)
          × (set_session_cookie h req id ≡ c)
          × ((create sid now sess store).1 ≡ store'))
  unfolding start_session create
  start_session_iff (err e) sess store c store' = (λ (a, b). cc, λ (id, a, _, _). cc)
  start_session_iff (ok id) sess store c store' = (
    λ (a, b). (id, refl, cc, b),
    λ (id', a, b, d).
        let same : id ≡ id' = cc in (ap some (ap (set_session_cookie h req) same ∙ b), d),
  )

  -- The code is exchanged for an id token that is valid and of a permitted user.
  abbrev pub IsAuthentic : String → String → Exchanged → UserClaims → Type 0
  IsAuthentic code verifier tok claims =
      (h.services.exchange code verifier ≡ ok tok)
      × (tok.id_token ≢ "")
      × (h.services.validate tok.id_token ≡ ok claims)
      × (h.services.permits claims.subject claims.email ≡ true)

  abbrev pub Admits :
      String → String → Result String → SessionStore → Cookie → SessionStore → Type 0
  Admits code verifier sid store c store' =
      (tok : Exchanged) × (claims : UserClaims) × IsAuthentic code verifier tok claims
      × ((id : String) × (sid ≡ ok id)
          × (set_session_cookie h req id ≡ c)
          × ((create sid now (session_for h tok claims) store).1 ≡ store'))

  exchange_code_iff :
      (code verifier : String) (sid : Result String) (store : SessionStore) (c : Cookie)
      (store' : SessionStore)
      → SignsIn (exchange_code h req code verifier sid now store) c store'
        ↔ Admits code verifier sid store c store'
  unfolding exchange_code
  exchange_code_iff code verifier sid store c store' =
      elim (Result-cases (h.services.exchange code verifier)) [
        | inr (e, failed) ↦
            rw (failed, exchange_code) (λ (a, b). cc, λ (tok, claims, (x, _, _, _), _). cc)
        | inl (tok, given) ↦ elim (Bool-cases (is_empty tok.id_token)) [
          | inl missing ↦
              rw (given, missing, exchange_code)
                (
                  λ (a, b). cc,
                  λ (tok', claims, (x, n, _, _), _).
                      let same : tok ≡ tok' = cc in
                      absurd (
                        n (
                          ap (λ t. t.id_token) (sym same) ∙ (is_empty_iff tok.id_token).0 missing)),
                )
          | inr present ↦ elim (Result-cases (h.services.validate tok.id_token)) [
            | inr (e, failed) ↦
                rw (given, present, failed, exchange_code)
                  (
                    λ (a, b). cc,
                    λ (tok', claims, (x, _, v, _), _).
                        let same : tok ≡ tok' = cc in
                        let clash : h.services.validate tok'.id_token ≡ err e =
                          rw (sym same) failed in
                        cc,
                  )
            | inl (claims, valid) ↦
                elim (Bool-cases (h.services.permits claims.subject claims.email)) [
                  | inr refused ↦
                      rw (given, present, valid, refused, exchange_code)
                        (
                          λ (a, b). cc,
                          λ (tok', claims', (x, _, v, p), _).
                              let same : tok ≡ tok' = cc in
                              let v' : h.services.validate tok.id_token ≡ ok claims' = rw same v in
                              let same' : claims ≡ claims' = cc in
                              let p' : h.services.permits claims.subject claims.email ≡ true =
                                rw same' p in
                              cc,
                        )
                  | inl permitted ↦
                      let start = start_session_iff sid (session_for h tok claims) store c store' in
                      rw (given, present, valid, permitted, exchange_code)
                        (
                          λ s. (
                            tok,
                            claims,
                            (refl, λ e. cc ((is_empty_iff tok.id_token).1 e), valid, permitted),
                            start.0 s,
                          ),
                          λ (tok', claims', (x, _, v, p), made).
                              let same : tok ≡ tok' = cc in
                              let v' : h.services.validate tok.id_token ≡ ok claims' = rw same v in
                              let same' : claims ≡ claims' = cc in start.1 (rw (same, same') made),
                        )
                ]
          ]
        ]
      ]

  exchange_code-refuses :
      (code verifier : String) (sid : Result String) (store : SessionStore)
      → (exchange_code h req code verifier sid now store).cookie ≡ none
      → (exchange_code h req code verifier sid now store).store ≡ store
  unfolding exchange_code start_session create
  exchange_code-refuses code verifier (err e) store r = ground arith
  exchange_code-refuses code verifier (ok id) store r = ground arith

  exchange_code-pending :
      (code verifier : String) (sid : Result String) (store : SessionStore)
      → (exchange_code h req code verifier sid now store).store.pending ≡ store.pending
  unfolding exchange_code start_session create
  exchange_code-pending code verifier (err e) store = ground arith
  exchange_code-pending code verifier (ok id) store = ground arith

  module _ (taken_at : ℕ) (state code : String) (sid : Result String) (store : SessionStore) where
    -- A login callback sets the session cookie, and leaves the new session behind, exactly when there
    -- are a state and a code, the state is pending and not expired, the code is exchanged for a valid
    -- id token of a permitted user, and a session id is generated. The cookie then has that id, and
    -- the session created under it is the one built from the claims of that token.
    pub callback_iff :
        (c : Cookie) (store' : SessionStore)
        → SignsIn (callback h req state code sid taken_at now store) c store' ↔ (
            (state ≢ "")
            × (code ≢ "")
            × ((verifier : String) × ((take_pending taken_at state store).0 ≡ some verifier)
                × Admits code verifier sid (take_pending taken_at state store).1 c store'))
    unfolding callback
    callback_iff c store' = elim (Bool-cases (is_empty state || is_empty code)) [
      | inl missing ↦
          rw (missing, callback)
            (λ (a, b). cc, λ (s, n, _). ground (arith, is_empty_iff state, is_empty_iff code))
      | inr given ↦
          let s : state ≢ "" = λ e. ground (arith, is_empty_iff state) in
          let n : code ≢ "" = λ e. ground (arith, is_empty_iff code) in
          elim (Option-cases (take_pending taken_at state store).0) [
            | inl absent ↦
                rw (given, absent, callback) (λ (a, b). cc, λ (_, _, (verifier, found, _)). cc)
            | inr (verifier, found) ↦
                let rest =
                  exchange_code_iff code verifier sid (take_pending taken_at state store).1 c
                    store' in
                rw (given, found, callback)
                  (
                    λ w. (s, n, (verifier, refl, rest.0 w)),
                    λ (_, _, (verifier', found', w)).
                        let same : verifier ≡ verifier' = cc in rest.1 (rw same w),
                  )
          ]
    ]

    -- A callback that sets no cookie leaves the sessions as they were, however it ends.
    pub callback-refuses :
        (callback h req state code sid taken_at now store).cookie ≡ none
        → (callback h req state code sid taken_at now store).store.sessions ≡ store.sessions
    unfolding callback
    callback-refuses r = elim (Bool-cases (is_empty state || is_empty code)) [
      | inl missing ↦ rw (missing, callback) refl
      | inr given ↦
          let taken = ap (λ s. s.sessions) (take_pending-state taken_at state store) in
          elim (Option-cases (take_pending taken_at state store).0) [
            | inl absent ↦ rw (given, absent, callback) taken
            | inr (verifier, found) ↦
                let store1 = (take_pending taken_at state store).1 in
                let r' : (exchange_code h req code verifier sid now store1).cookie ≡ none =
                  rw (given, found, callback) at r in
                rw (given, found, callback)
                  (ap (λ s. s.sessions) (exchange_code-refuses code verifier sid store1 r') ∙ taken)
          ]
    ]

    callback-pending :
        state ≢ ""
        → code ≢ ""
        → (callback h req state code sid taken_at now store).store.pending
          ≡ delete state store.pending
    unfolding callback
    callback-pending s n =
        let given : (is_empty state || is_empty code) ≡ false =
          ground (arith, is_empty_iff state, is_empty_iff code) in
        let taken = ap (λ s. s.pending) (take_pending-state taken_at state store) in
        elim (Option-cases (take_pending taken_at state store).0) [
          | inl absent ↦ rw (given, absent, callback) taken
          | inr (verifier, found) ↦
              rw (given, found, callback)
                (exchange_code-pending code verifier sid (take_pending taken_at state store).1
                  ∙ taken)
        ]

-- A state serves one callback: after a callback with a code, however it ended, another callback with
-- the same state sets no cookie, whatever code it brings.
pub callback_once :
    (h : AuthHandler) (req req' : Request) (state code code' : String) (sid sid' : Result String)
    (taken_at now taken_at' now' : ℕ) (store : SessionStore)
    → code ≢ ""
    → (callback h req' state code' sid' taken_at' now'
        (callback h req state code sid taken_at now store).store).cookie
      ≡ none
callback_once h req req' state code code' sid sid' taken_at now taken_at' now' store n =
    let store1 = (callback h req state code sid taken_at now store).store in
    let again = callback h req' state code' sid' taken_at' now' store1 in
    elim (Option-cases again.cookie) [
      | inl refused ↦ refused
      | inr (c, set) ↦
          let (s, _, (verifier, found, _)) =
            (callback_iff h req' now' taken_at' state code' sid' store1 c again.store).0
              (set, refl) in
          let gone : lookup state store1.pending ≡ none =
            ap (lookup state) (callback-pending h req now taken_at state code sid store s n)
            ∙ (lookup-delete state state store.pending ∙ rw (eq_refl state) refl) in
          let nothing = take_pending-none taken_at' state store1 gone in cc
    ]
