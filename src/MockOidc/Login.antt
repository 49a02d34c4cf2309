-- ===== src/MockOidc/Login.antt =====
-- A login through the embedded provider, from the submitted form to the claims and the session.
use fusion_bff.Base.{
  ℕ, ◌+◌, ◌*◌, ◌≤◌, String, false, none, some, List, [], ◌∷◌, ltb, if◌then◌else◌, ok, err, ◌≡◌,
  refl, sym, ap, ◌∙◌, All, Dict, lookup, insert, delete, lookup-insert, eq_refl, arith,
}
use fusion_bff.Session.{minute}
use fusion_bff.Handler.{Reply, json}
use fusion_bff.MockOidc.{
  Identity, CodeEntry, Crypto, IsSound, MockServer, unix, token_end, payload_of, mint_jwt,
  validate_mock,
}
use fusion_bff.MockOidc.Endpoints.{
  LoginForm, TokenReply, form_identity, handle_auth_submit, code_identity, issue, handle_token,
}
use fusion_bff.MockOidc.Validated.{claims_for, validate_mock-mint_jwt}
use fusion_bff.MockOidc.Grants.{
  Call, submits, asks, after_call, after_calls, by_code, Spares, after_calls-codes,
  handle_token-state,
}

-- The reply to a request that is granted these tokens.
abbrev pub granted : String → String → Reply TokenReply
granted token refresh_token = json 200 (record {
  access_token = token;
  id_token = token;
  refresh_token = refresh_token;
  token_type = "bearer";
  expires_in = 86400;
})

not_later : (limit t : ℕ) → t ≤ limit → ltb limit t ≡ false
not_later limit t h = ground arith

module _ {Key : Type 0} (crypto : Crypto Key) where
  after_call-private_key :
      (c : Call) (s : MockServer Key) → (after_call crypto c s).private_key ≡ s.private_key
  unfolding after_call handle_auth_submit
  after_call-private_key (submits form (err e) now) s = refl
  after_call-private_key (submits form (ok drawn) now) s = refl
  after_call-private_key (asks form random checked_at now) s =
      ap (λ t. t.private_key) (handle_token-state crypto form random checked_at now s)

  after_calls-private_key :
      (calls : List Call) (s : MockServer Key)
      → (after_calls crypto calls s).private_key ≡ s.private_key
  unfolding after_calls
  after_calls-private_key [] s = refl
  after_calls-private_key (c ∷ calls) s =
      after_calls-private_key calls (after_call crypto c s) ∙ after_call-private_key c s

  issue-granted :
      (fresh token : String) (now : ℕ) (ident : Identity) (s : MockServer Key)
      → mint_jwt crypto s ident now ≡ ok token
      → issue crypto (ok fresh) now ident s
        ≡ (granted token fresh, record s { refreshes = insert fresh ident s.refreshes })
  unfolding issue
  issue-granted fresh token now ident s minted = rw (minted, issue, minted) refl

  -- Minting does not read the codes.
  mint_jwt-codes :
      (s : MockServer Key) (codes : Dict CodeEntry) (ident : Identity) (now : ℕ) {token : String}
      → mint_jwt crypto s ident now ≡ ok token
      → mint_jwt crypto (record s { codes = codes }) ident now ≡ ok token
  unfolding mint_jwt payload_of
  mint_jwt-codes s codes ident now minted = minted

  module _ (query_escape : String → String) (host : String) (form : LoginForm) (code : String) where
    -- The provider after the form was submitted and the code drawn.
    abbrev pub submitted : ℕ → MockServer Key → MockServer Key
    submitted at s = (handle_auth_submit query_escape host form (ok code) at s).1

    abbrev entry : ℕ → MockServer Key → CodeEntry
    entry at s = record { ident = form_identity s form; expires_at = at + 5 * minute }

    submitted-code :
        (at checked_at : ℕ) (calls : List Call) (s : MockServer Key)
        → All (Spares code) calls
        → code_identity (after_calls crypto calls (submitted at s)) code checked_at
          ≡ (if ltb (at + 5 * minute) checked_at then none else some (form_identity s form))
    unfolding code_identity handle_auth_submit
    submitted-code at checked_at calls s spared =
        let kept = after_calls-codes crypto code calls (submitted at s) spared in
        let written = lookup-insert code code (entry at s) s.codes in
        let found : lookup code (after_calls crypto calls (submitted at s)).codes
            ≡ some (entry at s) =
          kept ∙ (written ∙ rw (eq_refl code) refl) in
        rw (found, code_identity) refl

    -- After a login form was submitted, and whatever else was asked of the provider that spares its
    -- code, the code is exchanged within 5 minutes for a token, and the validator finds in that
    -- token, up to its end, the trimmed fields of the form, with the default subject for an empty one.
    -- Minting the token and drawing a refresh token must succeed.
    pub handle_token-identifies :
        IsSound crypto
        → (at checked_at now later : ℕ) (calls : List Call) (s : MockServer Key)
          (rt fresh token : String)
        → All (Spares code) calls
        → checked_at ≤ at + 5 * minute
        → unix later ≤ token_end now
        → mint_jwt crypto (after_calls crypto calls (submitted at s)) (form_identity s form) now
          ≡ ok token
        → ((handle_token crypto
              (by_code code rt)
              (ok fresh)
              checked_at
              now
              (after_calls crypto calls (submitted at s))).0
            ≡ granted token fresh)
          × (validate_mock crypto s.private_key later token
              ≡ ok (claims_for (form_identity s form)))
    unfolding handle_token handle_auth_submit
    handle_token-identifies sound at checked_at now later calls s rt fresh token spared soon valid
          minted =
        let s1 = after_calls crypto calls (submitted at s) in
        let found : code_identity s1 code checked_at ≡ some (form_identity s form) =
          submitted-code at checked_at calls s spared
          ∙ rw (not_later (at + 5 * minute) checked_at soon) refl in
        let same_key = after_calls-private_key calls (submitted at s) in
        let checked =
          validate_mock-mint_jwt crypto sound s1 (form_identity s form) now later token minted in
        (
          rw (found, handle_token)
              (ap (λ r. r.0)
                (issue-granted fresh token now (form_identity s form)
                  (record s1 { codes = delete code s1.codes })
                  (mint_jwt-codes s1 (delete code s1.codes) (form_identity s form) now minted))),
          ap (λ k. validate_mock crypto k later token) (sym same_key)
              ∙ (checked ∙ rw (not_later (token_end now) (unix later) valid) refl),
        )
