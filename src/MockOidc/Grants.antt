-- ===== src/MockOidc/Grants.antt =====
-- The codes and refresh tokens of the embedded provider, over any sequence of its requests.
use fusion_bff.Base.{
  ℕ, ◌+◌, ◌*◌, String, none, List, [], ◌∷◌, ◌==◌, if◌then◌else◌, Result, ok, err, ◌≡◌, ◌≢◌, refl,
  ap, ◌∙◌, All, Dict, lookup, delete, lookup-insert, lookup-delete, eq_iff, eq_refl, Option-cases,
  Bool-cases, inl, inr, arith,
}
use fusion_bff.Session.{minute}
use fusion_bff.Handler.{abort}
use fusion_bff.MockOidc.{Identity, CodeEntry, Crypto, MockServer}
use fusion_bff.MockOidc.Endpoints.{
  LoginForm, TokenForm, form_identity, handle_auth_submit, code_identity, issue, handle_token,
}

-- A request that changes the provider's state.
pub data Call : Type 0 where
  submits : LoginForm → Result String → ℕ → Call
  asks : TokenForm → Result String → ℕ → ℕ → Call

-- A request to exchange a code.
abbrev pub by_code : String → String → TokenForm
by_code code rt = record { grant_type = "authorization_code"; code = code; refresh_token = rt }

-- A request to refresh.
abbrev pub by_refresh_token : String → String → TokenForm
by_refresh_token rt code = record { grant_type = "refresh_token"; code = code; refresh_token = rt }

-- Nothing but a request that names the code, or a form for which it is drawn again, touches a code.
abbrev pub Spares : String → Call → Type 0
Spares code (submits form random now) = random ≢ ok code
Spares code (asks form random checked_at now) = form.code ≢ code

module _ {Key : Type 0} (crypto : Crypto Key) where
  unfoldable pub after_call : Call → MockServer Key → MockServer Key
  after_call (submits form random now) s = (handle_auth_submit (λ t. t) "" form random now s).1
  after_call (asks form random checked_at now) s =
      (handle_token crypto form random checked_at now s).1

  unfoldable pub after_calls : List Call → MockServer Key → MockServer Key
  after_calls [] s = s
  after_calls (c ∷ calls) s = after_calls calls (after_call c s)

  issue-state :
      (random : Result String) (now : ℕ) (ident : Identity) (s : MockServer Key)
      → (issue crypto random now ident s).1
        ≡ record s { refreshes = (issue crypto random now ident s).1.refreshes }
  unfolding issue
  issue-state random now ident s = ground arith

  -- The codes after a token request: a code that is presented is gone.
  abbrev pub spent_codes : TokenForm → Dict CodeEntry → Dict CodeEntry
  spent_codes form codes =
      if form.grant_type == "authorization_code" then delete form.code codes else codes

  pub handle_token-state :
      (form : TokenForm) (random : Result String) (checked_at now : ℕ) (s : MockServer Key)
      → (handle_token crypto form random checked_at now s).1 ≡ record s {
        codes = spent_codes form s.codes;
        refreshes = (handle_token crypto form random checked_at now s).1.refreshes;
      }
  unfolding handle_token
  handle_token-state form random checked_at now s =
      elim (Bool-cases (form.grant_type == "authorization_code")) [
        | inl by_code ↦ elim (Option-cases (code_identity s form.code checked_at)) [
          | inl absent ↦ rw (by_code, absent, handle_token) refl
          | inr (ident, found) ↦ rw (by_code, found, handle_token) (issue-state random now ident _)
        ]
        | inr other ↦ elim (Bool-cases (form.grant_type == "refresh_token")) [
          | inl by_token ↦ rw (other, by_token, handle_token) (issue-state random now _ s)
          | inr unknown ↦ rw (other, unknown, handle_token) refl
        ]
      ]

  abbrev entry_of : LoginForm → ℕ → MockServer Key → CodeEntry
  entry_of form now s = record { ident = form_identity s form; expires_at = now + 5 * minute }

  after_call-codes :
      (code : String) (c : Call) (s : MockServer Key)
      → Spares code c
      → lookup code (after_call c s).codes ≡ lookup code s.codes
  unfolding after_call handle_auth_submit
  after_call-codes code (submits form (err e) now) s h = refl
  after_call-codes code (submits form (ok drawn) now) s h =
      let differ : drawn ≢ code = λ e. h (ap ok e) in
      let written = lookup-insert drawn code (entry_of form now s) s.codes in
      ground (arith, written, eq_iff drawn code)
  after_call-codes code (asks form random checked_at now) s h =
      let state = handle_token-state form random checked_at now s in
      let gone = lookup-delete form.code code s.codes in
      rw state (ground (arith, gone, eq_iff form.code code))

  pub after_calls-codes :
      (code : String) (calls : List Call) (s : MockServer Key)
      → All (Spares code) calls
      → lookup code (after_calls calls s).codes ≡ lookup code s.codes
  unfolding after_calls
  after_calls-codes code [] s h = refl
  after_calls-codes code (c ∷ calls) s (first, rest) =
      after_calls-codes code calls (after_call c s) rest ∙ after_call-codes code c s first

  handle_token-refuses :
      (code rt : String) (random : Result String) (checked_at now : ℕ) (s : MockServer Key)
      → code_identity s code checked_at ≡ none
      → (handle_token crypto (by_code code rt) random checked_at now s).0
        ≡ abort 400 "invalid_grant"
  unfolding handle_token
  handle_token-refuses code rt random checked_at now s absent = rw (absent, handle_token) refl

  -- A code serves one token request: after a request that names it, however that request and the
  -- others that follow end, another one for the same code is refused as an invalid grant, unless the
  -- code is drawn again.
  pub handle_token_once :
      (code rt rt' : String) (random random' : Result String) (checked_at now checked_at' now' : ℕ)
      (calls : List Call) (s : MockServer Key)
      → All (Spares code) calls
      → (handle_token crypto
          (by_code code rt')
          random'
          checked_at'
          now'
          (after_calls calls (handle_token crypto (by_code code rt) random checked_at now s).1)).0
        ≡ abort 400 "invalid_grant"
  unfolding code_identity
  handle_token_once code rt rt' random random' checked_at now checked_at' now' calls s spared =
      let spent = (handle_token crypto (by_code code rt) random checked_at now s).1 in
      let state =
        ap (λ t. lookup code t.codes)
          (handle_token-state (by_code code rt) random checked_at now s) in
      let kept = after_calls-codes code calls spent spared in
      let gone : lookup code (after_calls calls spent).codes ≡ none =
        kept ∙ (state ∙ (lookup-delete code code s.codes ∙ rw (eq_refl code) refl)) in
      handle_token-refuses code rt' random' checked_at' now' (after_calls calls spent)
        (rw (gone, code_identity) refl)
