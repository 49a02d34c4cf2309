-- ===== src/MockOidc/Endpoints.antt =====
-- internal/mockoidc/server.go: the endpoints of the embedded provider.
use fusion_bff.Base.{
  ℕ, ◌+◌, ◌*◌, String, Bool, Option, none, some, List, map, ◌==◌, ltb, if◌then◌else◌, is_empty,
  trim_space, Result, ok, err, lookup, insert, delete, contains, string_eq,
}
use fusion_bff.Session.{minute}
use fusion_bff.Config.{◌<>◌}
use fusion_bff.Handler.{Reply, abort, redirect, json}
use fusion_bff.MockOidc.{Identity, Crypto, MockServer, mint_jwt}

-- `groupOption`
pub record GroupOption : Type 0 where
  pub name : String
  pub selected : Bool

-- What the login page of `handleAuthForm` shows.
pub record LoginPage : Type 0 where
  pub state : String
  pub redirect_uri : String
  pub sub : String
  pub email : String
  pub name : String
  pub groups : List GroupOption

-- The fields of the login form that is sent back.
pub record LoginForm : Type 0 where
  pub state : String
  pub redirect_uri : String
  pub sub : String
  pub email : String
  pub name : String
  pub groups : List String

-- The fields of a token request, "" where they are missing.
pub record TokenForm : Type 0 where
  pub grant_type : String
  pub code : String
  pub refresh_token : String

-- The reply of the token endpoint.
pub record TokenReply : Type 0 where
  pub access_token : String
  pub id_token : String
  pub refresh_token : String
  pub token_type : String
  pub expires_in : ℕ

-- The address that a submitted form redirects to.
unfoldable pub callback_target : (String → String) → String → LoginForm → String → String
callback_target query_escape host form code =
    let redirect_uri =
      if is_empty form.redirect_uri
      then "http://" <> host <> "/bff/callback"
      else form.redirect_uri in
    redirect_uri <> "?code=" <> query_escape code <> "&state=" <> query_escape form.state

-- `handleLogout`, with its query parameter `post_logout_redirect_uri`.
unfoldable pub handle_logout : {A : Type 0} → String → Reply A
handle_logout redirect_uri = redirect (if is_empty redirect_uri then "/" else redirect_uri)

module _ {Key : Type 0} where
  -- `handleAuthForm`, with its query parameters.
  unfoldable pub handle_auth_form : MockServer Key → String → String → LoginPage
  handle_auth_form s state redirect_uri = record {
    state = state;
    redirect_uri = redirect_uri;
    sub = s.default_sub;
    email = s.default_email;
    name = s.default_name;
    groups =
        map (λ g. record { name = g; selected = contains s.default_groups g }) s.available_groups;
  }

  -- The identity of a submitted form.
  unfoldable pub form_identity : MockServer Key → LoginForm → Identity
  form_identity s form = record {
    sub = if is_empty (trim_space form.sub) then s.default_sub else trim_space form.sub;
    email = trim_space form.email;
    name = trim_space form.name;
    groups = form.groups;
  }

  -- `handleAuthSubmit`, with what `randomHex` gave. The plain text of its error is shown as an abort.
  unfoldable pub handle_auth_submit :
      (String → String)
      → String
      → LoginForm
      → Result String
      → ℕ
      → MockServer Key
      → Reply (Unit {0}) × MockServer Key
  handle_auth_submit query_escape host form (err e) now s = (abort 500 "internal error", s)
  handle_auth_submit query_escape host form (ok code) now s = (
    redirect (callback_target query_escape host form code),
    record s {
      codes =
          insert code (record { ident = form_identity s form; expires_at = now + 5 * minute })
            s.codes;
    },
  )

  -- The identity of a code that has not expired.
  unfoldable pub code_identity : MockServer Key → String → ℕ → Option Identity
  code_identity s code now = elim (lookup code s.codes) [
    | none ↦ none
    | some entry ↦ if ltb entry.expires_at now then none else some entry.ident
  ]

  -- The identity of a refresh token: by default the one that is configured.
  unfoldable pub refresh_identity : MockServer Key → String → Identity
  refresh_identity s rt = elim (lookup rt s.refreshes) [
    | some id ↦ id
    | none ↦ record {
      sub = s.default_sub;
      email = s.default_email;
      name = s.default_name;
      groups = s.default_groups;
    }
  ]

  module _ (crypto : Crypto Key) where
    abbrev server_error : Reply TokenReply
    server_error = abort 500 "server_error"

    -- The end of `handleToken`: two tokens for the identity, and a refresh token from `randomHex`.
    unfoldable pub issue :
        Result String → ℕ → Identity → MockServer Key → Reply TokenReply × MockServer Key
    issue random now ident s = elim (mint_jwt crypto s ident now) [
      | err e ↦ (server_error, s)
      | ok id_token ↦ elim (mint_jwt crypto s ident now) [
        | err e ↦ (server_error, s)
        | ok access_token ↦ elim random [
          | err e ↦ (server_error, s)
          | ok rt ↦ (
            json 200 (record {
              access_token = access_token;
              id_token = id_token;
              refresh_token = rt;
              token_type = "bearer";
              expires_in = 86400;
            }),
            record s { refreshes = insert rt ident s.refreshes },
          )
        ]
      ]
    ]

    -- `handleToken`; `checked_at` is when the code is looked at and `now` when the tokens are minted.
    unfoldable pub handle_token :
        TokenForm → Result String → ℕ → ℕ → MockServer Key → Reply TokenReply × MockServer Key
    handle_token form random checked_at now s =
        if form.grant_type == "authorization_code"
        then (let s' = record s { codes = delete form.code s.codes } in
            elim (code_identity s form.code checked_at) [
              | none ↦ (abort 400 "invalid_grant", s')
              | some ident ↦ issue random now ident s'
            ])
        else if form.grant_type == "refresh_token"
        then issue random now (refresh_identity s form.refresh_token) s
        else (abort 400 "unsupported_grant_type", s)
