-- ===== src/Server/Addresses.antt =====
-- The addresses that the login handler uses when the provider is embedded.
use Prim.Native.String.{[], ◌∷◌}
use text.Mathlib.TextLemmas.{nil-append, cons-append, append_assoc}
use fusion_bff.Base.{
  ℕ, String, true, false, [], ◌∷◌, trim_right, is_empty, ◌≡◌, refl, sym, subst, ap, ◌∙◌, ◌∈◌, inl,
  inr, arith, ok, Bool-cases,
}
use fusion_bff.Config.{Env, Durations, Config, ◌<>◌, at_path}
use fusion_bff.Config.Usable.{load-settings}
use fusion_bff.Config.Load.{settings, override_bypass, mock_issuer, load}
use fusion_bff.Handler.Auth.Setup.{oauth_config, refresh_config}
use fusion_bff.Server.Routes.{Route, mock_routes}

is_empty-append : (s t : String) → is_empty t ≡ false → is_empty (s <> t) ≡ false
unfolding is_empty
is_empty-append [] t h = rw (nil-append t) h
is_empty-append (c ∷ s) t h = rw (cons-append c s t) refl

-- Nothing is cut from the end of a text whose last part stays.
trim_right-append :
    (sep : ℕ) (s t : String)
    → is_empty t ≡ false
    → trim_right sep t ≡ t
    → trim_right sep (s <> t) ≡ s <> t
unfolding trim_right
trim_right-append sep [] t h k = rw (nil-append t) k
trim_right-append sep (c ∷ s) t h k =
    let rest = trim_right-append sep s t h k in
    let kept = is_empty-append s t h in rw (cons-append c s t, rest, kept) (ground arith)

mock_issuer-base :
    (port : String) → mock_issuer port ≡ ("http://localhost:" <> port) <> "/mock-oidc"
unfolding mock_issuer
mock_issuer-base port = sym (append_assoc "http://localhost:" port "/mock-oidc")

-- A path below the provider's base, and the same after slashes at the end of the base are cut.
below : (s url : String) → (s <> "/mock-oidc") <> url ≡ s <> ("/mock-oidc" <> url)
below s url = append_assoc s "/mock-oidc" url

at_path-below : (s url : String) → at_path (s <> "/mock-oidc") url ≡ s <> ("/mock-oidc" <> url)
unfolding at_path trim_right is_empty
at_path-below s url =
    ap (λ t. t <> url) (trim_right-append b'/' s "/mock-oidc" refl refl) ∙ below s url

-- The embedded provider serves this address below the base, for this method.
abbrev pub IsServed : String → String → String → Type 0
IsServed base method url =
    (r : Route) × (r ∈ mock_routes) × (r.method ≡ method) × (url ≡ base <> r.path)

module _ {Duration : Type 0} where
  -- The provider as the process itself reaches it, and as the browser does.
  abbrev pub local_base : Config Duration → String
  local_base cfg = "http://localhost:" <> cfg.http_port

  abbrev pub browser_base : Config Duration → String
  browser_base cfg = trim_right b'/' cfg.oidc_bypass_base_url

  -- Every address of the provider that the program uses is served by the embedded one.
  abbrev pub IsAddressed : Config Duration → Type 0
  IsAddressed cfg =
      IsServed (local_base cfg) "POST" (oauth_config cfg).token_url
      × IsServed (local_base cfg) "POST" (refresh_config cfg).token_url
      × IsServed (local_base cfg) "POST" cfg.oidc_revoke_url
      × IsServed (browser_base cfg) "GET" (oauth_config cfg).auth_url
      × IsServed (browser_base cfg) "GET" cfg.oidc_end_session_url

  -- With the bypass, the addresses of the provider are made of the two bases.
  override_bypass-IsAddressed :
      (c : Config Duration) → c.oidc_bypass ≡ true → IsAddressed (override_bypass c)
  unfolding override_bypass oauth_config refresh_config mock_routes at_path
  override_bypass-IsAddressed c on =
      let base = "http://localhost:" <> c.http_port in
      let issuer = mock_issuer-base c.http_port in
      let browser = trim_right b'/' c.oidc_bypass_base_url in
      rw (on, override_bypass)
        (
          (
            _,
            inr (inr (inl refl)),
            refl,
            ap (λ t. at_path t "/protocol/openid-connect/token") issuer
                ∙ at_path-below base "/protocol/openid-connect/token",
          ),
          (
            _,
            inr (inr (inl refl)),
            refl,
            ap (λ t. t <> "/protocol/openid-connect/token") issuer
                ∙ below base "/protocol/openid-connect/token",
          ),
          (
            _,
            inr (inr (inr (inr (inl refl)))),
            refl,
            ap (λ t. t <> "/protocol/openid-connect/revoke") issuer
                ∙ below base "/protocol/openid-connect/revoke",
          ),
          (_, inl refl, refl, at_path-below browser "/protocol/openid-connect/auth"),
          (
            _,
            inr (inr (inr (inr (inr (inl refl))))),
            refl,
            below browser "/protocol/openid-connect/logout",
          ),
        )

override_bypass-bypass :
    {Duration : Type 0} (c : Config Duration) → (override_bypass c).oidc_bypass ≡ c.oidc_bypass
unfolding override_bypass
override_bypass-bypass c = elim (Bool-cases c.oidc_bypass) [
  | inl on ↦ rw (on, override_bypass) refl
  | inr off ↦ rw (off, override_bypass) refl
]

-- When the configuration is loaded with the bypass on, each address of the provider that the program
-- uses (for logins, for the exchange of codes, for refreshes, for revocations and for logouts) is one
-- that the embedded provider serves with the method of that use: below the local address and the port
-- of the process for its own requests, and below the configured base address for the browser's.
pub load-IsAddressed :
    {Duration : Type 0} (time : Durations Duration) (env : Env) (cfg : Config Duration)
    → load time env ≡ ok cfg
    → cfg.oidc_bypass ≡ true
    → IsAddressed cfg
load-IsAddressed time env cfg done on =
    let (times, same) = load-settings time env cfg done in
    let made = settings env times in
    let kept : made.oidc_bypass ≡ true =
      sym (override_bypass-bypass made) ∙ (ap (λ c. c.oidc_bypass) same ∙ on) in
    subst IsAddressed same (override_bypass-IsAddressed made kept)
