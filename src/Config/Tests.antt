-- ===== src/Config/Tests.antt =====
-- Runs of `config.Load` in two environments.
use fusion_bff.Base.{
  ℕ, String, none, some, [], ◌∷◌, plain, wrapped, ◌/◌, ◌≡◌, refl, inl, inr, ◌==◌, lookup, Dict, ok,
  err, if◌then◌else◌, is_empty, split, trim_space, trim_right, string_eq,
}
use fusion_bff.Config.{
  Env, Durations, Config, env_list, get_env, env_or_default, keep_entries, default_owner_group_of,
  at_path, check_required, parse_duration,
}
use fusion_bff.Config.Load.{
  load_times, settings, override_bypass, load, bypass_of, bypass_or_empty, jwks_url_of, mock_issuer,
}
use fusion_bff.Config.Succeeds.{load-Succeeds_iff}
use fusion_bff.Config.Usable.{IsUsable, load-IsUsable}

program : Unit {0}
unfolding load load_times settings override_bypass check_required parse_duration env_list
    env_or_default get_env keep_entries default_owner_group_of at_path lookup is_empty split
    trim_space trim_right bypass_of bypass_or_empty jwks_url_of mock_issuer
program = tt

-- A clock in seconds, which reads "1m" only.
abbrev clock : Durations ℕ
clock = record {
  nanoseconds = λ n. n;
  parse = λ text. if text == "1m" then ok 60 else err (plain "time: invalid duration");
  quoted = λ text. text;
}

-- The same clock, with a duration given in nanoseconds.
abbrev seconds : Durations ℕ
seconds = record clock { nanoseconds = λ n. n / 1000000000 }

abbrev variables : Dict String
variables =
    ("OIDC_ISSUER_URL", "http://id")
    ∷ ("OIDC_CLIENT_ID", "bff")
    ∷ ("SESSION_MAX_AGE", "1m")
    ∷ ("ALLOWED_USERS", "ann, ,bob@x ")
    ∷ []

abbrev production : Env
production key = lookup key variables

abbrev development : Env
development key = if key == "OIDC_BYPASS" then some "true" else none

abbrev misspelt : Env
misspelt key = lookup key (("SESSION_MAX_AGE", "1x") ∷ ("OIDC_BYPASS", "true") ∷ [])

allowed_users : env_list production "ALLOWED_USERS" ≡ "ann" ∷ "bob@x" ∷ []
unfolding program
allowed_users = refl

load-Succeeds_iff_example : (cfg : Config ℕ) × (load clock production ≡ ok cfg)
unfolding program
load-Succeeds_iff_example =
    (load-Succeeds_iff clock production).1 (
      (inr (λ h. cc, λ h. cc)),
      (inl refl, (inl refl, (inl refl, (inr (60, refl), (inl refl, tt))))),
    )

abbrev loaded : Config ℕ
loaded = override_bypass (
    settings development
      (record { jwks = 900; sa_token = 300; allowlist = 30; session = 28800; probe = 5 }))

load-IsUsable_example : IsUsable loaded
unfolding program
load-IsUsable_example = load-IsUsable seconds development loaded refl

misspelt_duration :
    load clock misspelt
    ≡ err (wrapped "SESSION_MAX_AGE: invalid duration 1x" (plain "time: invalid duration"))
unfolding program
misspelt_duration = refl
