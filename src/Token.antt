-- ===== src/Token.antt =====
-- internal/token/provider.go: the service account token, read from a file and cached.
pub mod Freshness
mod Tests
use fusion_bff.Base.{
  ℕ, ◌+◌, String, Option, none, some, Result, ok, err, wrapped, ltb, if◌then◌else◌, trim_space,
}

-- `FileProvider`, without its lock.
pub record FileProvider : Type 0 where
  pub cached : String
  pub expires_at : ℕ
  pub path : String
  pub ttl : ℕ

-- `NewFileProvider`: the zero time stands for "never read".
unfoldable pub new_file_provider : String → ℕ → FileProvider
new_file_provider path ttl = record { cached = ""; expires_at = 0; path = path; ttl = ttl }

-- The first half of `Token`, under the read lock: the cached token while it lives.
unfoldable pub cached_token : ℕ → FileProvider → Option String
cached_token now p = if ltb now p.expires_at then some p.cached else none

-- The second half, under the write lock: looks again, then reads the file. `now` is the time of
-- the second look, and `read_at` the time after the read.
unfoldable pub refresh_token : ℕ → ℕ → Result String → FileProvider → Result String × FileProvider
refresh_token now read_at file p = if ltb now p.expires_at then (ok p.cached, p) else elim file [
  | err e ↦ (err (wrapped "reading SA token" e), p)
  | ok bytes ↦
      (ok (trim_space bytes), record p { cached = trim_space bytes; expires_at = read_at + p.ttl })
]

-- `Token`: other callers may have changed the provider from `p` to `q` between the two locks.
unfoldable pub token :
    ℕ → FileProvider → ℕ → ℕ → Result String → FileProvider → Result String × FileProvider
token first p now read_at file q = elim (cached_token first p) [
  | some tok ↦ (ok tok, q)
  | none ↦ refresh_token now read_at file q
]
