-- ===== src/Server.antt =====
-- cmd/server/main.go and internal/api/router.go: how the process starts and which routes it serves.
pub mod Start
pub mod Wired
pub mod Routes
pub mod Guarded
pub mod Unambiguous
pub mod Forward
pub mod Addresses
pub mod Admin
mod Tests
use fusion_bff.Base.{ℕ, String, Bool, true, false, Option, none, some, ◌==◌, if◌then◌else◌}

-- `slog.Level`, and whether `LOG_LEVEL` is one that is known.
pub data Level : Type 0 where
  debug info warn error : Level

-- The switch of `setupLogger`: "" is known, and any other unknown text means the level info.
unfoldable pub log_level_of : String → Level × Bool
log_level_of text =
    if text == "debug"
    then (debug, true)
    else if text == "warn"
    then (warn, true)
    else if text == "error"
    then (error, true)
    else if text == "info"
    then (info, true)
    else (info, text == "")
