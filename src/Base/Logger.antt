-- ===== src/Base/Logger.antt =====
-- `setupLogger` of Profile/cmd/main.go and Authorization/cmd/main.go.
use mathlib.Core.Bool.{Bool, true, false}
use crypto_asset_tracker_mic.Base.Tests.{if◌then◌else◌}
use crypto_asset_tracker_mic.Base.Equality.{Text, codes, text_eq, ◌==◌}

pub data Level : Type 0 where
  debug info : Level

pub record Logger : Type 0 where
  pub json : Bool
  pub level : Level

unfoldable pub setup_logger : Text → Logger
setup_logger env =
    if env == codes "local"
    then record { json = false; level = debug }
    else if env == codes "dev"
    then record { json = true; level = debug }
    else record { json = true; level = info }
