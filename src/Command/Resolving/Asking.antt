-- ===== src/Command/Resolving/Asking.antt =====
-- cmd/hauler/cli/store/sync.go: which image jobs are verified.
use hauler.Base.{◌≡◌, ◌||◌, Text, arith}
use hauler.Base.Dict
use hauler.Base.Dict.{Dict}
use hauler.Command.Precedence.{is_set, first_set}

first_set-is_set :
    (cli item annotation : Text)
    → is_set (first_set cli item annotation) ≡ (is_set cli || is_set item || is_set annotation)
unfolding first_set
first_set-is_set cli item annotation = ground arith
