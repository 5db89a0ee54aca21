-- ===== src/Examples/Configs.antt =====
-- The theorems on literals and on the checks of the config at work.
use stashd.Prelude.{◌≡◌, refl, codes, none, [], ◌∷◌, some, arith, digits_of}
use stashd.Domain.Units.Durations.{hour, minute, parse_duration}
use stashd.Domain.Units.Written.{duration_literal, parse_duration-duration_literal}
use stashd.Config.Checks.{problems}
use stashd.Config.Sound.{Served, problems-Served}
use stashd.Prelude.Int.{pos}
use stashd.Config.Modes.{number, written, fileset_mode}
use stashd.Examples.{cluster, nvme, archive}

parse_duration-duration_literal_example :
    parse_duration (duration_literal ((1, hour) ∷ (30, minute) ∷ [])) ≡ some 5400000000
unfolding digits_of
parse_duration-duration_literal_example =
    parse_duration-duration_literal (1, hour) ((30, minute) ∷ []) (omega arith, (omega arith, tt))
      (omega arith)

problems-Served_example : Served cluster nvme × (Served cluster archive × Unit {0})
unfolding problems
problems-Served_example = problems-Served cluster refl

-- YAML reads an unquoted 0777 as 511, which is read as octal once more; of 0700 it makes 448, which
-- is no octal number.
unquoted : fileset_mode (number (pos 511)) ≡ some 329
unfolding fileset_mode
unquoted = refl

unquoted_default : fileset_mode (number (pos 448)) ≡ none
unfolding fileset_mode
unquoted_default = refl

quoted : fileset_mode (written (codes " 0o750 ")) ≡ some 488
unfolding fileset_mode
quoted = refl
