-- ===== src/Config/Level.antt =====
-- Log levels: `validateLogLevel` of internal/config/config.go and `parseLevel` of
-- internal/cli/cli.go.
use nat_pmp.Common.{
  ℕ, ◌+◌, String, ◌&&◌, ◌||◌, List, [], ◌∷◌, map, leb, ◌==◌, nat_eq, list_eq, if◌then◌else◌,
}
use nat_pmp.Common.{failed, Result, ok, err}
use nat_pmp.Common.Text.{codes, is_space}

-- unicode.ToLower, where the result is ASCII: the ASCII capitals, the dotted capital I, and the
-- Kelvin sign. Any other letter keeps a code that occurs in no level's name.
unfoldable pub to_lower : ℕ → ℕ
to_lower c =
    if leb b'A' c && leb c b'Z'
    then c + 32
    else if c == 0x130
    then b'i'
    else if c == 0x212a
    then b'k'
    else c

unfoldable pub trim_left : List ℕ → List ℕ
trim_left [] = []
trim_left (c ∷ s) = let rest = trim_left s in if is_space c then rest else c ∷ s

trim_cons : ℕ → List ℕ → List ℕ
trim_cons c [] = if is_space c then [] else c ∷ []
trim_cons c (x ∷ xs) = c ∷ x ∷ xs

unfoldable pub trim_right : List ℕ → List ℕ
unfolding trim_cons
trim_right [] = []
trim_right (c ∷ s) = trim_cons c (trim_right s)

-- strings.ToLower(strings.TrimSpace(level))
unfoldable pub normalised : String → List ℕ
normalised level = map to_lower (trim_right (trim_left (codes level)))

unfoldable pub validate_log_level : String → Result (Unit {0})
validate_log_level level =
    let n = normalised level in
    if n == codes ""
      || n == codes "debug"
      || n == codes "info"
      || n == codes "warn"
      || n == codes "warning"
      || n == codes "error"
    then ok tt
    else err (failed "config: invalid log_level")

-- slog's levels.
pub data Level : Type 0 where
  debug info warn error : Level

unfoldable pub parse_level : String → Level
parse_level level =
    let n = normalised level in
    if n == codes "debug"
    then debug
    else if n == codes "warn" || n == codes "warning"
    then warn
    else if n == codes "error"
    then error
    else info
