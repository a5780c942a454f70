-- ===== src/Base/Chars.antt =====
-- The character classes of <cctype> on bytes, in the "C" locale.
use Prim.Native.Nat.{ℕ, ◌+◌}
use mathlib.Core.Bool.{Bool, ◌&&◌, ◌||◌}
use mathlib.Core.List.{List, map}
use fast_gdb.Base.Tests.{leb, ◌==◌, if◌then◌else◌}

abbrev pub between : ℕ → ℕ → ℕ → Bool
between low high c = leb low c && leb c high

abbrev pub tolower : ℕ → ℕ
tolower c = if between 65 90 c then c + 32 else c

abbrev pub isalnum : ℕ → Bool
isalnum c = between 48 57 c || between 65 90 c || between 97 122 c

abbrev pub isalpha : ℕ → Bool
isalpha c = between 65 90 c || between 97 122 c

abbrev pub isdigit : ℕ → Bool
isdigit c = between 48 57 c

abbrev pub isspace : ℕ → Bool
isspace c = c == 32 || between 9 13 c

abbrev pub lower_copy : List ℕ → List ℕ
lower_copy value = map tolower value
