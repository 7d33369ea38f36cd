-- ===== src/Base/Text.antt =====
-- What the code uses of Go's `fmt`, `strconv` and `strings` on native texts.
use Prim.Native.Nat.{ℕ, zero, suc, ◌+◌, ◌-◌, ◌*◌, ◌/◌, ◌%◌, ◌^◌}
use Prim.Native.Char.{Char, code}
use Prim.Native.String.{String, ◌++◌ as ◌<>◌, len, slice}
use mathlib.Core.Path.{◌≡◌, refl}
use mathlib.Core.Bool.{Bool, true, false, ◌&&◌, ◌||◌}
use mathlib.Core.Option.{Option, none, some}
use mathlib.Core.List.{List, [], ◌∷◌}
use text.Mathlib.Text.{find?}
use elemental_toolkit.Base.Tests.{ltb, leb, ◌==◌, nat_eq, string_eq, if◌then◌else◌}

abbrev pub digit : ℕ → String
digit d = slice "0123456789" d (d + 1)

decimal_digits : ℕ → ℕ → String → String
decimal_digits zero n out = out
decimal_digits (suc fuel) n out =
    let rest = decimal_digits fuel (n / 10) (digit (n % 10) <> out) in
    if ltb n 10 then digit n <> out else rest

-- `strconv.Itoa`, and `%d` in a format, of a number that is not negative. A number has fewer
-- digits than one more than itself.
unfoldable pub decimal : ℕ → String
unfolding decimal_digits
decimal n = decimal_digits (suc n) n ""

-- `strings.Contains`, and the match of an unanchored regular expression without operators.
unfoldable pub contains : String → String → Bool
contains s t = elim (find? s t) [ none ↦ false | some _ ↦ true ]

-- `strings.HasSuffix`
unfoldable pub has_suffix : String → String → Bool
has_suffix s t = if leb (len t) (len s) then slice s (len s - len t) (len s) == t else false

-- `strings.TrimSuffix`
unfoldable pub trim_suffix : String → String → String
unfolding has_suffix
trim_suffix s t = if has_suffix s t then slice s 0 (len s - len t) else s

-- `strings.Join(parts, " ")`
unfoldable pub join_space : List String → String
join_space [] = ""
join_space (s ∷ []) = s
join_space (s ∷ t ∷ rest) = s <> " " <> join_space (t ∷ rest)

-- White space of ASCII.
abbrev pub is_space : Char → Bool
is_space c = code c == 32 || (leb 9 (code c) && leb (code c) 13)

unfoldable pub trim_left : String → String
trim_left String.[] = ""
trim_left (String.◌∷◌ c s) = if is_space c then trim_left s else String.◌∷◌ c s

abbrev put_right : Char → String → String
put_right c t = if is_space c && t == "" then "" else String.◌∷◌ c t

unfoldable pub trim_right : String → String
trim_right String.[] = ""
trim_right (String.◌∷◌ c s) = put_right c (trim_right s)

-- `strings.TrimSpace`
unfoldable pub trim_space : String → String
unfolding trim_left trim_right
trim_space s = trim_right (trim_left s)

-- The text up to the first character that ends a part, and the parts behind it.
abbrev put_part : Bool → Char → String × List String → String × List String
put_part true c (first, others) = ("", first ∷ others)
put_part false c (first, others) = (String.◌∷◌ c first, others)

abbrev all_parts : String × List String → List String
all_parts (first, others) = first ∷ others

unfoldable pub split_on : (Char → Bool) → String → String × List String
split_on ends String.[] = ("", [])
split_on ends (String.◌∷◌ c s) = put_part (ends c) c (split_on ends s)

-- `strings.Split(s, ",")`, and the lines of a text.
unfoldable pub split_commas : String → List String
unfolding split_on
split_commas s = all_parts (split_on (λ c. code c == b',') s)

unfoldable pub split_lines : String → List String
unfolding split_on
split_lines s = all_parts (split_on (λ c. code c == 10) s)

-- `strings.Split(s, " ")`
unfoldable pub split_spaces : String → List String
unfolding split_on
split_spaces s = all_parts (split_on (λ c. code c == 32) s)

unfoldable pub non_empty : List String → List String
non_empty [] = []
non_empty (s ∷ rest) = if s == "" then non_empty rest else s ∷ non_empty rest

-- `strings.Fields`
unfoldable pub fields : String → List String
unfolding split_on non_empty
fields s = non_empty (all_parts (split_on is_space s))

-- `strings.LastIndex` of a character with a code.
unfoldable pub last_index : ℕ → String → Option ℕ
last_index n String.[] = none
last_index n (String.◌∷◌ c s) = elim (last_index n s) [
  | some i ↦ some (suc i)
  | none ↦ if code c == n then some 0 else none
]

-- The value of a text of digits, with `n` for those before.
unfoldable pub read_digits : ℕ → String → Option ℕ
read_digits n String.[] = some n
read_digits n (String.◌∷◌ c s) =
    if leb b'0' (code c) && leb (code c) b'9'
    then read_digits (10 * n + (code c - b'0')) s
    else none

abbrev pub in_range : Option ℕ → Option ℕ
in_range none = none
in_range (some n) = if ltb n (2 ^ 63) then some n else none

-- A match of `^\d+$` with `strconv.Atoi` after it, which fails from 2 ^ 63 on.
unfoldable pub read_decimal : String → Option ℕ
unfolding read_digits
read_decimal s = if s == "" then none else in_range (read_digits 0 s)

-- `filepath.Join` of two paths that are clean and not empty.
unfoldable pub join : String → String → String
unfolding has_suffix
join a b = if has_suffix a "/" then a <> b else a <> "/" <> b

-- What stands before and behind the last slash.
abbrev put_before : Char → String → Option (String × String) → Option (String × String)
put_before c s none = if code c == b'/' then some ("", s) else none
put_before c s (some (before, behind)) = some (String.◌∷◌ c before, behind)

unfoldable pub last_slash : String → Option (String × String)
last_slash String.[] = none
last_slash (String.◌∷◌ c s) = put_before c s (last_slash s)

-- A path without what `filepath.Ext` gives: from the last dot behind the last slash.
unfoldable pub is_plain : String → Bool
is_plain String.[] = true
is_plain (String.◌∷◌ c s) = if code c == b'.' || code c == b'/' then false else is_plain s

unfoldable pub without_ext : String → String
unfolding is_plain
without_ext String.[] = ""
without_ext (String.◌∷◌ c s) =
    if code c == b'.' && is_plain s then "" else String.◌∷◌ c (without_ext s)

-- `filepath.Dir` and `filepath.Base` of a path that is clean and not empty.
unfoldable pub dir : String → String
unfolding last_slash
dir path = elim (last_slash path) [
  | none ↦ "."
  | some (before, behind) ↦ if before == "" then "/" else before
]

unfoldable pub base : String → String
unfolding last_slash
base path = elim (last_slash path) [ none ↦ path | some (before, behind) ↦ behind ]

unfoldable pub is_abs : String → Bool
is_abs String.[] = false
is_abs (String.◌∷◌ c s) = code c == b'/'

-- The text behind a beginning.
unfoldable pub strip_prefix : String → String → Option String
strip_prefix String.[] s = some s
strip_prefix (String.◌∷◌ c p) String.[] = none
strip_prefix (String.◌∷◌ c p) (String.◌∷◌ d s) = if code c == code d then strip_prefix p s else none

-- A match of `\d+` at the beginning, and the text behind it.
unfoldable pub take_digits : ℕ → String → ℕ × String
take_digits n String.[] = (n, "")
take_digits n (String.◌∷◌ c s) =
    if leb b'0' (code c) && leb (code c) b'9'
    then take_digits (10 * n + (code c - b'0')) s
    else (n, String.◌∷◌ c s)

unfoldable pub number : String → Option (ℕ × String)
unfolding take_digits
number String.[] = none
number (String.◌∷◌ c s) =
    if leb b'0' (code c) && leb (code c) b'9' then some (take_digits 0 (String.◌∷◌ c s)) else none

trims : trim_space "  /dev/loop0\n" ≡ "/dev/loop0"
unfolding trim_space string_eq nat_eq
trims = refl

splits : split_commas "rw,relatime" ≡ "rw" ∷ "relatime" ∷ []
unfolding split_commas nat_eq
splits = refl

fields_of : fields " a  b " ≡ "a" ∷ "b" ∷ []
unfolding fields nat_eq string_eq
fields_of = refl

reads : (read_decimal "0120" ≡ some 120) × (read_decimal "active" ≡ none)
unfolding read_decimal string_eq
reads = (refl, refl)

paths : (dir "/state/.snapshots/3/snapshot.img" ≡ "/state/.snapshots/3") × (base "/state/3" ≡ "3")
unfolding dir base nat_eq string_eq
paths = (refl, refl)
