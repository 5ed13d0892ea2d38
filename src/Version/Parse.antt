-- ===== src/Version/Parse.antt =====
-- `Parse` of internal/version/version.go.
use flyctl.Base.{Bool, not, ◌&&◌, ◌||◌, Option, none, some, List, [], ◌∷◌, ◌==◌, if◌then◌else◌}
use flyctl.Base.Int.{ℤ, pos}
use flyctl.Base.Bytes.{
  Bytes, codes, bytes_eq, trim_prefix, has_prefix, cut_last, split_n, split, atoi,
}
use flyctl.Version.{Version, is_calver, is_empty}

pub data ParseError : Type 0 where
  too_few_parts zero_padded not_a_number : ParseError

-- `panicked` is the run-time error of an index out of range.
pub data ParseResult : Type 0 where
  parsed : Version → ParseResult
  invalid : ParseError → ParseResult
  panicked : ParseResult

-- The loop over the parts that refuses `part[0] == '0'`, and what follows it.
unfoldable pub check_padding : List Bytes → ParseResult → ParseResult
check_padding [] next = next
check_padding ([] ∷ parts) next = panicked
check_padding ((c ∷ part) ∷ parts) next =
    let rest = check_padding parts next in if c == b'0' then invalid zero_padded else rest

abbrev pub with_number : Option ℤ → (ℤ → ParseResult) → ParseResult
with_number none f = invalid not_a_number
with_number (some n) f = f n

-- if len(parts) == 2, for the parts between the pluses
abbrev pub meta_of : Bytes → List Bytes → Bytes × Bytes
meta_of suffix (a ∷ b ∷ []) = (a, b)
meta_of suffix _ = (suffix, [])

-- The suffix and what goes to `build_meta`: everything behind the plus, if there is one plus.
unfoldable pub take_meta : Bytes → Bytes × Bytes
take_meta suffix = meta_of suffix (split b'+' suffix)

abbrev pub one_or_two : Bytes → Option (Bytes × Bytes) → Bytes × Option Bytes
one_or_two s none = (s, none)
one_or_two s (some (a, b)) = (a, some b)

abbrev pub first_two : Bytes → List Bytes → Bytes × Option Bytes
first_two s (a ∷ b ∷ []) = (a, some b)
first_two s _ = (s, none)

-- The channel and the text of the build: the old format separates them by a dash behind `pre` or
-- `beta`, the new one by the last dot.
unfoldable pub split_suffix : Bool → Bytes → Bytes × Option Bytes
split_suffix calver suffix =
    if not calver && (has_prefix (codes "pre-") suffix || has_prefix (codes "beta-") suffix)
    then first_two suffix (split_n 1 b'-' suffix)
    else one_or_two suffix (cut_last b'.' suffix)

abbrev pub with_build : Version → Option Bytes → ParseResult
with_build out none = parsed (record out { build = pos 0 })
with_build out (some b) = with_number (atoi b) (λ x. parsed (record out { build = x }))

-- What is done with the suffix, when `out` has its three numbers.
unfoldable pub parse_suffix : Version → Bytes → ParseResult
parse_suffix out suffix =
    if is_empty suffix
    then parsed (record out { build = pos 0; channel = [] })
    else let (rest, meta) = take_meta suffix in
      let (channel, build) = split_suffix (is_calver out) rest in
      with_build (record out { build_meta = meta; channel = channel }) build

unfoldable pub parse_core : List Bytes → Bytes → ParseResult
parse_core (a ∷ b ∷ c ∷ []) suffix =
    let numbers = with_number (atoi a) (λ x. with_number (atoi b) (λ y. with_number (atoi c) (λ z.
      parse_suffix
        (record { major = x; minor = y; patch = z; build = pos 0; channel = []; build_meta = [] })
        suffix))) in
    if bytes_eq a (codes "0") then numbers else check_padding (a ∷ b ∷ c ∷ []) numbers
parse_core _ suffix = invalid too_few_parts

abbrev pub core_and_suffix : List Bytes → Bytes × Bytes
core_and_suffix (a ∷ b ∷ []) = (a, b)
core_and_suffix (a ∷ _) = (a, [])
core_and_suffix [] = ([], [])

unfoldable pub parse : Bytes → ParseResult
parse version =
    let (core, suffix) = core_and_suffix (split_n 1 b'-' (trim_prefix b'v' version)) in
    parse_core (split_n 2 b'.' core) suffix
