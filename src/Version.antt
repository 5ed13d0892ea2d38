-- ===== src/Version.antt =====
-- internal/version/version.go: versions, their order, and their texts.
pub mod Parse
pub mod Order
pub mod RoundTrip
pub mod Faults
mod Tests
use flyctl.Base.{
  ℕ, zero, suc, ◌+◌, Bool, true, false, not, ◌&&◌, ◌||◌, Option, none, some, List, [], ◌∷◌, ◌++◌,
  ◌==◌, if◌then◌else◌, ltb, leb,
}
use flyctl.Base.Int.{ℤ, pos, negsuc, pos_part, neg_part, ◌+ℤ◌, ◌-ℤ◌, ltb_ℤ, leb_ℤ, wrap}
use flyctl.Base.Bytes.{
  Bytes, codes, bytes_eq, trim_prefix, has_prefix, cut_last, split_n, split, compare_bytes,
  print_int, atoi,
}

pub record Version : Type 0 where
  pub major : ℤ
  pub minor : ℤ
  pub patch : ℤ
  pub build : ℤ
  pub channel : Bytes
  pub build_meta : Bytes

-- A day, as `New` and `Increment` read it off a time.Time.
pub record Day : Type 0 where
  pub year : ℤ
  pub month : ℤ
  pub day : ℤ

unfoldable pub new : Day → Bytes → ℤ → Version
new t channel build_num = record {
  major = t.year;
  minor = t.month;
  patch = t.day;
  channel = channel;
  build = build_num;
  build_meta = [];
}

abbrev pub is_empty : Bytes → Bool
is_empty [] = true
is_empty (c ∷ s) = false

abbrev pub eq_ℤ : ℤ → ℤ → Bool
eq_ℤ a b = (pos_part a + neg_part b) == (pos_part b + neg_part a)

unfoldable pub is_calver : Version → Bool
is_calver v = ltb_ℤ (pos 2022) v.major

unfoldable pub is_dev : Version → Bool
is_dev v =
    eq_ℤ v.major (pos 0)
    && eq_ℤ v.minor (pos 0)
    && eq_ℤ v.patch (pos 0)
    && bytes_eq v.channel (codes "dev")

unfoldable pub base_string : Version → Bytes
base_string v = print_int v.major ++ (b'.' ∷ (print_int v.minor ++ (b'.' ∷ print_int v.patch)))

unfoldable pub suffix_string : Version → Bytes
suffix_string v =
    if not (is_calver v) && not (is_dev v)
    then (if bytes_eq v.channel (codes "stable") || is_empty v.channel
        then []
        else if ltb_ℤ (pos 0) v.build
        then b'-' ∷ (v.channel ++ (b'-' ∷ print_int v.build))
        else b'-' ∷ v.channel)
    else if not (is_empty v.channel) && not (eq_ℤ v.build (pos 0))
    then b'-' ∷ (v.channel ++ (b'.' ∷ print_int v.build))
    else if not (is_empty v.channel) && eq_ℤ v.build (pos 0)
    then b'-' ∷ v.channel
    else []

unfoldable pub build_suffix_string : Version → Bytes
build_suffix_string v = if is_empty v.build_meta then [] else b'+' ∷ v.build_meta

unfoldable pub to_string : Version → Bytes
to_string v = base_string v ++ (suffix_string v ++ build_suffix_string v)

-- cmp.Compare
unfoldable pub compare_int : ℤ → ℤ → ℤ
compare_int a b = if ltb_ℤ a b then negsuc 0 else if ltb_ℤ b a then pos 1 else pos 0

-- if ret := …; ret != 0 { return ret }
abbrev pub or_else : ℤ → ℤ → ℤ
or_else ret rest = if eq_ℤ ret (pos 0) then rest else ret

-- The channels: one without is newer, and two are compared as texts.
unfoldable pub compare_channel : Bytes → Bytes → ℤ
compare_channel [] [] = compare_bytes [] []
compare_channel [] (c ∷ s) = pos 1
compare_channel (c ∷ s) [] = negsuc 0
compare_channel (c ∷ s) (d ∷ t) = compare_bytes (c ∷ s) (d ∷ t)

unfoldable pub compare_version : Version → Version → ℤ
compare_version x y = or_else (compare_int x.major y.major) (
    or_else (compare_int x.minor y.minor) (
      or_else (compare_int x.patch y.patch)
        (or_else (compare_channel x.channel y.channel) (compare_int x.build y.build))))

unfoldable pub equal : Version → Version → Bool
equal v other = eq_ℤ (compare_version v other) (pos 0)

unfoldable pub newer : Version → Version → Bool
newer v other = eq_ℤ (compare_version v other) (pos 1)

unfoldable pub older : Version → Version → Bool
older v other = eq_ℤ (compare_version v other) (negsuc 0)

unfoldable pub channel_from_calver_or_semver : Version → Bytes
channel_from_calver_or_semver v = if is_calver v then v.channel else codes "stable"

unfoldable pub increment : Version → Day → Version
increment v t =
    if not (is_calver v)
    then record {
      major = v.major;
      minor = v.minor;
      patch = wrap (v.patch +ℤ pos 1);
      build = pos 0;
      channel = v.channel;
      build_meta = [];
    }
    else new t v.channel (
        wrap (
          (if eq_ℤ v.major t.year && eq_ℤ v.minor t.month && eq_ℤ v.patch t.day
            then v.build
            else pos 0)
          +ℤ pos 1))

-- 28*24*time.Hour, in seconds
abbrev pub four_weeks : ℤ
four_weeks = pos 2419200

-- `date` is time.Date(year, month, day, 0, 0, 0, 0, time.UTC), in seconds, and `now` is time.Now().
unfoldable pub significantly_behind : (ℤ → ℤ → ℤ → ℤ) → ℤ → Version → Version → Bool
significantly_behind date now v latest =
    if is_calver latest && is_calver v
    then leb_ℤ four_weeks
        (date latest.major latest.minor latest.patch -ℤ date v.major v.minor v.patch)
    else if is_calver latest && not (is_calver v)
    then leb_ℤ four_weeks (date latest.major latest.minor latest.patch -ℤ now)
    else if ltb_ℤ v.major latest.major
    then true
    else if ltb_ℤ v.minor latest.minor
    then true
    else ltb_ℤ (v.patch +ℤ pos 5) latest.patch
