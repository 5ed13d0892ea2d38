-- ===== src/Version/Tests.antt =====
-- Runs of the version functions, and the theorems at concrete inputs.
use flyctl.Base.{◌↔◌, ◌≡◌, true, arith, refl}
use flyctl.Base.Int.{pos, negsuc, ◌+ℤ◌, ◌-ℤ◌, ◌≤ℤ◌}
use flyctl.Base.Bytes.{
  codes, bytes_eq, trim_prefix, has_prefix, cut, cut_last, split_n, split, compare_bytes, digits,
  print_ℕ, print_int, scan, atoi,
}
use flyctl.Version.Order.{SameRelease, compare_version-IsOrder, increment-newer}
use flyctl.Version.RoundTrip.{IsPrintable, parse-to_string}
use flyctl.Version.{
  Day, increment, newer, Version, is_calver, is_dev, base_string, suffix_string,
  build_suffix_string, to_string, compare_int, compare_channel, compare_version, equal,
}
use flyctl.Version.Parse.{
  parsed, panicked, check_padding, take_meta, split_suffix, parse_suffix, parse_core, parse,
}

abbrev release : Version
release = record {
  major = pos 2024;
  minor = pos 11;
  patch = pos 5;
  build = pos 12;
  channel = codes "pr.x";
  build_meta = codes "abc";
}

prints : to_string release ≡ codes "2024.11.5-pr.x.12+abc"
unfolding to_string base_string suffix_string build_suffix_string is_calver is_dev bytes_eq
    print_int print_ℕ digits
prints = refl

parses : parse (codes "v2024.11.5-pr.x.12+abc") ≡ parsed release
unfolding parse parse_core parse_suffix split_suffix take_meta check_padding is_calver bytes_eq
    trim_prefix has_prefix cut cut_last split_n split atoi scan
parses = refl

-- An empty part is indexed before it is refused.
panics : parse (codes "1..2") ≡ panicked
unfolding parse parse_core parse_suffix split_suffix take_meta check_padding is_calver bytes_eq
    trim_prefix has_prefix cut cut_last split_n split atoi scan
panics = refl

-- The channel `stable` has no place of its own in the order.
stable_before_test :
    compare_version
      (record release { channel = codes "stable" })
      (record release { channel = codes "test" })
    ≡ negsuc 0
unfolding compare_version compare_int compare_channel compare_bytes
stable_before_test = refl

abbrev next_day : Day
next_day = record { year = pos 2024; month = pos 11; day = pos 6 }

increment-newer_example : newer (increment release next_day) release ≡ true
unfolding compare_int ◌+ℤ◌
increment-newer_example =
    increment-newer release next_day (omega arith) (omega arith, omega arith)
      (omega arith, omega arith)

compare_version-IsOrder_example :
    (compare_version (increment release next_day) release
      ≡ pos 0 -ℤ compare_version release (increment release next_day))
    × (compare_version release (increment release next_day) ≤ℤ pos 0
        → compare_version (increment release next_day) release ≤ℤ pos 0
        → compare_version release release ≤ℤ pos 0)
    × ((equal release (increment release next_day) ≡ true)
        ↔ SameRelease release (increment release next_day))
compare_version-IsOrder_example =
    compare_version-IsOrder release (increment release next_day) release

release-IsPrintable : IsPrintable 2024 11 5 12 (codes "pr.x") (codes "abc")
release-IsPrintable = record {
  calver = omega arith;
  year_fits = omega arith;
  some_month = omega arith;
  month_fits = omega arith;
  some_day = omega arith;
  day_fits = omega arith;
  build_fits = omega arith;
  channel_plus = omega arith;
  channel_dot = λ e. cc;
  meta_plus = omega arith;
  bare = λ e. cc;
}

parse-to_string_example : parse (to_string release) ≡ parsed release
parse-to_string_example =
    parse-to_string 2024 11 5 12 (codes "pr.x") (codes "abc") release-IsPrintable
