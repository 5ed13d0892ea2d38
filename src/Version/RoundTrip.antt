-- ===== src/Version/RoundTrip.antt =====
-- `Parse` reads back what `String` prints of a calendar version.
pub mod Suffix
use mathlib.Core.List.{append-nil, append_assoc}
use flyctl.Base.{
  ℕ, zero, suc, ◌≤◌, ◌<◌, ◌≡◌, refl, ap, ◌∙◌, true, false, List, [], ◌∷◌, ◌++◌, arith, ◌==◌,
}
use flyctl.Base.Int.{pos, ltb_ℤ}
use flyctl.Base.Bytes.{Bytes, codes, bytes_eq, trim_prefix, split_n, print_ℕ, print_int, max_int}
use flyctl.Base.Bytes.Laws.{Free, Free-append, split_n_missing, split_n_found}
use flyctl.Base.Bytes.Decimal.{StartsNumber, print_ℕ-StartsNumber, print_ℕ-Free, atoi-print_ℕ}
use flyctl.Version.{Version, is_calver, base_string, suffix_string, build_suffix_string, to_string}
use flyctl.Version.Parse.{
  ParseResult, parsed, check_padding, parse_suffix, parse_core, core_and_suffix, parse,
}
use Suffix.{
  suffix_text, meta_text, take_meta-text, split_suffix-text, with_build-text, suffix_text-Free_plus,
  not_empty_text,
}

-- A calendar version that `String` prints without loss: its numbers fit an int and its date has no
-- zero, neither text has a plus, a build or metadata go with a channel, and a channel without a
-- build has no dot.
pub record IsPrintable (y m d b : ℕ) (channel meta : Bytes) : Type 0 where
  pub calver : 2022 < y
  pub year_fits : y ≤ max_int
  pub some_month : 0 < m
  pub month_fits : m ≤ max_int
  pub some_day : 0 < d
  pub day_fits : d ≤ max_int
  pub build_fits : b ≤ max_int
  pub channel_plus : Free b'+' channel
  pub channel_dot : b ≡ 0 → Free b'.' channel
  pub meta_plus : Free b'+' meta
  pub bare : channel ≡ [] → (b ≡ 0) × (meta ≡ [])

-- The version with these numbers and texts.
abbrev pub calver : ℕ → ℕ → ℕ → ℕ → Bytes → Bytes → Version
calver y m d b channel meta = record {
  major = pos y;
  minor = pos m;
  patch = pos d;
  build = pos b;
  channel = channel;
  build_meta = meta;
}

abbrev date_text : ℕ → ℕ → ℕ → Bytes
date_text y m d = print_ℕ y ++ (b'.' ∷ (print_ℕ m ++ (b'.' ∷ print_ℕ d)))

date_text-Free_dash : (y m d : ℕ) → Free b'-' (date_text y m d)
date_text-Free_dash y m d = Free-append b'-' (print_ℕ y) _ (print_ℕ-Free b'-' y (omega arith)) (
  (λ e. omega (arith, e)),
  Free-append b'-' (print_ℕ m) _ (print_ℕ-Free b'-' m (omega arith))
      ((λ e. omega (arith, e)), print_ℕ-Free b'-' d (omega arith)),
)

split-date_text :
    (y m d : ℕ) → split_n 2 b'.' (date_text y m d) ≡ print_ℕ y ∷ print_ℕ m ∷ print_ℕ d ∷ []
unfolding split_n
split-date_text y m d =
    split_n_found b'.' 1 (print_ℕ y) _ (print_ℕ-Free b'.' y (omega arith))
    ∙ ap (λ r. print_ℕ y ∷ r)
        (split_n_found b'.' 0 (print_ℕ m) _ (print_ℕ-Free b'.' m (omega arith)))

trim_number : (n : ℕ) (s t : Bytes) → StartsNumber n s → trim_prefix b'v' (s ++ t) ≡ s ++ t
unfolding trim_prefix
trim_number n [] t h = elim h [ ]
trim_number n (c ∷ s) t h = let e : (c == b'v') ≡ false = ground arith in rw e

not_zero_text : (n : ℕ) (s : Bytes) → StartsNumber n s → 0 < n → bytes_eq s (codes "0") ≡ false
unfolding bytes_eq
not_zero_text n [] h positive = refl
not_zero_text n (c ∷ s) h positive =
    let e : (c == b'0') ≡ false = ground (arith, h.1 positive) in rw e

not_padded :
    (n : ℕ) (s : Bytes) (parts : List Bytes) (next : ParseResult)
    → StartsNumber n s
    → 0 < n
    → check_padding (s ∷ parts) next ≡ check_padding parts next
unfolding check_padding
not_padded n [] parts next h positive = elim h [ ]
not_padded n (c ∷ s) parts next h positive =
    let e : (c == b'0') ≡ false = ground (arith, h.1 positive) in rw e

-- The three numbers of the date are read back.
parse_core-date :
    (y m d : ℕ) (suffix : Bytes)
    → 0 < y
    → y ≤ max_int
    → 0 < m
    → m ≤ max_int
    → 0 < d
    → d ≤ max_int
    → parse_core (print_ℕ y ∷ print_ℕ m ∷ print_ℕ d ∷ []) suffix
      ≡ parse_suffix (calver y m d 0 [] []) suffix
unfolding parse_core
parse_core-date y m d suffix py fy pm fm pd fd =
    rw
      (
        not_zero_text y (print_ℕ y) (print_ℕ-StartsNumber y) py,
        not_padded y (print_ℕ y) (print_ℕ m ∷ print_ℕ d ∷ []) _ (print_ℕ-StartsNumber y) py,
        not_padded m (print_ℕ m) (print_ℕ d ∷ []) _ (print_ℕ-StartsNumber m) pm,
        not_padded d (print_ℕ d) [] _ (print_ℕ-StartsNumber d) pd,
        atoi-print_ℕ y fy,
        atoi-print_ℕ m fm,
        atoi-print_ℕ d fd,
      )
      (unfold check_padding in refl)

-- A suffix with a channel is read back.
parse_suffix-text :
    (y m d b c : ℕ) (channel meta : Bytes)
    → IsPrintable y m d b (c ∷ channel) meta
    → parse_suffix (calver y m d 0 [] []) (suffix_text b (c ∷ channel) ++ meta_text meta)
      ≡ parsed (calver y m d b (c ∷ channel) meta)
unfolding parse_suffix is_calver
parse_suffix-text y m d b c channel meta h =
    let year : ltb_ℤ (pos 2022) (pos y) ≡ true = ground (arith, h.calver) in
    rw
      (
        not_empty_text b c channel (meta_text meta),
        take_meta-text (suffix_text b (c ∷ channel)) meta
            (suffix_text-Free_plus b (c ∷ channel) h.channel_plus) h.meta_plus,
        year,
        split_suffix-text b (c ∷ channel) h.channel_dot,
      )
      (with_build-text b (calver y m d 0 (c ∷ channel) meta) h.build_fits)

suffix_string-calver :
    (y m d b c : ℕ) (channel meta : Bytes)
    → 2022 < y
    → suffix_string (calver y m d b (c ∷ channel) meta) ≡ b'-' ∷ suffix_text b (c ∷ channel)
unfolding suffix_string is_calver print_int
suffix_string-calver y m d zero c channel meta h =
    let year : ltb_ℤ (pos 2022) (pos y) ≡ true = ground arith in rw year
suffix_string-calver y m d (suc b) c channel meta h =
    let year : ltb_ℤ (pos 2022) (pos y) ≡ true = ground arith in rw year (ground arith)

build_suffix_string-text : (v : Version) → build_suffix_string v ≡ meta_text v.build_meta
unfolding build_suffix_string
build_suffix_string-text v = ground arith

trim-date_text :
    (y m d : ℕ) (t : Bytes) → trim_prefix b'v' (date_text y m d ++ t) ≡ date_text y m d ++ t
trim-date_text y m d t = rw append_assoc (trim_number y (print_ℕ y) _ (print_ℕ-StartsNumber y))

to_string-calver :
    (y m d b c : ℕ) (channel meta : Bytes)
    → 2022 < y
    → to_string (calver y m d b (c ∷ channel) meta)
      ≡ date_text y m d ++ (b'-' ∷ (suffix_text b (c ∷ channel) ++ meta_text meta))
unfolding to_string base_string print_int
to_string-calver y m d b c channel meta h =
    rw (suffix_string-calver y m d b c channel meta h, build_suffix_string-text)

to_string-bare : (y m d : ℕ) → 2022 < y → to_string (calver y m d 0 [] []) ≡ date_text y m d ++ []
unfolding to_string base_string print_int suffix_string build_suffix_string is_calver
to_string-bare y m d h = let year : ltb_ℤ (pos 2022) (pos y) ≡ true = ground arith in rw year

split-dash :
    (y m d : ℕ) (t : Bytes)
    → split_n 1 b'-' (date_text y m d ++ (b'-' ∷ t)) ≡ date_text y m d ∷ t ∷ []
unfolding split_n
split-dash y m d t = split_n_found b'-' 0 (date_text y m d) t (date_text-Free_dash y m d)

-- What `Parse` does with a text whose date has been cut off.
parse-date_text :
    (y m d : ℕ) (t suffix : Bytes) (parts : List Bytes)
    → 2022 < y
    → y ≤ max_int
    → 0 < m
    → m ≤ max_int
    → 0 < d
    → d ≤ max_int
    → split_n 1 b'-' (date_text y m d ++ t) ≡ parts
    → core_and_suffix parts ≡ (date_text y m d, suffix)
    → parse (date_text y m d ++ t) ≡ parse_suffix (calver y m d 0 [] []) suffix
unfolding parse
parse-date_text y m d t suffix parts h fy pm fm pd fd cuts core =
    rw (trim-date_text y m d t, cuts, core, split-date_text y m d)
      (parse_core-date y m d suffix (omega arith) fy pm fm pd fd)

-- A calendar version (year after 2022) whose numbers fit an int, whose month and day are not zero,
-- whose channel and metadata have no plus, which has no build and no metadata without a channel,
-- and whose channel has no dot where there is no build, is read back from its print by Parse, field
-- by field.
pub parse-to_string :
    (y m d b : ℕ) (channel meta : Bytes)
    → IsPrintable y m d b channel meta
    → parse (to_string (calver y m d b channel meta)) ≡ parsed (calver y m d b channel meta)
parse-to_string y m d b [] meta h =
    rw ((h.bare refl).0, (h.bare refl).1, to_string-bare y m d h.calver)
      (parse-date_text y m d [] [] (date_text y m d ∷ []) h.calver h.year_fits h.some_month
          h.month_fits h.some_day h.day_fits
          (rw append-nil (split_n_missing b'-' 1 (date_text y m d) (date_text-Free_dash y m d)))
          refl
        ∙ unfold parse_suffix in refl)
parse-to_string y m d b (c ∷ channel) meta h =
    rw (to_string-calver y m d b c channel meta h.calver) (
      parse-date_text y m d _ (suffix_text b (c ∷ channel) ++ meta_text meta)
        (date_text y m d ∷ (suffix_text b (c ∷ channel) ++ meta_text meta) ∷ []) h.calver
        h.year_fits h.some_month h.month_fits h.some_day h.day_fits
        (split-dash y m d (suffix_text b (c ∷ channel) ++ meta_text meta)) refl
      ∙ parse_suffix-text y m d b c channel meta h)
