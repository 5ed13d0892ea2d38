-- ===== src/Version/Faults.antt =====
-- Inputs at which `Parse` and `SignificantlyBehind` do not do what they are for.
use flyctl.Base.{ℕ, ap, ◌≡◌, ◌≢◌, ◌∙◌, true, false, [], ◌∷◌, ◌++◌, arith, ◌==◌}
use flyctl.Base.Int.{ℤ, pos, ◌-ℤ◌, ◌≤ℤ◌, leb_ℤ, int_laws}
use flyctl.Base.Bytes.{Bytes, bytes_eq, trim_prefix, split_n}
use flyctl.Base.Bytes.Laws.{Free, Free-append, split_n_missing, split_n_found}
use flyctl.Version.{Version, is_calver, four_weeks, significantly_behind}
use flyctl.Version.Parse.{panicked, check_padding, parse_core, parse}

split-empty_minor :
    (c : ℕ) (a t : Bytes)
    → Free b'.' (c ∷ a)
    → split_n 2 b'.' ((c ∷ a) ++ (b'.' ∷ b'.' ∷ t)) ≡ (c ∷ a) ∷ [] ∷ t ∷ []
unfolding split_n
split-empty_minor c a t h =
    split_n_found b'.' 1 (c ∷ a) (b'.' ∷ t) h ∙ ap (λ r. (c ∷ a) ∷ r) (split_n_found b'.' 0 [] t tt)

-- A text with nothing between its first two dots makes `Parse` index an empty part, if it starts
-- with no `v` and no 0 and has no dash.
parse-empty_minor :
    (c : ℕ) (a t : Bytes)
    → c ≢ b'v'
    → c ≢ b'0'
    → Free b'.' (c ∷ a)
    → Free b'-' (c ∷ a)
    → Free b'-' t
    → parse ((c ∷ a) ++ (b'.' ∷ b'.' ∷ t)) ≡ panicked
unfolding parse
parse-empty_minor c a t not_v not_zero dots dashes rest =
    let no_v : (c == b'v') ≡ false = ground arith in
    let no_zero : (c == b'0') ≡ false = ground arith in
    let dash_free : Free b'-' ((c ∷ a) ++ (b'.' ∷ b'.' ∷ t)) =
      Free-append b'-' (c ∷ a) _ dashes
        ((λ e. omega (arith, e)), ((λ e. omega (arith, e)), rest)) in
    rw
      (
        trimmed no_v,
        split_n_missing b'-' 1 ((c ∷ a) ++ (b'.' ∷ b'.' ∷ t)) dash_free,
        split-empty_minor c a t dots,
      )
      (unfold parse_core check_padding bytes_eq in rw no_zero)
  where
    trimmed :
        (c == b'v') ≡ false
        → trim_prefix b'v' ((c ∷ a) ++ (b'.' ∷ b'.' ∷ t)) ≡ (c ∷ a) ++ (b'.' ∷ b'.' ∷ t)
    trimmed e = unfold trim_prefix in rw e

-- A version from before the calendar versions never counts as behind a calendar version that is out
-- already, however long: `date` turns a day into seconds.
old_version_not_behind :
    (date : ℤ → ℤ → ℤ → ℤ) (now : ℤ) (v latest : Version)
    → is_calver v ≡ false
    → is_calver latest ≡ true
    → date latest.major latest.minor latest.patch ≤ℤ now
    → significantly_behind date now v latest ≡ false
unfolding significantly_behind
old_version_not_behind date now v latest old new out =
    let soon : leb_ℤ four_weeks (date latest.major latest.minor latest.patch -ℤ now) ≡ false =
      below (date latest.major latest.minor latest.patch -ℤ now) (omega (int_laws, out)) in
    rw (old, new, soon)
  where
    below : (d : ℤ) → d ≤ℤ pos 0 → leb_ℤ four_weeks d ≡ false
    below d h = ground arith
