-- ===== src/Version/RoundTrip/Suffix.antt =====
-- The suffix of a calendar version, as `String` prints it and `Parse` takes it apart.
use mathlib.Core.List.{append-nil}
use flyctl.Base.{
  ℕ, zero, suc, ◌≤◌, ◌≡◌, refl, true, false, Option, none, some, [], ◌∷◌, ◌++◌, arith,
}
use flyctl.Base.Int.{pos}
use flyctl.Base.Bytes.{Bytes, print_ℕ, max_int}
use flyctl.Base.Bytes.Laws.{
  Free, Free-append, cut_last_missing, cut_last_found, split_missing, split_found,
}
use flyctl.Base.Bytes.Decimal.{print_ℕ-Free, atoi-print_ℕ}
use flyctl.Version.{Version, is_empty}
use flyctl.Version.Parse.{parsed, take_meta, split_suffix, with_build}

-- The suffix without metadata, as `String` prints it behind the dash.
abbrev pub suffix_text : ℕ → Bytes → Bytes
suffix_text zero channel = channel
suffix_text (suc b) channel = channel ++ (b'.' ∷ print_ℕ (suc b))

abbrev pub meta_text : Bytes → Bytes
meta_text [] = []
meta_text (c ∷ s) = b'+' ∷ (c ∷ s)

pub take_meta-text :
    (s meta : Bytes) → Free b'+' s → Free b'+' meta → take_meta (s ++ meta_text meta) ≡ (s, meta)
unfolding take_meta
take_meta-text s [] h k = rw (append-nil, split_missing b'+' s h)
take_meta-text s (c ∷ meta) h k =
    rw (split_found b'+' s (c ∷ meta) h, split_missing b'+' (c ∷ meta) k)

-- The channel and the build that a suffix is split into.
abbrev build_text : ℕ → Option Bytes
build_text zero = none
build_text (suc b) = some (print_ℕ (suc b))

pub split_suffix-text :
    (b : ℕ) (channel : Bytes)
    → (b ≡ 0 → Free b'.' channel)
    → split_suffix true (suffix_text b channel) ≡ (channel, build_text b)
unfolding split_suffix
split_suffix-text zero channel h = rw (cut_last_missing b'.' channel (h refl))
split_suffix-text (suc b) channel h =
    rw (cut_last_found b'.' channel (print_ℕ (suc b)) (print_ℕ-Free b'.' (suc b) (omega arith)))

pub with_build-text :
    (b : ℕ) (out : Version)
    → b ≤ max_int
    → with_build out (build_text b) ≡ parsed (record out { build = pos b })
with_build-text zero out h = refl
with_build-text (suc b) out h = rw (atoi-print_ℕ (suc b) h)

pub suffix_text-Free_plus :
    (b : ℕ) (channel : Bytes) → Free b'+' channel → Free b'+' (suffix_text b channel)
suffix_text-Free_plus zero channel h = h
suffix_text-Free_plus (suc b) channel h =
    Free-append b'+' channel _ h ((λ e. omega (arith, e)), print_ℕ-Free b'+' (suc b) (omega arith))

pub not_empty_text :
    (b c : ℕ) (channel t : Bytes) → is_empty (suffix_text b (c ∷ channel) ++ t) ≡ false
not_empty_text zero c channel t = refl
not_empty_text (suc b) c channel t = refl
