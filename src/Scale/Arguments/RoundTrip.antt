-- ===== src/Scale/Arguments/RoundTrip.antt =====
-- parseGroupCounts reads back the counts that are written for it.
use flyctl.Base.{
  ◌≡◌, ◌≢◌, refl, ap, ◌∙◌, sym, arith, All, All-and, All-append, All-everywhere, append_snoc,
  append-nil, false, List, [], ◌∷◌, ◌++◌, map, some, ◌⊎◌, inl, inr, ◌==◌, ℕ, suc, ◌≤◌,
}
use flyctl.Base.Int.{pos, negsuc}
use flyctl.Base.Bytes.{Bytes, has_prefix, split, atoi, print_ℕ, max_int}
use flyctl.Base.Bytes.Laws.{Free, split_missing, split_found, bytes_eq-other}
use flyctl.Base.Bytes.Decimal.{
  StartsNumber, print_ℕ-StartsNumber, print_ℕ-Free, atoi-print_ℕ, atoi_plus, atoi_minus, atoi-none,
}
use flyctl.Scale.Actions.{GroupCount}
use flyctl.Scale.Arguments.{
  ArgumentError, GroupCounts, set_group, has_sign, counted, with_group, apply_count, apply_parts,
  apply_labels, or_no_groups, single_count, or_labels, parse_group_counts,
}

-- What can be asked for a group: `exactly n` machines, or n + 1 `more` or `fewer` of them.
pub data Asked : Type 0 where
  exactly more fewer : ℕ → Asked

abbrev pub count_for : Asked → GroupCount
count_for (exactly n) = record { absolute = pos n; relative = pos 0 }
count_for (more n) = record { absolute = pos 0; relative = pos (suc n) }
count_for (fewer n) = record { absolute = pos 0; relative = negsuc n }

-- How it is written.
abbrev pub text_of : Asked → Bytes
text_of (exactly n) = print_ℕ n
text_of (more n) = b'+' ∷ print_ℕ (suc n)
text_of (fewer n) = b'-' ∷ print_ℕ (suc n)

-- The number fits an int.
abbrev pub FitsInt : Asked → Type 0
FitsInt (exactly n) = n ≤ max_int
FitsInt (more n) = suc n ≤ max_int
FitsInt (fewer n) = n ≤ max_int

has_sign-digits : (s : Bytes) (n : ℕ) → StartsNumber n s → has_sign s ≡ false
unfolding has_sign has_prefix
has_sign-digits [] n h = elim h [ ]
has_sign-digits (c ∷ s) n h =
    let minus : (c == b'-') ≡ false = ground arith in
    let plus : (c == b'+') ≡ false = ground arith in rw (minus, plus)

counted-more : (n : ℕ) → counted (text_of (more n)) (some (pos (suc n))) ≡ inr (count_for (more n))
unfolding counted has_sign has_prefix
counted-more n = ground arith

counted-fewer : (n : ℕ) → counted (text_of (fewer n)) (some (negsuc n)) ≡ inr (count_for (fewer n))
unfolding counted has_sign has_prefix
counted-fewer n = refl

counted-text_of :
    (a : Asked) → FitsInt a → counted (text_of a) (atoi (text_of a)) ≡ inr (count_for a)
unfolding counted
counted-text_of (exactly n) fits =
    rw (atoi-print_ℕ n fits, has_sign-digits (print_ℕ n) n (print_ℕ-StartsNumber n))
counted-text_of (more n) fits =
    ap (counted (text_of (more n))) (atoi_plus (suc n) fits) ∙ counted-more n
counted-text_of (fewer n) fits =
    ap (counted (text_of (fewer n))) (atoi_minus n fits) ∙ counted-fewer n

apply_count-text_of :
    (name : Bytes) (a : Asked) (groups : GroupCounts)
    → FitsInt a
    → apply_count name (text_of a) groups ≡ inr (set_group name (count_for a) groups)
unfolding apply_count
apply_count-text_of name a groups fits = ap (with_group name groups) (counted-text_of a fits)

text_of-Free : (a : Asked) → Free b'=' (text_of a)
text_of-Free (exactly n) = print_ℕ-Free b'=' n (inr (omega arith))
text_of-Free (more n) =
    ((λ e. absurd (omega (arith, e))), print_ℕ-Free b'=' (suc n) (inr (omega arith)))
text_of-Free (fewer n) =
    ((λ e. absurd (omega (arith, e))), print_ℕ-Free b'=' (suc n) (inr (omega arith)))

-- Labels, as they are written, and the groups that they ask for.
abbrev pub label : Bytes × Asked → Bytes
label (name, a) = name ++ (b'=' ∷ text_of a)

abbrev pub group_of : Bytes × Asked → Bytes × GroupCount
group_of (name, a) = (name, count_for a)

abbrev pub IsLabel : Bytes × Asked → Type 0
IsLabel (name, a) = Free b'=' name × FitsInt a

-- No two labels have the same name.
abbrev pub NamesDiffer : List (Bytes × Asked) → Type 0
NamesDiffer [] = Unit
NamesDiffer (l ∷ labels) = All (λ k. l.0 ≢ k.0) labels × NamesDiffer labels

apply_parts-label :
    (l : Bytes × Asked) (groups : GroupCounts)
    → IsLabel l
    → apply_parts (label l) (split b'=' (label l)) groups
      ≡ inr (set_group l.0 (count_for l.1) groups)
apply_parts-label (name, a) groups (free, fits) =
    ap (λ ps. apply_parts (label (name, a)) ps groups)
      (split_found b'=' name (text_of a) free
        ∙ ap (λ ps. name ∷ ps) (split_missing b'=' (text_of a) (text_of-Free a)))
    ∙ apply_count-text_of name a groups fits

-- A name that is not there yet is put at the end.
set_group-last :
    (groups : GroupCounts) (name : Bytes) (c : GroupCount)
    → All (λ g. g.0 ≢ name) groups
    → set_group name c groups ≡ groups ++ ((name, c) ∷ [])
unfolding set_group
set_group-last [] name c h = refl
set_group-last (g ∷ groups) name c h =
    rw (bytes_eq-other g.0 name h.0, set_group-last groups name c h.1)

abbrev Fresh : GroupCounts → Bytes × Asked → Type 0
Fresh groups l = All (λ g. g.0 ≢ l.0) groups

still-Fresh :
    (groups : GroupCounts) (l : Bytes × Asked) (labels : List (Bytes × Asked))
    → All (λ k. l.0 ≢ k.0) labels
    → All (Fresh groups) labels
    → All (Fresh (groups ++ (group_of l ∷ []))) labels
still-Fresh groups l labels =
    All-and (λ k. l.0 ≢ k.0) (Fresh groups) (Fresh (groups ++ (group_of l ∷ [])))
      (λ k other fresh. All-append (λ g. g.0 ≢ k.0) groups (group_of l ∷ []) fresh (other, tt))
      labels

apply_labels-labels :
    (labels : List (Bytes × Asked)) (groups : GroupCounts)
    → All IsLabel labels
    → NamesDiffer labels
    → All (Fresh groups) labels
    → apply_labels (map label labels) groups ≡ inr (groups ++ map group_of labels)
unfolding apply_labels
apply_labels-labels [] groups h d f = ap inr (sym (append-nil groups))
apply_labels-labels (l ∷ labels) groups h d f =
    let set : apply_parts (label l) (split b'=' (label l)) groups
        ≡ inr (groups ++ (group_of l ∷ [])) =
      apply_parts-label l groups h.0 ∙ ap inr (set_group-last groups l.0 (count_for l.1) f.0) in
    ap
      (λ (r : ArgumentError ⊎ GroupCounts). elim r [
        | inl e ↦ inl e
        | inr after ↦ apply_labels (map label labels) after
      ])
      set
    ∙ (apply_labels-labels labels (groups ++ (group_of l ∷ [])) h.1 d.1
          (still-Fresh groups l labels d.0 f.1)
        ∙ ap inr (append_snoc groups (group_of l) (map group_of labels)))

-- A single label is not taken for a number.
single_count-labels :
    (labels : List (Bytes × Asked)) (default_group : Bytes)
    → single_count (map label labels) default_group ≡ []
single_count-labels [] default_group = refl
single_count-labels (l ∷ []) default_group =
    unfold apply_count counted in rw (atoi-none l.0 (text_of l.1) b'=' (omega arith))
single_count-labels (l ∷ k ∷ labels) default_group = refl

-- The group counts that labels ask for, each written as its name, `=` and a number with the sign that a
-- change has, are what parseGroupCounts reads from the labels; a number alone is read as that count for
-- the default group. This is for names that differ and have no `=`, and for numbers that fit an int.
pub parse_group_counts-labels :
    (labels : List (Bytes × Asked)) (a : Asked) (default_group : Bytes)
    → All IsLabel labels
    → NamesDiffer labels
    → FitsInt a
    → (parse_group_counts (map label labels) default_group ≡ inr (map group_of labels))
      × (parse_group_counts (text_of a ∷ []) default_group
          ≡ inr ((default_group, count_for a) ∷ []))
unfolding parse_group_counts
parse_group_counts-labels labels a default_group h d fits = (
  ap (or_labels (map label labels)) (single_count-labels labels default_group)
      ∙ apply_labels-labels labels [] h d (All-everywhere (Fresh []) labels (λ l. tt)),
  ap (λ r. or_labels (text_of a ∷ []) (or_no_groups r))
      (apply_count-text_of default_group a [] fits
        ∙ ap inr (set_group-last [] default_group (count_for a) tt)),
)
