-- ===== src/Rollout/Rolling/Jobs.antt =====
-- The jobs of the rolling strategy share out the entries.
use flyctl.Base.{
  arith, ◌≡◌, refl, false≢true, sym, ◌∙◌, ap, ℕ, suc, ◌+◌, ◌≤◌, ◌<◌, String, Bool, true, false, not,
  Bool-cases, inl, inr, List, [], ◌∷◌, ◌++◌, All, All-append, str_eq, if◌then◌else◌, length, Dict,
  lookup, put, or_empty, group_by,
}
use flyctl.Rollout.Entries.{Entry}
use flyctl.Rollout.Pool.Taken.{count}
use flyctl.Rollout.Rolling.{
  Unavailable, whole, share, get_pool_size, Job, keep, is_started, cold_jobs, warm_jobs, group_jobs,
  rolling_jobs,
}

module _ {E : Type 0} (test : E → Bool) where
  count-append : (xs ys : List E) → count test (xs ++ ys) ≡ count test xs + count test ys
  count-append [] ys = omega arith
  count-append (x ∷ xs) ys = omega (arith, count-append xs ys)

  -- All entries of a map.
  abbrev count_groups : Dict (List E) → ℕ
  count_groups [] = 0
  count_groups ((k, xs) ∷ d) = count test xs + count_groups d

  count_groups-put :
      (k : String) (v : List E) (d : Dict (List E))
      → count_groups (put k v d) + count test (or_empty (lookup k d))
        ≡ count_groups d + count test v
  unfolding put lookup
  count_groups-put k v [] = omega arith
  count_groups-put k v ((j, xs) ∷ d) = elim (Bool-cases (str_eq j k)) [
    | inl same ↦ rw same (omega arith)
    | inr other ↦ rw other (omega (arith, count_groups-put k v d))
  ]

  count_groups-group_by :
      (key : E → String) (xs : List E) (d : Dict (List E))
      → count_groups (group_by key xs d) ≡ count test xs + count_groups d
  unfolding group_by
  count_groups-group_by key [] d = omega arith
  count_groups-group_by key (x ∷ xs) d = omega (
    arith,
    count_groups-group_by key xs (put (key x) (or_empty (lookup (key x) d) ++ (x ∷ [])) d),
    count_groups-put (key x) (or_empty (lookup (key x) d) ++ (x ∷ [])) d,
    count-append (or_empty (lookup (key x) d)) (x ∷ []),
  )

  count-keep :
      (p : E → Bool) (xs : List E)
      → count test (keep (λ x. not (p x)) xs) + count test (keep p xs) ≡ count test xs
  unfolding keep
  count-keep p [] = refl
  count-keep p (x ∷ xs) = elim (Bool-cases (p x)) [
    | inl kept ↦ rw kept (omega (arith, count-keep p xs))
    | inr gone ↦ rw gone (omega (arith, count-keep p xs))
  ]

module _ (test : Entry → Bool) where
  -- The entries of all jobs that pass the test.
  abbrev pub count_jobs : List Job → ℕ
  count_jobs [] = 0
  count_jobs (j ∷ js) = count test j.entries + count_jobs js

  count_jobs-append : (xs ys : List Job) → count_jobs (xs ++ ys) ≡ count_jobs xs + count_jobs ys
  count_jobs-append [] ys = omega arith
  count_jobs-append (x ∷ xs) ys = omega (arith, count_jobs-append xs ys)

  count_jobs-cold :
      (name : String) (es : List Entry) → count_jobs (cold_jobs name es) ≡ count test es
  count_jobs-cold name [] = refl
  count_jobs-cold name (e ∷ es) = omega arith

  count_jobs-warm :
      (mu : Unavailable) (name : String) (es : List Entry)
      → count_jobs (warm_jobs mu name es) ≡ count test es
  count_jobs-warm mu name [] = refl
  count_jobs-warm mu name (e ∷ es) = omega arith

  count_jobs-group_jobs :
      (mu : Unavailable) (d : Dict (List Entry))
      → count_jobs (group_jobs mu d) ≡ count_groups test d
  unfolding group_jobs
  count_jobs-group_jobs mu [] = refl
  count_jobs-group_jobs mu ((name, es) ∷ d) =
      let cold : List Entry = keep (λ e. not (is_started e)) es in
      let warm : List Entry = keep is_started es in
      omega (
        arith,
        count_jobs-append (cold_jobs name cold) (warm_jobs mu name warm ++ group_jobs mu d),
        count_jobs-append (warm_jobs mu name warm) (group_jobs mu d),
        count_jobs-cold name cold,
        count_jobs-warm mu name warm,
        count-keep test is_started es,
        count_jobs-group_jobs mu d,
      )

-- A maximum that is positive: some machine may be down, and a share is never more than all machines.
abbrev pub IsPositive : Unavailable → Type 0
IsPositive (whole n) = 0 < n
IsPositive (share f) = (n : ℕ) → 0 < n → (0 < f n) × (f n ≤ n)

-- Its entries all are started, or none is; it can run one update at least, and only so many as there may
-- be machines down, or 30 of machines that are not started.
abbrev pub IsSound : Unavailable → Job → Type 0
IsSound mu j =
    (0 < length j.entries)
    × (0 < j.pool_size)
    × (j.pool_size ≤ (if j.warm then get_pool_size mu (length j.entries) else 30))
    × All (λ e. is_started e ≡ j.warm) j.entries

module _ (mu : Unavailable) (positive : IsPositive mu) where
  positive_size : (n : ℕ) → 0 < get_pool_size mu (suc n)
  positive_size n = by_kind mu positive
    where
      by_kind : (mu : Unavailable) → IsPositive mu → 0 < get_pool_size mu (suc n)
      by_kind (whole k) h = unfold get_pool_size in h
      by_kind (share f) h = unfold get_pool_size in (h (suc n) (omega arith)).0

  keep-Allowed :
      (p : Entry → Bool) (b : Bool)
      → ((e : Entry) → p e ≡ true → is_started e ≡ b)
      → (es : List Entry) → All (λ e. is_started e ≡ b) (keep p es)
  unfolding keep
  keep-Allowed p b h [] = tt
  keep-Allowed p b h (e ∷ es) = elim (Bool-cases (p e)) [
    | inl kept ↦ rw kept (h e kept, keep-Allowed p b h es)
    | inr gone ↦ rw gone (keep-Allowed p b h es)
  ]

  cold_jobs-IsSound :
      (name : String) (es : List Entry)
      → All (λ e. is_started e ≡ false) es
      → All (IsSound mu) (cold_jobs name es)
  cold_jobs-IsSound name [] h = tt
  cold_jobs-IsSound name (e ∷ es) h = ((omega arith, ground arith, ground arith, h), tt)

  warm_jobs-IsSound :
      (name : String) (es : List Entry)
      → All (λ e. is_started e ≡ true) es
      → All (IsSound mu) (warm_jobs mu name es)
  warm_jobs-IsSound name [] h = tt
  warm_jobs-IsSound name (e ∷ es) h = ((omega arith, positive_size (length es), omega arith, h), tt)

  group_jobs-IsSound : (d : Dict (List Entry)) → All (IsSound mu) (group_jobs mu d)
  unfolding group_jobs
  group_jobs-IsSound [] = tt
  group_jobs-IsSound ((name, es) ∷ d) =
      All-append (IsSound mu) (cold_jobs name (keep (λ e. not (is_started e)) es))
        (warm_jobs mu name (keep is_started es) ++ group_jobs mu d)
        (cold_jobs-IsSound name _ (keep-Allowed (λ e. not (is_started e)) false not_started es))
        (All-append (IsSound mu) (warm_jobs mu name (keep is_started es)) (group_jobs mu d)
          (warm_jobs-IsSound name _ (keep-Allowed is_started true (λ e k. k) es))
          (group_jobs-IsSound d))
    where
      not_started : (e : Entry) → not (is_started e) ≡ true → is_started e ≡ false
      not_started e h = elim (Bool-cases (is_started e)) [
        | inl started ↦ absurd (false≢true (ap not (sym started) ∙ h))
        | inr stopped ↦ stopped
      ]

-- The rolling strategy shares out the entries among its jobs: each entry is in the jobs as often as it is
-- among the entries. Each job has an entry, and a pool that can run one update at least and at most so many
-- as there may be machines down, or 30 for machines that are not started; and the machines of a job all are
-- started, or none is. This is for a sort that keeps how often each entry occurs, and for a maximum of
-- unavailable machines that is positive, and is at most all machines if it is a share.
pub rolling_jobs-IsSound :
    (sort : List Entry → List Entry) (mu : Unavailable) (entries : List Entry)
    → ((test : Entry → Bool) (es : List Entry) → count test (sort es) ≡ count test es)
    → IsPositive mu
    → ((test : Entry → Bool) → count_jobs test (rolling_jobs sort mu entries) ≡ count test entries)
      × All (IsSound mu) (rolling_jobs sort mu entries)
unfolding rolling_jobs
rolling_jobs-IsSound sort mu entries same positive = (
  (λ test.
      count_jobs-group_jobs test mu (group_by (λ e. e.launch_input.group) (sort entries) [])
      ∙ omega (
        arith,
        count_groups-group_by test (λ e. e.launch_input.group) (sort entries) [],
        same test entries,
      )),
  group_jobs-IsSound mu positive (group_by (λ e. e.launch_input.group) (sort entries) []),
)
