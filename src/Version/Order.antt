-- ===== src/Version/Order.antt =====
-- The order of versions.
use flyctl.Base.{
  Bool, false, if◌then◌else◌, ◌&&◌, ◌≡◌, refl, ◌⊎◌, ◌↔◌, inl, inr, true, [], ◌∷◌, arith, Bool-cases,
}
use flyctl.Base.Int.{ℤ, pos, negsuc, ◌+ℤ◌, ◌-ℤ◌, ◌≤ℤ◌, wrap, IsInt, wrap_fits}
use flyctl.Base.Bytes.{Bytes, compare_bytes}
use flyctl.Version.{
  Version, Day, new, is_calver, eq_ℤ, or_else, compare_int, compare_channel, compare_version, equal,
  newer, increment,
}

-- The three results of a comparison.
abbrev IsSign : ℤ → Type 0
IsSign s = (s ≡ negsuc 0) ⊎ (s ≡ pos 0) ⊎ (s ≡ pos 1)

-- What makes three comparisons, of x with y, of y with z and of x with z, fit together.
record Fits (a b c : ℤ) : Type 0 where
  le : a ≤ℤ pos 0 → b ≤ℤ pos 0 → c ≤ℤ pos 0
  zero : a ≡ pos 0 → b ≡ pos 0 → c ≡ pos 0
  both : a ≤ℤ pos 0 → b ≤ℤ pos 0 → c ≡ pos 0 → (a ≡ pos 0) × (b ≡ pos 0)

compare_int-flip : (a b : ℤ) → compare_int b a ≡ pos 0 -ℤ compare_int a b
unfolding compare_int ◌-ℤ◌
compare_int-flip a b = ground arith

compare_int-Fits : (a b c : ℤ) → Fits (compare_int a b) (compare_int b c) (compare_int a c)
unfolding compare_int
compare_int-Fits a b c = ground arith

compare_bytes-flip : (s t : Bytes) → compare_bytes t s ≡ pos 0 -ℤ compare_bytes s t
unfolding compare_bytes ◌-ℤ◌
compare_bytes-flip [] [] = refl
compare_bytes-flip [] (b ∷ t) = refl
compare_bytes-flip (a ∷ s) [] = refl
compare_bytes-flip (a ∷ s) (b ∷ t) = ground (arith, compare_bytes-flip s t)

compare_bytes-Fits :
    (s t u : Bytes) → Fits (compare_bytes s t) (compare_bytes t u) (compare_bytes s u)
unfolding compare_bytes
compare_bytes-Fits [] [] [] = ground arith
compare_bytes-Fits [] [] (c ∷ u) = ground arith
compare_bytes-Fits [] (b ∷ t) [] = ground arith
compare_bytes-Fits [] (b ∷ t) (c ∷ u) = ground arith
compare_bytes-Fits (a ∷ s) [] [] = ground arith
compare_bytes-Fits (a ∷ s) [] (c ∷ u) = ground arith
compare_bytes-Fits (a ∷ s) (b ∷ t) [] = ground arith
compare_bytes-Fits (a ∷ s) (b ∷ t) (c ∷ u) = ground (arith, compare_bytes-Fits s t u)

compare_channel-flip : (s t : Bytes) → compare_channel t s ≡ pos 0 -ℤ compare_channel s t
unfolding compare_channel ◌-ℤ◌
compare_channel-flip [] [] = compare_bytes-flip [] []
compare_channel-flip [] (b ∷ t) = refl
compare_channel-flip (a ∷ s) [] = refl
compare_channel-flip (a ∷ s) (b ∷ t) = compare_bytes-flip (a ∷ s) (b ∷ t)

compare_channel-Fits :
    (s t u : Bytes) → Fits (compare_channel s t) (compare_channel t u) (compare_channel s u)
unfolding compare_channel
compare_channel-Fits [] [] [] = compare_bytes-Fits [] [] []
compare_channel-Fits [] [] (c ∷ u) = unfold compare_bytes in ground arith
compare_channel-Fits [] (b ∷ t) [] = unfold compare_bytes in ground arith
compare_channel-Fits [] (b ∷ t) (c ∷ u) = unfold compare_bytes in ground arith
compare_channel-Fits (a ∷ s) [] [] = unfold compare_bytes in ground arith
compare_channel-Fits (a ∷ s) [] (c ∷ u) = unfold compare_bytes in ground arith
compare_channel-Fits (a ∷ s) (b ∷ t) [] = unfold compare_bytes in ground arith
compare_channel-Fits (a ∷ s) (b ∷ t) (c ∷ u) = compare_bytes-Fits (a ∷ s) (b ∷ t) (c ∷ u)

or_else-flip :
    (a b a' b' : ℤ) → a' ≡ pos 0 -ℤ a → b' ≡ pos 0 -ℤ b → or_else a' b' ≡ pos 0 -ℤ or_else a b
unfolding ◌-ℤ◌
or_else-flip a b a' b' p q = ground arith

or_else-Fits :
    (a b c a' b' c' : ℤ)
    → Fits a b c
    → Fits a' b' c'
    → Fits (or_else a a') (or_else b b') (or_else c c')
or_else-Fits a b c a' b' c' f g = grind arith

-- Comparing in the other direction gives the opposite result.
compare_version-flip : (x y : Version) → compare_version y x ≡ pos 0 -ℤ compare_version x y
unfolding compare_version
compare_version-flip x y = or_else-flip _ _ _ _ (compare_int-flip x.major y.major) (
    or_else-flip _ _ _ _ (compare_int-flip x.minor y.minor) (
      or_else-flip _ _ _ _ (compare_int-flip x.patch y.patch) (
        or_else-flip _ _ _ _ (compare_channel-flip x.channel y.channel)
          (compare_int-flip x.build y.build))))

compare_version-Fits :
    (x y z : Version) → Fits (compare_version x y) (compare_version y z) (compare_version x z)
unfolding compare_version
compare_version-Fits x y z = or_else-Fits _ _ _ _ _ _ (compare_int-Fits x.major y.major z.major) (
    or_else-Fits _ _ _ _ _ _ (compare_int-Fits x.minor y.minor z.minor) (
      or_else-Fits _ _ _ _ _ _ (compare_int-Fits x.patch y.patch z.patch) (
        or_else-Fits _ _ _ _ _ _ (compare_channel-Fits x.channel y.channel z.channel)
          (compare_int-Fits x.build y.build z.build))))

compare_int-zero : (a b : ℤ) → compare_int a b ≡ pos 0 → a ≡ b
unfolding compare_int
compare_int-zero a b h = ground arith

compare_bytes-zero : (s t : Bytes) → compare_bytes s t ≡ pos 0 → s ≡ t
unfolding compare_bytes
compare_bytes-zero [] [] h = refl
compare_bytes-zero [] (b ∷ t) h = cc
compare_bytes-zero (a ∷ s) [] h = cc
compare_bytes-zero (a ∷ s) (b ∷ t) h = ground (arith, compare_bytes-zero s t)

compare_channel-zero : (s t : Bytes) → compare_channel s t ≡ pos 0 → s ≡ t
unfolding compare_channel
compare_channel-zero [] [] h = refl
compare_channel-zero [] (b ∷ t) h = cc
compare_channel-zero (a ∷ s) [] h = cc
compare_channel-zero (a ∷ s) (b ∷ t) h = compare_bytes-zero (a ∷ s) (b ∷ t) h

or_else-zero : (a b : ℤ) → or_else a b ≡ pos 0 → (a ≡ pos 0) × (b ≡ pos 0)
or_else-zero a b h = ground arith

-- What the order reads of two versions is the same.
pub record SameRelease (x y : Version) : Type 0 where
  pub major : x.major ≡ y.major
  pub minor : x.minor ≡ y.minor
  pub patch : x.patch ≡ y.patch
  pub channel : x.channel ≡ y.channel
  pub build : x.build ≡ y.build

compare_bytes_refl : (s : Bytes) → compare_bytes s s ≡ pos 0
unfolding compare_bytes
compare_bytes_refl [] = refl
compare_bytes_refl (a ∷ s) = ground (arith, compare_bytes_refl s)

compare_channel_refl : (s : Bytes) → compare_channel s s ≡ pos 0
unfolding compare_channel
compare_channel_refl [] = unfold compare_bytes in refl
compare_channel_refl (a ∷ s) = compare_bytes_refl (a ∷ s)

compare_int_refl : (a : ℤ) → compare_int a a ≡ pos 0
unfolding compare_int
compare_int_refl a = ground arith

eq_ℤ→eq : (a : ℤ) → eq_ℤ a (pos 0) ≡ true → a ≡ pos 0
eq_ℤ→eq a h = ground arith

-- Two versions compare as equal exactly if their numbers and channels are the same, whatever their
-- build metadata.
equal_iff : (x y : Version) → (equal x y ≡ true) ↔ SameRelease x y
unfolding equal compare_version
equal_iff x y = (
  (λ h.
      let a = or_else-zero (compare_int x.major y.major) _ (eq_ℤ→eq _ h) in
      let b = or_else-zero (compare_int x.minor y.minor) _ a.1 in
      let c = or_else-zero (compare_int x.patch y.patch) _ b.1 in
      let d = or_else-zero (compare_channel x.channel y.channel) _ c.1 in
      record {
        major = compare_int-zero x.major y.major a.0;
        minor = compare_int-zero x.minor y.minor b.0;
        patch = compare_int-zero x.patch y.patch c.0;
        channel = compare_channel-zero x.channel y.channel d.0;
        build = compare_int-zero x.build y.build d.1;
      }),
  (λ s.
      rw (s.major, s.minor, s.patch, s.channel, s.build)
        (simp (compare_int_refl, compare_channel_refl))),
)

-- Compare orders the versions: in the other direction it gives the opposite, a version that it ranks at
-- most as high as a second one, which it ranks at most as high as a third one, it ranks at most as high
-- as the third one, and Equal holds exactly of two versions with the same numbers and channels, whatever
-- their build metadata.
pub compare_version-IsOrder :
    (x y z : Version)
    → (compare_version y x ≡ pos 0 -ℤ compare_version x y)
      × (compare_version x y ≤ℤ pos 0 → compare_version y z ≤ℤ pos 0 → compare_version x z ≤ℤ pos 0)
      × ((equal x y ≡ true) ↔ SameRelease x y)
compare_version-IsOrder x y z =
    (compare_version-flip x y, (compare_version-Fits x y z).le, equal_iff x y)

-- The day is not before the day that a version is named after.
abbrev pub NotBefore : Version → Day → Type 0
NotBefore v t =
    or_else (compare_int v.major t.year)
      (or_else (compare_int v.minor t.month) (compare_int v.patch t.day))
    ≤ℤ pos 0

compare_int-suc : (a : ℤ) → compare_int (a +ℤ pos 1) a ≡ pos 1
unfolding compare_int ◌+ℤ◌
compare_int-suc a = ground arith

new-newer :
    (v : Version) (t : Day)
    → NotBefore v t
    → newer
        (new t v.channel (
          (if eq_ℤ v.major t.year && eq_ℤ v.minor t.month && eq_ℤ v.patch t.day
            then v.build
            else pos 0)
          +ℤ pos 1))
        v
      ≡ true
unfolding newer new compare_version compare_int ◌+ℤ◌
new-newer v t h = ground (arith, compare_channel_refl v.channel)

next_build :
    (same : Bool) (build : ℤ)
    → IsInt (build +ℤ pos 1)
    → wrap ((if same then build else pos 0) +ℤ pos 1) ≡ (if same then build else pos 0) +ℤ pos 1
unfolding ◌+ℤ◌
next_build true build h = wrap_fits _ h
next_build false build h = wrap_fits (pos 1) (omega arith, omega arith)

-- Increment gives a version that Newer ranks above the one it started from, on the calendar branch
-- and on the semver branch, whenever the day is not before the one that the version is named after,
-- and its patch and its build, each with one more, are ints of 64 bits.
pub increment-newer :
    (v : Version) (t : Day)
    → NotBefore v t
    → IsInt (v.patch +ℤ pos 1)
    → IsInt (v.build +ℤ pos 1)
    → newer (increment v t) v ≡ true
unfolding newer increment new compare_version
increment-newer v t h patch build = elim (Bool-cases (is_calver v)) [
  | inr semver ↦
      rw (semver, wrap_fits (v.patch +ℤ pos 1) patch)
        (simp (compare_int_refl, compare_int-suc v.patch))
  | inl calver ↦
      let same = eq_ℤ v.major t.year && eq_ℤ v.minor t.month && eq_ℤ v.patch t.day in
      rw (calver, next_build same v.build build) (new-newer v t h)
]
