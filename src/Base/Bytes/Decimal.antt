-- ===== src/Base/Bytes/Decimal.antt =====
-- `strconv.Atoi` reads back what `%d` prints.
use Prim.Native.Nat.{ℕ, zero, suc, ◌+◌, ◌-◌, ◌*◌, ◌/◌, ◌%◌, ◌≤◌, ◌<◌}
use mathlib.Core.Path.{◌≡◌, refl, ◌∙◌, ap, subst}
use mathlib.Core.Logic.{◌≢◌, ◌⊎◌, inl, inr}
use mathlib.Core.Bool.{false}
use mathlib.Core.List.{[], ◌∷◌, ◌++◌}
use mathlib.Core.Option.{none, some}
use native.Mathlib.Omega.{arith}
use flyctl.Base.Tests.{ltb, ◌==◌, Bool-cases}
use flyctl.Base.Lists.{All, All-map}
use flyctl.Base.Int.{pos, negsuc}
use flyctl.Base.Bytes.{Bytes, digits, print_ℕ, scan, atoi, max_int}
use flyctl.Base.Bytes.Laws.{Free}

abbrev pub IsDigit : ℕ → Type 0
IsDigit c = (b'0' ≤ c) × (c ≤ b'9')

digits-IsDigit : (f n : ℕ) (out : Bytes) → All IsDigit out → All IsDigit (digits f n out)
unfolding digits
digits-IsDigit zero n out h = h
digits-IsDigit (suc f) n out h = elim (Bool-cases (ltb n 10)) [
  | inl small ↦ rw small ((ground arith, ground arith), h)
  | inr large ↦ rw large (digits-IsDigit f (n / 10) _ ((omega arith, omega arith), h))
]

-- Reading a digit.
scan_digit : (d n : ℕ) (out : Bytes) → d < 10 → scan ((b'0' + d) ∷ out) n ≡ scan out (n * 10 + d)
unfolding scan
scan_digit d n out h =
    let e : b'0' + d - b'0' ≡ d = omega arith in
    let low : ltb (b'0' + d) b'0' ≡ false = ground arith in
    let high : ltb b'9' (b'0' + d) ≡ false = ground arith in rw (low, high, e)

scan-digits : (f n : ℕ) (out : Bytes) → n < f → scan (digits f n out) 0 ≡ scan out n
unfolding digits
scan-digits zero n out h = elim h [ ]
scan-digits (suc f) n out h = elim (Bool-cases (ltb n 10)) [
  | inl small ↦ rw small (scan_digit n 0 out (ground arith) ∙ ap (scan out) (omega arith))
  | inr large ↦ rw large (
      scan-digits f (n / 10) _ (ground arith)
      ∙ scan_digit (n % 10) (n / 10) out (omega arith)
      ∙ ap (scan out) (omega arith))
]

-- The first byte is a digit, and not 0 unless the number is.
abbrev pub StartsNumber : ℕ → Bytes → Type 0
StartsNumber n [] = ⊥
StartsNumber n (c ∷ s) = IsDigit c × (0 < n → c ≢ b'0')

digits-StartsNumber : (f n m : ℕ) (out : Bytes) → n < f → 0 < n → StartsNumber m (digits f n out)
unfolding digits
digits-StartsNumber zero n m out h positive = elim h [ ]
digits-StartsNumber (suc f) n m out h positive = elim (Bool-cases (ltb n 10)) [
  | inl small ↦ rw small ((omega arith, ground arith), λ p e. omega (arith, e))
  | inr large ↦ rw large (digits-StartsNumber f (n / 10) m _ (ground arith) (ground arith))
]

pub print_ℕ-StartsNumber : (n : ℕ) → StartsNumber n (print_ℕ n)
unfolding print_ℕ
print_ℕ-StartsNumber n = elim (Bool-cases (n == 0)) [
  | inl none_left ↦
      let z : 0 ≡ n = ground arith in
      subst (λ k. StartsNumber k (digits (k + 1) k [])) z
        (unfold digits in ((omega arith, omega arith), λ p. absurd (omega (arith, p))))
  | inr more ↦ digits-StartsNumber (n + 1) n n [] (omega arith) (ground arith)
]

pub print_ℕ-IsDigit : (n : ℕ) → All IsDigit (print_ℕ n)
unfolding print_ℕ
print_ℕ-IsDigit n = digits-IsDigit (n + 1) n [] tt

-- No other byte occurs in a printed number.
pub print_ℕ-Free : (c n : ℕ) → (c < b'0') ⊎ (b'9' < c) → Free c (print_ℕ n)
print_ℕ-Free c n h =
    All-map IsDigit (λ x. x ≢ c) (print_ℕ n) (λ x d e. omega (arith, d.0, d.1, e, h))
      (print_ℕ-IsDigit n)

atoi_of_digits :
    (s : Bytes) (n m : ℕ)
    → StartsNumber n s
    → scan s 0 ≡ some m
    → m ≤ max_int
    → atoi s ≡ some (pos m)
unfolding atoi
atoi_of_digits [] n m h e fits = elim h [ ]
atoi_of_digits (c ∷ []) n m h e fits = rw e (ground arith)
atoi_of_digits (c ∷ d ∷ s) n m h e fits =
    let minus : (c == b'-') ≡ false = ground arith in
    let plus : (c == b'+') ≡ false = ground arith in rw (minus, plus, e) (ground arith)

scan-print_ℕ : (n : ℕ) → scan (print_ℕ n) 0 ≡ some n
scan-print_ℕ n = unfold print_ℕ in scan-digits (n + 1) n [] (omega arith) ∙ unfold scan in refl

-- A number that fits an int is read back from its print.
pub atoi-print_ℕ : (n : ℕ) → n ≤ max_int → atoi (print_ℕ n) ≡ some (pos n)
atoi-print_ℕ n fits = atoi_of_digits (print_ℕ n) n n (print_ℕ-StartsNumber n) (scan-print_ℕ n) fits

plus_digits :
    (s : Bytes) (n m : ℕ)
    → StartsNumber n s
    → scan s 0 ≡ some m
    → m ≤ max_int
    → atoi (b'+' ∷ s) ≡ some (pos m)
unfolding atoi
plus_digits [] n m h e fits = elim h [ ]
plus_digits (c ∷ s) n m h e fits = rw e (ground arith)

minus_digits :
    (s : Bytes) (n m : ℕ)
    → StartsNumber n s
    → scan s 0 ≡ some (suc m)
    → m ≤ max_int
    → atoi (b'-' ∷ s) ≡ some (negsuc m)
unfolding atoi
minus_digits [] n m h e fits = elim h [ ]
minus_digits (c ∷ s) n m h e fits = rw e (ground arith)

-- The same with a sign.
pub atoi_plus : (n : ℕ) → n ≤ max_int → atoi (b'+' ∷ print_ℕ n) ≡ some (pos n)
atoi_plus n fits = plus_digits (print_ℕ n) n n (print_ℕ-StartsNumber n) (scan-print_ℕ n) fits

pub atoi_minus : (n : ℕ) → n ≤ max_int → atoi (b'-' ∷ print_ℕ (suc n)) ≡ some (negsuc n)
atoi_minus n fits =
    minus_digits (print_ℕ (suc n)) (suc n) n (print_ℕ-StartsNumber (suc n)) (scan-print_ℕ (suc n))
      fits

-- A text with a byte that is no digit and no sign is not a number.
scan-none : (a b : Bytes) (c n : ℕ) → b'9' < c → scan (a ++ (c ∷ b)) n ≡ none
unfolding scan
scan-none [] b c n h = ground arith
scan-none (d ∷ a) b c n h = rw (scan-none a b c (n * 10 + (d - b'0')) h) (ground arith)

atoi_tail :
    (x c : ℕ) (s : Bytes)
    → scan (x ∷ c ∷ s) 0 ≡ none
    → scan (c ∷ s) 0 ≡ none
    → atoi (x ∷ c ∷ s) ≡ none
unfolding atoi
atoi_tail x c s whole tail = rw (whole, tail) (ground arith)

pub atoi-none : (a b : Bytes) (c : ℕ) → b'9' < c → atoi (a ++ (c ∷ b)) ≡ none
atoi-none [] [] c h = unfold atoi in rw (scan-none [] [] c 0 h)
atoi-none [] (d ∷ b) c h =
    let minus : (c == b'-') ≡ false = ground arith in
    let plus : (c == b'+') ≡ false = ground arith in
    unfold atoi in rw (minus, plus, scan-none [] (d ∷ b) c 0 h)
atoi-none (x ∷ []) b c h = atoi_tail x c b (scan-none (x ∷ []) b c 0 h) (scan-none [] b c 0 h)
atoi-none (x ∷ y ∷ a) b c h =
    atoi_tail x y (a ++ (c ∷ b)) (scan-none (x ∷ y ∷ a) b c 0 h) (scan-none (y ∷ a) b c 0 h)
