-- ===== src/Base/Bytes.antt =====
-- Go's strings as bytes, and what the program uses of `strings` and `strconv`.
pub mod Laws
pub mod Decimal
use Prim.Native.Char.{code}
use Prim.Native.Nat.{ℕ, zero, suc, ◌+◌, ◌-◌, ◌*◌, ◌/◌, ◌%◌, ◌^◌}
use Prim.Native.String.{String}
use mathlib.Core.Bool.{Bool, true, false, ◌||◌, ◌&&◌}
use mathlib.Core.List.{List, [], ◌∷◌, ◌++◌}
use mathlib.Core.Option.{Option, none, some}
use flyctl.Base.Tests.{ltb, leb, ◌==◌, if◌then◌else◌}
use flyctl.Base.Int.{ℤ, pos, negsuc, sub_ℕ}

abbrev pub Bytes : Type 0
Bytes = List ℕ

-- The bytes of an ASCII literal.
abbrev pub codes : String → Bytes
codes String.[] = []
codes (String.◌∷◌ c s) = code c ∷ codes s

unfoldable pub bytes_eq : Bytes → Bytes → Bool
bytes_eq [] [] = true
bytes_eq (a ∷ s) (b ∷ t) = a == b && bytes_eq s t
bytes_eq _ _ = false

-- strings.TrimPrefix
unfoldable pub trim_prefix : ℕ → Bytes → Bytes
trim_prefix p [] = []
trim_prefix p (c ∷ s) = if c == p then s else c ∷ s

-- strings.HasPrefix
unfoldable pub has_prefix : Bytes → Bytes → Bool
has_prefix [] s = true
has_prefix (p ∷ ps) [] = false
has_prefix (p ∷ ps) (c ∷ s) = c == p && has_prefix ps s

abbrev pub push_left : ℕ → Option (Bytes × Bytes) → Option (Bytes × Bytes)
push_left c none = none
push_left c (some (a, b)) = some (c ∷ a, b)

-- The parts before and behind the first `sep`.
unfoldable pub cut : ℕ → Bytes → Option (Bytes × Bytes)
cut sep [] = none
cut sep (c ∷ s) = if c == sep then some ([], s) else push_left c (cut sep s)

abbrev pub or_here : ℕ → ℕ → Bytes → Option (Bytes × Bytes) → Option (Bytes × Bytes)
or_here sep c s none = if c == sep then some ([], s) else none
or_here sep c s (some (a, b)) = some (c ∷ a, b)

-- The parts before and behind the last `sep` (strings.LastIndex).
unfoldable pub cut_last : ℕ → Bytes → Option (Bytes × Bytes)
cut_last sep [] = none
cut_last sep (c ∷ s) = or_here sep c s (cut_last sep s)

-- strings.SplitN(s, sep, n + 1)
unfoldable pub split_n : ℕ → ℕ → Bytes → List Bytes
split_n zero sep s = s ∷ []
split_n (suc n) sep s = elim (cut sep s) [ none ↦ s ∷ [] | some (a, b) ↦ a ∷ split_n n sep b ]

abbrev pub push_first : ℕ → List Bytes → List Bytes
push_first c [] = (c ∷ []) ∷ []
push_first c (p ∷ ps) = (c ∷ p) ∷ ps

-- strings.Split(s, sep)
unfoldable pub split : ℕ → Bytes → List Bytes
split sep [] = [] ∷ []
split sep (c ∷ s) = let rest = split sep s in if c == sep then [] ∷ rest else push_first c rest

-- strings.Compare: bytewise, and a prefix comes first.
unfoldable pub compare_bytes : Bytes → Bytes → ℤ
compare_bytes [] [] = pos 0
compare_bytes [] (b ∷ t) = negsuc 0
compare_bytes (a ∷ s) [] = pos 1
compare_bytes (a ∷ s) (b ∷ t) =
    if ltb a b then negsuc 0 else if ltb b a then pos 1 else compare_bytes s t

-- %d of a number that is not negative; the fuel is above the number.
unfoldable pub digits : ℕ → ℕ → Bytes → Bytes
digits zero n out = out
digits (suc fuel) n out =
    let rest = digits fuel (n / 10) ((b'0' + n % 10) ∷ out) in
    if ltb n 10 then (b'0' + n) ∷ out else rest

unfoldable pub print_ℕ : ℕ → Bytes
print_ℕ n = digits (n + 1) n []

-- %d
unfoldable pub print_int : ℤ → Bytes
print_int (pos n) = print_ℕ n
print_int (negsuc n) = b'-' ∷ print_ℕ (n + 1)

unfoldable pub scan : Bytes → ℕ → Option ℕ
scan [] n = some n
scan (c ∷ s) n = if ltb c b'0' || ltb b'9' c then none else scan s (n * 10 + (c - b'0'))

abbrev pub max_int : ℕ
max_int = 2 ^ 63 - 1

abbrev pub in_range : Option ℕ → Option ℤ
in_range none = none
in_range (some n) = if leb n max_int then some (pos n) else none

abbrev pub in_range_neg : Option ℕ → Option ℤ
in_range_neg none = none
in_range_neg (some n) = if leb n (max_int + 1) then some (sub_ℕ 0 n) else none

-- strconv.Atoi: a sign or none, then at least one digit, and a value that fits an int.
unfoldable pub atoi : Bytes → Option ℤ
atoi [] = none
atoi (c ∷ []) = in_range (scan (c ∷ []) 0)
atoi (c ∷ d ∷ s) =
    if c == b'-'
    then in_range_neg (scan (d ∷ s) 0)
    else if c == b'+'
    then in_range (scan (d ∷ s) 0)
    else in_range (scan (c ∷ d ∷ s) 0)
