-- ===== src/Strings/Decimal.antt =====
-- `strconv.Atoi` and the verb `%d`, on a 64-bit `int`.
pub mod Laws
use Prim.Native.Nat.{◌/◌, ◌%◌, ◌^◌}
use postgresparser.Prelude.{
  ℕ, zero, suc, ◌+◌, ◌-◌, ◌*◌, ◌≤◌, ◌<◌, ◌≡◌, ◌≢◌, refl, sym, ap, ◌∙◌, Bool, true, false, ◌&&◌,
  ◌||◌, Option, none, some, [], ◌∷◌, ◌++◌, append_assoc, arith, Text, ltb, leb, ◌==◌, if◌then◌else◌,
  Bool-cases, inl, inr,
}

-- An `int`; `negsuc n` is -(n + 1).
pub data ℤ : Type 0 where
  pos : ℕ → ℤ
  negsuc : ℕ → ℤ

abbrev pub max_int : ℕ
max_int = 2 ^ 63 - 1

-- The number that digits spell behind `n`.
pub digits_value : ℕ → Text → Option ℕ
digits_value n [] = some n
digits_value n (c ∷ s) =
    if leb b'0' c && leb c b'9' then digits_value (n * 10 + (c - b'0')) s else none

pub magnitude : Text → Option ℕ
magnitude [] = none
magnitude (c ∷ s) = digits_value 0 (c ∷ s)

pub as_positive : Option ℕ → Option ℤ
as_positive none = none
as_positive (some n) = if leb n max_int then some (pos n) else none

as_negative : Option ℕ → Option ℤ
as_negative none = none
as_negative (some zero) = some (pos 0)
as_negative (some (suc n)) = if leb n max_int then some (negsuc n) else none

-- `strconv.Atoi`: an optional sign and digits, within the range of an `int`.
unfoldable pub atoi : Text → Option ℤ
unfolding digits_value magnitude as_positive as_negative
atoi [] = none
atoi (c ∷ s) =
    if c == b'-'
    then as_negative (magnitude s)
    else if c == b'+'
    then as_positive (magnitude s)
    else as_positive (magnitude (c ∷ s))

-- The digits of `n` in front of `rest`; the fuel is more than the digits of `n`.
pub digits : ℕ → ℕ → Text → Text
digits zero n rest = rest
digits (suc fuel) n rest =
    let more = digits fuel (n / 10) ((b'0' + n % 10) ∷ rest) in
    if ltb n 10 then (b'0' + n) ∷ rest else more

-- `%d` of a number that is not negative
unfoldable pub decimal : ℕ → Text
unfolding digits
decimal n = digits (suc n) n []
