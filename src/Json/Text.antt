-- ===== src/Json/Text.antt =====
-- Integers as text: std::to_string, and the conversion of a JSON number that comes before it.
use Prim.Native.String
use libmediasoupclient.Prelude.{
  ℕ, zero, suc, ◌+◌, ◌-◌, ◌/◌, ◌%◌, ◌^◌, String, ◌≡◌, refl, ltb, leb, eqb, if◌then◌else◌,
}
use libmediasoupclient.Prelude.Result.{Result, ok, err, json_error, undefined}
use libmediasoupclient.Json.Value.{ℤ, pos, negsuc, Json, boolean, integer, unsigned, float}
use libmediasoupclient.Json.Number.{truncated}

abbrev digit : ℕ → String
digit d =
    if eqb d 0
    then "0"
    else if eqb d 1
    then "1"
    else if eqb d 2
    then "2"
    else if eqb d 3
    then "3"
    else if eqb d 4
    then "4"
    else if eqb d 5
    then "5"
    else if eqb d 6
    then "6"
    else if eqb d 7
    then "7"
    else if eqb d 8
    then "8"
    else "9"

decimal_digits : ℕ → ℕ → String → String
decimal_digits zero n behind = behind
decimal_digits (suc fuel) n behind =
    let more = decimal_digits fuel (n / 10) (String.◌++◌ (digit (n % 10)) behind) in
    if ltb n 10 then String.◌++◌ (digit n) behind else more

-- A 64-bit number has at most twenty digits.
unfoldable pub to_string : ℕ → String
unfolding decimal_digits
to_string n = decimal_digits 20 n ""

unfoldable pub to_string_ℤ : ℤ → String
unfolding to_string
to_string_ℤ (pos n) = to_string n
to_string_ℤ (negsuc n) = String.◌++◌ "-" (to_string (n + 1))

-- `static_cast<int32_t>` of a number modulo 2^32.
wrap_int32 : ℕ → ℤ
wrap_int32 n =
    let low = n % 2 ^ 32 in if ltb low (2 ^ 31) then pos low else negsuc (2 ^ 32 - low - 1)

int32_of_float : ℕ → Result ℤ
unfolding truncated
int32_of_float bits =
    let magnitude = truncated bits in
    if eqb magnitude 0
    then ok (pos 0)
    else if ltb bits (2 ^ 63)
    then (if ltb magnitude (2 ^ 31) then ok (pos magnitude) else err undefined)
    else if leb magnitude (2 ^ 31)
    then ok (negsuc (magnitude - 1))
    else err undefined

-- `j.get<int32_t>()`
unfoldable pub get_int32 : Json → Result ℤ
unfolding wrap_int32 int32_of_float
get_int32 (boolean b) = ok (pos (if b then 1 else 0))
get_int32 (integer (pos n)) = ok (wrap_int32 n)
get_int32 (integer (negsuc n)) = ok (wrap_int32 (2 ^ 64 - n - 1))
get_int32 (unsigned n) = ok (wrap_int32 n)
get_int32 (float bits) = int32_of_float bits
get_int32 _ = err json_error

to_string_tests :
    (to_string 0 ≡ "0") × (to_string 4294967295 ≡ "4294967295") × (to_string_ℤ (negsuc 11) ≡ "-12")
unfolding to_string_ℤ
to_string_tests = (refl, refl, refl)
