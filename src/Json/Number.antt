-- ===== src/Json/Number.antt =====
-- The numbers of JSON values as C++ converts and compares them.
use libmediasoupclient.Prelude.{
  ℕ, ◌+◌, ◌-◌, ◌*◌, ◌/◌, ◌%◌, ◌^◌, Bool, true, false, ◌&&◌, ◌==◌, ltb, eqb, ◌≡◌, refl,
  if◌then◌else◌,
}
use libmediasoupclient.Prelude.Result.{Result, ok, err, json_error, undefined}
use libmediasoupclient.Json.Value.{
  ℤ, pos, negsuc, Json, Items, nil, cons, Fields, end, field, null, boolean, integer, unsigned,
  float, string, array, object,
}

abbrev pub eq_ℤ : ℤ → ℤ → Bool
eq_ℤ (pos m) (pos n) = eqb m n
eq_ℤ (negsuc m) (negsuc n) = eqb m n
eq_ℤ _ _ = false

-- `static_cast<int64_t>` of a 64-bit unsigned number.
abbrev pub to_int64 : ℕ → ℤ
to_int64 n = if ltb n (2 ^ 63) then pos n else negsuc (2 ^ 64 - n - 1)

-- The magnitude of a double, without its fraction. The exponent is biased by 1023, and the
-- significand has 52 bits below its leading one.
unfoldable pub truncated : ℕ → ℕ
truncated bits =
    let exponent = (bits / 2 ^ 52) % 2048 in
    let significand = 2 ^ 52 + bits % 2 ^ 52 in
    if ltb exponent 1023 then 0 else significand * 2 ^ (exponent - 1023) / 2 ^ 52

-- `static_cast<uint8_t>` of an integer, and of a double: out of range that is undefined.
uint8_of_ℤ : ℤ → ℕ
uint8_of_ℤ (pos n) = n % 256
uint8_of_ℤ (negsuc n) = 255 - n % 256

uint8_of_float : ℕ → Result ℕ
unfolding truncated
uint8_of_float bits =
    let magnitude = truncated bits in
    if eqb magnitude 0
    then ok 0
    else if ltb bits (2 ^ 63) && ltb magnitude 256
    then ok magnitude
    else err undefined

-- `j.get<uint8_t>()`
unfoldable pub get_uint8 : Json → Result ℕ
unfolding uint8_of_ℤ uint8_of_float
get_uint8 (boolean b) = ok (if b then 1 else 0)
get_uint8 (integer z) = ok (uint8_of_ℤ z)
get_uint8 (unsigned n) = ok (n % 256)
get_uint8 (float bits) = uint8_of_float bits
get_uint8 _ = err json_error

-- `a == b`. A floating-point number is compared with another by its bits, and is not taken for
-- equal to an integer: what the code compares has been checked to be an integer, a text or null.
unfoldable mutual
  pub json_eq : Json → Json → Bool
  json_eq null null = true
  json_eq (boolean true) (boolean b) = b
  json_eq (boolean false) (boolean true) = false
  json_eq (boolean false) (boolean false) = true
  json_eq (integer x) (integer y) = eq_ℤ x y
  json_eq (integer x) (unsigned n) = eq_ℤ x (to_int64 n)
  json_eq (unsigned m) (integer y) = eq_ℤ (to_int64 m) y
  json_eq (unsigned m) (unsigned n) = eqb m n
  json_eq (float x) (float y) = eqb x y
  json_eq (string s) (string t) = s == t
  json_eq (array xs) (array ys) = items_eq xs ys
  json_eq (object fs) (object gs) = fields_eq fs gs
  json_eq _ _ = false

  pub items_eq : Items → Items → Bool
  items_eq nil nil = true
  items_eq (cons x xs) (cons y ys) = json_eq x y && items_eq xs ys
  items_eq _ _ = false

  pub fields_eq : Fields → Fields → Bool
  fields_eq end end = true
  fields_eq (field j x fs) (field k y gs) = (j == k) && (json_eq x y && fields_eq fs gs)
  fields_eq _ _ = false

get_uint8_tests :
    (get_uint8 (integer (negsuc 0)) ≡ ok 255)
    × (get_uint8 (unsigned 256) ≡ ok 0)
    × (get_uint8 (float 0x4059_0000_0000_0000) ≡ ok 100)
    × (get_uint8 (float 0x3FE0_0000_0000_0000) ≡ ok 0)
    × (get_uint8 (string "96") ≡ err json_error)
unfolding get_uint8
get_uint8_tests = (refl, refl, refl, refl, refl)
