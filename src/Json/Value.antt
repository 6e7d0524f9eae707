-- ===== src/Json/Value.antt =====
-- The value type, its type tests, and conversions.
use Prim.Native.Nat.{ℕ}
use Prim.Native.String.{String}
use mathlib.Core.Bool.{Bool, true, false}

-- `negsuc n` is -(n + 1).
pub data ℤ : Type 0 where
  pos negsuc : ℕ → ℤ

-- A floating-point number stands as the bits of its IEEE double. The fields of an object stand in
-- the order of their keys.
mutual
  pub data Json : Type 0 where
    null : Json
    boolean : Bool → Json
    integer : ℤ → Json
    unsigned : ℕ → Json
    float : ℕ → Json
    string : String → Json
    array : Items → Json
    object : Fields → Json

  pub data Items : Type 0 where
    nil : Items
    cons : Json → Items → Items

  pub data Fields : Type 0 where
    end : Fields
    field : String → Json → Fields → Fields

abbrev pub is_null : Json → Bool
is_null null = true
is_null _ = false

abbrev pub is_boolean : Json → Bool
is_boolean (boolean b) = true
is_boolean _ = false

abbrev pub is_string : Json → Bool
is_string (string s) = true
is_string _ = false

abbrev pub is_array : Json → Bool
is_array (array xs) = true
is_array _ = false

abbrev pub is_object : Json → Bool
is_object (object fs) = true
is_object _ = false

-- `is_number_integer` holds of the unsigned numbers too.
abbrev pub is_number_integer : Json → Bool
is_number_integer (integer z) = true
is_number_integer (unsigned n) = true
is_number_integer _ = false

abbrev pub is_number_unsigned : Json → Bool
is_number_unsigned (unsigned n) = true
is_number_unsigned _ = false

abbrev pub is_number : Json → Bool
is_number (integer z) = true
is_number (unsigned n) = true
is_number (float bits) = true
is_number _ = false
