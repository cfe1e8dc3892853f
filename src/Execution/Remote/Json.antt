-- ===== src/Execution/Remote/Json.antt =====
-- JSON values as `json.loads` gives them, and the operations on Python values that
-- src/execution/mt5_remote.py applies to them.
use Prim.Native.String.{String, len, slice}
use text.Mathlib.Text.{◌==◌}
use tradingia.Prelude.{
  ℤ, pos, zero, ◌-◌, Bool, true, false, not, ◌||◌, Option, none, some, if◌then◌else◌,
}
use tradingia.Execution.Domain.{Decimal}
use tradingia.Execution.QuoteFreshness.{Timestamp}

-- `fraction` is a float, with the text that `str` gives for it
mutual
  pub data Json : Type 0 where
    null : Json
    boolean : Bool → Json
    integer : ℤ → Json
    fraction : String → Json
    string : String → Json
    array : Items → Json
    object : Fields → Json

  pub data Items : Type 0 where
    nil : Items
    cons : Json → Items → Items

  pub data Fields : Type 0 where
    end : Fields
    field : String → Json → Fields → Fields

-- What the client uses of Python's own library: Decimal of a text and of an integer, `str` of a
-- decimal and of a value that is no text, `"Z".replace`, datetime.fromisoformat and isoformat, urllib's quote, and `"error" in` a text.
pub record Python : Type 0 where
  pub decimal_of : String → Option Decimal
  pub decimal_of_int : ℤ → Decimal
  pub str_of_decimal : Decimal → String
  pub str_of : Json → String
  pub replace_zulu : String → String
  pub fromisoformat : String → Option Timestamp
  pub isoformat : Timestamp → String
  pub urlquote : String → String
  pub mentions_error : String → Bool

-- `payload[key]`, where there is one
unfoldable pub lookup : String → Fields → Option Json
lookup key Fields.end = none
lookup key (Fields.field k v rest) =
    let found = lookup key rest in if k == key then some v else found

-- `payload.get(key)`: None for a missing key and for null
abbrev pub given : Option Json → Option Json
given none = none
given (some Json.null) = none
given (some v) = some v

-- `value == text`
abbrev pub is_text : String → Json → Bool
is_text t (Json.string s) = s == t
is_text t _ = false

abbrev pub has_text : String → Option Json → Bool
has_text t none = false
has_text t (some v) = is_text t v

-- `str(value)`
unfoldable pub str : Python → Json → String
str py (Json.string s) = s
str py v = py.str_of v

abbrev is_zero_float : String → Bool
is_zero_float s = s == "0.0" || s == "-0.0"

-- `bool(value)`
unfoldable pub truthy : Json → Bool
truthy Json.null = false
truthy (Json.boolean b) = b
truthy (Json.integer (pos zero)) = false
truthy (Json.integer n) = true
truthy (Json.fraction s) = not (is_zero_float s)
truthy (Json.string s) = not (s == "")
truthy (Json.array Items.nil) = false
truthy (Json.array (Items.cons v vs)) = true
truthy (Json.object Fields.end) = false
truthy (Json.object (Fields.field k v rest)) = true

abbrev pub ends_with_z : String → Bool
ends_with_z s = slice s (len s - 1) (len s) == "Z"
