-- ===== src/Js.antt =====
-- Values of the tracker server: decoded JSON, the fields of a request body, and the language's
-- conversions that the server's code relies on. `isPresent` is of tracker-server/routes/index.js.
-- JSON numbers are integers here; a fraction or an exponent in a body is not modelled.
pub mod Decimal
pub mod Keys
use text.Mathlib.Text.{◌==◌ as str_eq}
use scale_out_distributed_le.Common.{
  ℕ, zero, suc, ◌+◌, String, Bool, true, false, not, ◌||◌, Option, none, some, List, [], ◌∷◌, ◌++◌,
  ltb, ◌==◌, if◌then◌else◌,
}

-- `negsuc n` is the number -(n + 1).
mutual
  pub data Json : Type 0 where
    null : Json
    bool : Bool → Json
    num : ℕ → Json
    negsuc : ℕ → Json
    str : String → Json
    arr : Items → Json
    obj : Fields → Json

  pub data Items : Type 0 where
    nil : Items
    cons : Json → Items → Items

  pub data Fields : Type 0 where
    end : Fields
    field : String → Json → Fields → Fields

-- `!!v`
abbrev pub truthy : Json → Bool
truthy null = false
truthy (bool b) = b
truthy (num n) = not (n == 0)
truthy (negsuc n) = true
truthy (str s) = not (str_eq s "")
truthy (arr _) = true
truthy (obj _) = true

abbrev pub is_zero : Json → Bool
is_zero (num n) = n == 0
is_zero _ = false

abbrev pub is_empty_string : Json → Bool
is_empty_string (str s) = str_eq s ""
is_empty_string _ = false

abbrev pub is_false : Json → Bool
is_false (bool b) = not b
is_false _ = false

-- A property of a request body: `none` is a missing one, which reads as undefined.
abbrev pub Arg : Type 0
Arg = Option Json

-- `!!(arg || arg === 0 || arg === "" || arg === false)`
unfoldable pub is_present : Arg → Bool
is_present none = false
is_present (some v) = truthy v || is_zero v || is_empty_string v || is_false v

-- A property that holds a number where the API says so: a node's id, a count of blocks.
pub data Field : Type 0 where
  undefined : Field
  null : Field
  value : ℕ → Field

abbrev pub arg_of : Field → Arg
arg_of undefined = none
arg_of Field.null = some Json.null
arg_of (value n) = some (num n)

-- The value of a property that is present.
unfoldable pub present : Arg → Option Json
unfolding is_present
present arg = if is_present arg then arg else none

unfoldable pub present_number : Field → Option ℕ
unfolding is_present
present_number (value n) = if is_present (some (num n)) then some n else none
present_number _ = none

-- The result of a conversion to a number. The numbers of the server are sums of what it was sent.
pub data Number : Type 0 where
  nan : Number
  number : ℕ → Number

-- `ToNumber`: undefined is NaN, null is 0.
abbrev pub to_number : Field → Number
to_number undefined = nan
to_number Field.null = number 0
to_number (value n) = number n

-- `+` and `>` on numbers
abbrev pub add : Number → Number → Number
add (number a) (number b) = number (a + b)
add _ _ = nan

abbrev pub gt : Number → Number → Bool
gt (number a) (number b) = ltb b a
gt _ _ = false

-- A computation of the server: it returns, or a TypeError goes up to express.
pub data Result {ℓ} (A : Type ℓ) : Type ℓ where
  returns : A → Result A
  type_error : Result A

infixl 5 ◌>>=◌
abbrev pub ◌>>=◌ {ℓ κ} : {A : Type ℓ} {B : Type κ} → Result A → (A → Result B) → Result B
returns a >>= f = f a
type_error >>= f = type_error
