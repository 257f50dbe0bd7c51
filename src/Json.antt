-- ===== src/Json.antt =====
-- JSON values, as `jsonb` columns and the wire carry them, and the reads that the program makes.
use Prim.Native.String.{String}
use text.Mathlib.Text.{◌==◌ as str_eq}
use qwen_harness_bridge.Prelude.{ℕ, Bool, Option, none, some, if◌then◌else◌, List, [], ◌∷◌, leb}
use qwen_harness_bridge.Text.{Text}

-- A number: a non-negative integer, or any other (negative, fractional, NaN or infinite). No read of
-- the modelled code tells the others apart.
pub data Number : Type 0 where
  natural : ℕ → Number
  other : Number

-- `Number.MAX_SAFE_INTEGER`.
abbrev pub max_safe_integer : ℕ
max_safe_integer = 9007199254740991

-- `Number.isSafeInteger(n) && n >= 0`: the number, if it is one.
unfoldable pub safe_natural : Number → Option ℕ
safe_natural (natural n) = if leb n max_safe_integer then some n else none
safe_natural other = none

mutual
  pub data Json : Type 0 where
    null : Json
    bool : Bool → Json
    number : Number → Json
    string : Text → Json
    array : Items → Json
    object : Fields → Json

  pub data Items : Type 0 where
    nil : Items
    cons : Json → Items → Items

  pub data Fields : Type 0 where
    end : Fields
    field : String → Json → Fields → Fields

-- `value.key`, with `none` for `undefined`.
unfoldable pub get : String → Fields → Option Json
get k end = none
get k (field j v r) = if str_eq j k then some v else get k r

-- `a ?? b`.
unfoldable pub coalesce : Option Json → Option Json → Option Json
coalesce none b = b
coalesce (some null) b = b
coalesce (some v) b = some v

-- `asRecord`: neither null nor an array nor a primitive.
unfoldable pub as_record : Option Json → Option Fields
as_record (some (object fs)) = some fs
as_record _ = none

-- `typeof value === "string"`.
unfoldable pub as_string : Option Json → Option Text
as_string (some (string t)) = some t
as_string _ = none

unfoldable pub items : Items → List Json
items nil = []
items (cons v vs) = v ∷ items vs
