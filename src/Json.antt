-- ===== src/Json.antt =====
-- Values of `json.loads`, and what Python's operations do with them: truth, `int`, `str`, `x[key]` and
-- `x.get(key)`. The texts of `str` for anything but a string, and the parsing of an `int` from a
-- string, are fields of `Python`.
use privacy_gateway_llm_appl.Prelude.{
  ℕ, ℤ, pos, Float, trunc, Text, [], Bool, true, false, not, text_eq, nat_eq, ◌==◌, if◌then◌else◌,
}
use privacy_gateway_llm_appl.Errors.{
  Result, ok, raise, type_error, value_error, key_error, attribute_error, overflow_error,
}

mutual
  pub data Json : Type 0 where
    null : Json
    boolean : Bool → Json
    integer : ℤ → Json
    float : Float → Json
    infinity : (is_negative : Bool) → Json
    not_a_number : Json
    string : Text → Json
    array : Elements → Json
    object : Members → Json

  pub data Elements : Type 0 where
    no_elements : Elements
    element : Json → Elements → Elements

  -- A dict: no key occurs twice.
  pub data Members : Type 0 where
    no_members : Members
    member : Text → Json → Members → Members

-- str(..) of a value that is no string, and int(..) of a string
pub record Python : Type 0 where
  pub str_of : Json → Text
  pub int_of_text : Text → Result ℤ

-- bool(..)
unfoldable pub is_true : Json → Bool
is_true null = false
is_true (boolean b) = b
is_true (integer (pos ℕ.zero)) = false
is_true (integer n) = true
is_true (float x) = not (x.magnitude == 0)
is_true (infinity negative) = true
is_true not_a_number = true
is_true (string t) = not (t == [])
is_true (array no_elements) = false
is_true (array (element v vs)) = true
is_true (object no_members) = false
is_true (object (member k v ms)) = true

-- `x or y`
abbrev pub or_else : Json → Json → Json
or_else x y = if is_true x then x else y

unfoldable pub to_int : Python → Json → Result ℤ
to_int py (boolean true) = ok (pos 1)
to_int py (boolean false) = ok (pos 0)
to_int py (integer n) = ok n
to_int py (float x) = ok (trunc x)
to_int py (infinity negative) = raise overflow_error
to_int py not_a_number = raise value_error
to_int py (string t) = py.int_of_text t
to_int py _ = raise type_error

unfoldable pub to_str : Python → Json → Text
to_str py (string t) = t
to_str py j = py.str_of j

-- The value of a key, or what a missing key gives.
unfoldable pub find_key : {A : Type 0} → (Json → A) → A → Text → Members → A
find_key found missing key no_members = missing
find_key found missing key (member k v ms) =
    if k == key then found v else find_key found missing key ms

-- x[key]
unfoldable pub item : Json → Text → Result Json
item (object ms) key = find_key ok (raise key_error) key ms
item _ key = raise type_error

-- x.get(key)
unfoldable pub get : Json → Text → Result Json
get (object ms) key = ok (find_key (λ v. v) null key ms)
get _ key = raise attribute_error
