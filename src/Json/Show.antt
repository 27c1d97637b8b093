-- ===== src/Json/Show.antt =====
-- `str(v)`: decimal digits of numbers, and the `repr` of what lists and dictionaries hold. In a
-- quoted text only the backslash, the quote, and the line and tab characters are escaped.
use Prim.Native.Char.{code}
use Prim.Native.String
use mac_service_now_cmdb.Base.{
  ℕ, zero, suc, ◌/◌, ◌%◌, ◌^◌, ◌≡◌, refl, String, true, false, ltb, eqb, ◌&&◌, not, if◌then◌else◌,
}
use mac_service_now_cmdb.Text.{has_char}
use mac_service_now_cmdb.Json.Value.{
  ℤ, pos, negsuc, Value, null, bool, int, decimal, str, arr, obj, Items, nil, cons, Fields, end,
  field,
}

digit : ℕ → String
digit zero = "0"
digit (suc zero) = "1"
digit (suc (suc zero)) = "2"
digit (suc (suc (suc zero))) = "3"
digit (suc (suc (suc (suc zero)))) = "4"
digit (suc (suc (suc (suc (suc zero))))) = "5"
digit (suc (suc (suc (suc (suc (suc zero)))))) = "6"
digit (suc (suc (suc (suc (suc (suc (suc zero))))))) = "7"
digit (suc (suc (suc (suc (suc (suc (suc (suc zero)))))))) = "8"
digit _ = "9"

-- A number below the fuel has fewer digits than that.
digits_from : ℕ → ℕ → String → String
digits_from zero n s = s
digits_from (suc f) n s =
    let s' = String.◌++◌ (digit (n % 10)) s in
    let rest = digits_from f (n / 10) s' in if ltb n 10 then s' else rest

unfoldable pub show_nat : ℕ → String
unfolding digits_from digit
show_nat n = digits_from (suc n) n ""

unfoldable pub show_int : ℤ → String
unfolding show_nat
show_int (pos n) = show_nat n
show_int (negsuc n) = String.◌++◌ "-" (show_nat (suc n))

-- Exactly k digits, with zeros in front.
padded : ℕ → ℕ → String
padded zero n = ""
padded (suc k) n = String.◌++◌ (padded k (n / 10)) (digit (n % 10))

show_decimal : ℕ → ℕ → String
show_decimal n k = String.◌++◌ (show_nat (n / 10 ^ k)) (String.◌++◌ "." (padded k (n % 10 ^ k)))

unfoldable pub show_float : ℤ → ℕ → String
unfolding show_decimal show_nat padded digit
show_float (pos n) k = show_decimal n k
show_float (negsuc n) k = String.◌++◌ "-" (show_decimal (suc n) k)

escape : ℕ → String → String
escape q String.[] = ""
escape q (String.◌∷◌ c s) =
    String.◌++◌
      (if eqb (code c) 92
        then "\\"
        else if eqb (code c) q
        then String.◌++◌ "\\" (String.◌∷◌ c "")
        else if eqb (code c) 10
        then "\\n"
        else if eqb (code c) 13
        then "\\r"
        else if eqb (code c) 9
        then "\\t"
        else String.◌∷◌ c "")
      (escape q s)

-- `repr(s)`: in double quotes if the text holds single ones and no double one.
unfoldable pub repr : String → String
unfolding escape
repr s =
    if has_char 39 s && not (has_char 34 s)
    then String.◌++◌ "\"" (String.◌++◌ (escape 34 s) "\"")
    else String.◌++◌ "'" (String.◌++◌ (escape 39 s) "'")

-- `repr(v)`, which is also `str(v)` but for a text.
unfoldable mutual
  unfolding show_int show_float repr

  pub repr_value : Value → String
  repr_value null = "None"
  repr_value (bool true) = "True"
  repr_value (bool false) = "False"
  repr_value (int n) = show_int n
  repr_value (decimal n k) = show_float n k
  repr_value (str s) = repr s
  repr_value (arr xs) = String.◌++◌ "[" (String.◌++◌ (repr_items xs) "]")
  repr_value (obj fs) = String.◌++◌ "{" (String.◌++◌ (repr_fields fs) "}")

  pub repr_items : Items → String
  repr_items nil = ""
  repr_items (cons x xs) = String.◌++◌ (repr_value x) (repr_more xs)

  pub repr_more : Items → String
  repr_more nil = ""
  repr_more (cons x xs) = String.◌++◌ ", " (String.◌++◌ (repr_value x) (repr_more xs))

  pub repr_fields : Fields → String
  repr_fields end = ""
  repr_fields (field k v fs) =
      String.◌++◌ (repr k) (String.◌++◌ ": " (String.◌++◌ (repr_value v) (repr_others fs)))

  pub repr_others : Fields → String
  repr_others end = ""
  repr_others (field k v fs) =
      String.◌++◌ ", "
        (String.◌++◌ (repr k) (String.◌++◌ ": " (String.◌++◌ (repr_value v) (repr_others fs))))

-- `str(v)`
unfoldable pub show : Value → String
unfolding repr_value
show (str s) = s
show v = repr_value v

repr_test : repr "it's" ≡ "\"it's\""
unfolding repr
repr_test = refl

show_test : show_nat 17179869184 ≡ "17179869184"
unfolding show_nat
show_test = refl
