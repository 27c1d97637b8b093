-- ===== src/Json/Value.antt =====
-- JSON values as Python holds them: `None`, `bool`, `int`, `float`, `str`, `list` and `dict`.
-- A float is named by its decimal form: `decimal m k` is m / 10 ^ k.
use mac_service_now_cmdb.Base.{
  ℕ, zero, String, Bool, true, false, Option, none, some, List, [], ◌∷◌, map, ◌≡◌, refl, ap,
  if◌then◌else◌,
}
use mac_service_now_cmdb.Text.{truthy}
use mac_service_now_cmdb.Dict.{Dict, lookup}

-- An `int`; `negsuc n` is -(n + 1).
pub data ℤ : Type 0 where
  pos : ℕ → ℤ
  negsuc : ℕ → ℤ

mutual
  pub data Value : Type 0 where
    null : Value
    bool : Bool → Value
    int : ℤ → Value
    decimal : ℤ → ℕ → Value
    str : String → Value
    arr : Items → Value
    obj : Fields → Value

  pub data Fields : Type 0 where
    end : Fields
    field : String → Value → Fields → Fields

  pub data Items : Type 0 where
    nil : Items
    cons : Value → Items → Items

abbrev pub to_list : Items → List Value
to_list nil = []
to_list (cons x xs) = x ∷ to_list xs

abbrev pub to_dict : Fields → Dict Value
to_dict end = []
to_dict (field k v fs) = (k, v) ∷ to_dict fs

abbrev pub of_list : List Value → Items
of_list [] = nil
of_list (x ∷ xs) = cons x (of_list xs)

abbrev pub of_dict : Dict Value → Fields
of_dict [] = end
of_dict ((k, v) ∷ d) = field k v (of_dict d)

pub to_dict-of_dict : (d : Dict Value) → to_dict (of_dict d) ≡ d
to_dict-of_dict [] = refl
to_dict-of_dict ((k, v) ∷ d) = ap (λ e. (k, v) ∷ e) (to_dict-of_dict d)

-- `bool(v)`
abbrev pub is_true : Value → Bool
is_true null = false
is_true (bool b) = b
is_true (int (pos zero)) = false
is_true (int _) = true
is_true (decimal (pos zero) _) = false
is_true (decimal _ _) = true
is_true (str s) = truthy s
is_true (arr nil) = false
is_true (arr (cons _ _)) = true
is_true (obj end) = false
is_true (obj (field _ _ _)) = true

-- `a or b`
abbrev pub or_else : Value → Value → Value
or_else a b = if is_true a then a else b

abbrev pub or_null : Option Value → Value
or_null none = null
or_null (some v) = v

-- `d.get(k)`: a missing key is `None`.
abbrev pub get : String → Dict Value → Value
get k d = or_null (lookup k d)

-- `d.get(k) or ""`
abbrev pub get_or_empty : String → Dict Value → Value
get_or_empty k d = or_else (get k d) (str "")

-- `for x in v`: the items of a list, the keys of a dictionary. A text or a number, which no code
-- expects there, has none.
abbrev pub iterate : Value → List Value
iterate (arr xs) = to_list xs
iterate (obj fs) = map (λ e. str e.0) (to_dict fs)
iterate _ = []

-- The entries of a dictionary; what is none, where the code expects one, has no entry.
abbrev pub as_dict : Value → Dict Value
as_dict (obj fs) = to_dict fs
as_dict _ = []

abbrev pub is_dict : Value → Bool
is_dict (obj _) = true
is_dict _ = false
