-- ===== src/Text/Order.antt =====
-- The order of texts by code points, as `sorted` uses it.
use Prim.Native.Char.{code}
use mac_service_now_cmdb.Base.{
  String, Bool, true, false, ◌&&◌, ◌||◌, ltb, eqb, List, [], ◌∷◌, if◌then◌else◌,
}

unfoldable pub text_before : String → String → Bool
text_before String.[] t = true
text_before (String.◌∷◌ c s) String.[] = false
text_before (String.◌∷◌ c s) (String.◌∷◌ d t) =
    ltb (code c) (code d) || (eqb (code c) (code d) && text_before s t)

sort_in : String → List String → List String
unfolding text_before
sort_in x [] = x ∷ []
sort_in x (y ∷ ys) = let rest = sort_in x ys in if text_before x y then x ∷ y ∷ ys else y ∷ rest

-- `sorted(names)`
unfoldable pub sorted : List String → List String
unfolding sort_in
sorted [] = []
sorted (x ∷ xs) = sort_in x (sorted xs)
