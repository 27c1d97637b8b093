-- ===== src/Text/Laws.antt =====
-- Laws of the text methods: folding the case is idempotent and keeps the length.
use Prim.Native.Char.{Char, code}
use Prim.Native.String.{[], ◌∷◌}
use mac_service_now_cmdb.Base.{suc, String, ◌≡◌, refl, ap, Bool, true, false, arith}
use mac_service_now_cmdb.Text.{is_capital, lower_by, lower_char, lower, truthy, len}

lower_by_idem :
    (c : Char) (b : Bool) (h : is_capital (code c) ≡ b) → is_capital (code (lower_by c b h)) ≡ false
unfolding lower_by
lower_by_idem c true h = ground arith
lower_by_idem c false h = h

lower_by-false :
    (c : Char) (b : Bool) (h : is_capital (code c) ≡ b) → b ≡ false → lower_by c b h ≡ c
unfolding lower_by
lower_by-false c true h e = cc
lower_by-false c false h e = refl

lower_char_idem : (c : Char) → lower_char (lower_char c) ≡ lower_char c
unfolding lower_char
lower_char_idem c = lower_by-false _ _ refl (lower_by_idem c _ refl)

pub lower_idem : (s : String) → lower (lower s) ≡ lower s
unfolding lower
lower_idem [] = refl
lower_idem (c ∷ s) = cc (lower_char_idem c, lower_idem s)

pub len-lower : (s : String) → len (lower s) ≡ len s
unfolding lower
len-lower [] = refl
len-lower (c ∷ s) = ap suc (len-lower s)

pub truthy-lower : (s : String) → truthy (lower s) ≡ truthy s
unfolding lower
truthy-lower [] = refl
truthy-lower (c ∷ s) = refl
