-- ===== src/Json/Laws.antt =====
-- Facts on the list and dict operations that the components share.
use claude_tap.Base.{List, [], ◌∷◌, ◌≡◌, refl, ap}
use claude_tap.Json.Values.{Json}
use claude_tap.Json.Arrays.{to_list, of_list}

pub to_list-of_list : (xs : List Json) → to_list (of_list xs) ≡ xs
unfolding to_list of_list
to_list-of_list [] = refl
to_list-of_list (x ∷ xs) = ap (◌∷◌ x) (to_list-of_list xs)
