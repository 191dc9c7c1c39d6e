-- ===== src/Json/Tests.antt =====
-- Conversions of numbers and look-ups in objects at concrete values.
use tldr_tv.Prelude.{◌+◌, ◌-◌, ◌^◌, ◌≡◌, refl, true, false, none, some, [], ◌∷◌}
use tldr_tv.Prelude.Text.{codes}
use tldr_tv.Prelude.Int.{pos, negsuc}
use tldr_tv.Json.{obj, s, i, get_str, get_i64, path}
use tldr_tv.Json.Float.{is_integral, to_i64, of_i64}

hundred_back : to_i64 (of_i64 (pos 100)) ≡ pos 100
unfolding to_i64 of_i64
hundred_back = refl

minus_seven_back : to_i64 (of_i64 (negsuc 6)) ≡ negsuc 6
unfolding to_i64 of_i64
minus_seven_back = refl

-- 2^53 + 1 is a tie, and the even neighbour is 2^53.
tie_to_even : to_i64 (of_i64 (pos (2 ^ 53 + 1))) ≡ pos (2 ^ 53)
unfolding to_i64 of_i64
tie_to_even = refl

saturates : to_i64 (record { negative = true; exponent = 2046; fraction = 0 }) ≡ negsuc (2 ^ 63 - 1)
unfolding to_i64
saturates = refl

half_is_no_integer : is_integral (record { negative = true; exponent = 1022; fraction = 0 }) ≡ false
unfolding is_integral
half_is_no_integer = refl

last_member_counts :
    get_str (obj ((codes "k", s (codes "a")) ∷ (codes "k", s (codes "b")) ∷ [])) (codes "k")
    ≡ some (codes "b")
last_member_counts = refl

two_hops :
    path (obj ((codes "a", obj ((codes "b", s (codes "c")) ∷ [])) ∷ [])) (codes "a.b")
    ≡ some (s (codes "c"))
two_hops = refl

missing_number : get_i64 (obj ((codes "n", i (pos 5)) ∷ [])) (codes "m") ≡ none
missing_number = refl
