-- ===== src/String/Tests.antt =====
-- Tests of string.c.
use simple_microkernel.Base.{◌≡◌, refl, true, false, pos}
use simple_microkernel.String.{to_upper, is_digit, to_numeric_digit}

digits :
    (is_digit 48 ≡ true)
    × (is_digit 57 ≡ true)
    × (is_digit 58 ≡ false)
    × (to_numeric_digit 55 ≡ pos 7)
digits = (refl, refl, refl, refl)

-- to_upper maps the brace to the bracket, too
upper : (to_upper 97 ≡ 65) × (to_upper 123 ≡ 91) × (to_upper 200 ≡ 200)
unfolding to_upper
upper = (refl, refl, refl)
