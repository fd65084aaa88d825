-- ===== src/String.antt =====
-- src/string/string.c. Strings are bytes in memory up to a zero; a `char` is signed, so that bytes
-- from 128 on are negative. An `int` bound that is negative makes its loop run no rounds.
pub mod Length
pub mod Compare
pub mod Copy
mod Tests
use simple_microkernel.Base.{
  ℕ, zero, suc, ◌+◌, ◌-◌, ◌==◌, if◌then◌else◌, Bool, true, false, ◌&&◌, ◌||◌, not, update, add32,
  Option, some, none, ℤ, pos, pos_part, lt_ℤ, ◌-ℤ◌, char_value,
}
use simple_microkernel.Memory.{Bytes}

-- the loop of strlen; `none` when the fuel runs out
unfoldable pub strlen_from : ℕ → Bytes → ℕ → ℕ → Option ℕ
strlen_from zero m ptr count = none
strlen_from (suc fuel) m ptr count =
    let rest = strlen_from fuel m (add32 ptr 1) (suc count) in
    if m ptr == 0 then some count else rest

-- strlen
unfoldable pub strlen : ℕ → Bytes → ℕ → Option ℕ
unfolding strlen_from
strlen fuel m ptr = strlen_from fuel m ptr 0

-- the loop of strnlen, with the rounds that it has left
unfoldable pub strnlen_from : ℕ → Bytes → ℕ → ℕ → ℕ
strnlen_from zero m ptr i = i
strnlen_from (suc rounds) m ptr i =
    let rest = strnlen_from rounds m (add32 ptr 1) (suc i) in if m ptr == 0 then i else rest

-- strnlen
unfoldable pub strnlen : Bytes → ℕ → ℤ → ℕ
unfolding strnlen_from
strnlen m ptr max = strnlen_from (pos_part max) m ptr 0

-- is_digit
abbrev pub is_digit : ℕ → Bool
is_digit a = not (lt_ℤ (char_value a) (pos 48)) && not (lt_ℤ (pos 57) (char_value a))

-- to_numeric_digit
abbrev pub to_numeric_digit : ℕ → ℤ
to_numeric_digit a = char_value a -ℤ pos 48

-- the loop of strcmp
unfoldable pub strcmp_from : ℕ → Bytes → ℕ → ℕ → ℕ
strcmp_from zero m a b = 1
strcmp_from (suc rounds) m a b =
    let rest = strcmp_from rounds m (add32 a 1) (add32 b 1) in if m a == m b then rest else 0

-- strcmp, which answers 1 for equal strings
unfoldable pub strcmp : Bytes → ℕ → ℕ → ℤ → ℕ
unfolding strcmp_from
strcmp m a b len = strcmp_from (pos_part len) m a b

-- to_upper; the result is a byte again
unfoldable pub to_upper : ℕ → ℕ
to_upper a = if lt_ℤ (char_value a) (pos 97) || lt_ℤ (pos 127) (char_value a) then a else a - 32

-- istrncmp; `n` is not negative
unfoldable pub istrncmp : Bytes → ℕ → ℕ → ℕ → ℤ
unfolding to_upper
istrncmp m a b zero = pos 0
istrncmp m a b (suc n) =
    let rest = istrncmp m (add32 a 1) (add32 b 1) n in
    if not (m a == m b) && not (to_upper (m a) == to_upper (m b))
    then char_value (m a) -ℤ char_value (m b)
    else rest

-- strcpy; `none` when the fuel runs out
unfoldable pub strcpy : ℕ → Bytes → ℕ → ℕ → Option Bytes
strcpy zero m dest src = none
strcpy (suc fuel) m dest src =
    let rest = strcpy fuel (update m dest (m src)) (add32 dest 1) (add32 src 1) in
    if m src == 0 then some (update m dest 0) else rest

-- the loop of strncpy, with the rounds that it has left, and the end of the string
unfoldable pub strncpy_from : ℕ → Bytes → ℕ → ℕ → ℕ → Bytes
strncpy_from zero m dest src i = update m (add32 dest i) 0
strncpy_from (suc rounds) m dest src i =
    let rest = strncpy_from rounds (update m (add32 dest i) (m (add32 src i))) dest src (suc i) in
    if m (add32 src i) == 0 then update m (add32 dest i) 0 else rest

-- strncpy
unfoldable pub strncpy : Bytes → ℕ → ℕ → ℤ → Bytes
unfolding strncpy_from
strncpy m dest src count = strncpy_from (pos_part count - 1) m dest src 0
