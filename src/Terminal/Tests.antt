-- ===== src/Terminal/Tests.antt =====
-- The theorems of the terminal at concrete states, and tests.
use simple_microkernel.Base.{ℕ, ◌≡◌, refl, arith, update}
use simple_microkernel.Terminal.{
  Terminal, terminal_make_char, kernel_terminal_print_char, kernel_print_string, kernel_print_uint,
  uint_chars, put_digits, reverse_chars,
}
use simple_microkernel.Terminal.Decimal.{Decimal, kernel_print_uint-Decimal}
use simple_microkernel.Terminal.Cells.{Printed, kernel_terminal_print_char-Printed}

-- a full last line
abbrev full : Terminal
full = record { video_memory = λ i. 0; terminal_row = 19; terminal_col = 80 }

white_a : terminal_make_char 97 15 ≡ 0x0f61
unfolding terminal_make_char
white_a = refl

-- a character above 127 is white on white
negative_char : terminal_make_char 200 15 ≡ 0xffc8
unfolding terminal_make_char
negative_char = refl

printed_407 :
    let (a, i) = uint_chars 407 (λ i. 0) in
    (i ≡ 3) × (a 0 ≡ 52) × (a 1 ≡ 48) × (a 2 ≡ 55) × (a 3 ≡ 0)
unfolding uint_chars put_digits reverse_chars update
printed_407 = (refl, refl, refl, refl, refl)

kernel_terminal_print_char-Printed_example : Printed full 97 (kernel_terminal_print_char full 97)
kernel_terminal_print_char-Printed_example =
    kernel_terminal_print_char-Printed full 97 (omega arith)

kernel_print_uint-Decimal_example :
    (r : (ℕ → ℕ) × ℕ) × (kernel_print_uint full (λ i. 0) 4294967295
      ≡ kernel_print_string full r.0 r.1)
    × Decimal 4294967295 r
kernel_print_uint-Decimal_example =
    kernel_print_uint-Decimal full (λ i. 0) 4294967295 (omega arith) (omega arith)
