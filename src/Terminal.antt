-- ===== src/Terminal.antt =====
-- src/kernel.c: the terminal in the video memory, and the printing functions. The video memory is an
-- array of 16-bit cells; a string is the array of its characters. The scrolling function, which the
-- kernel never calls, is not modelled.
pub mod Cells
pub mod Decimal
mod Tests
use mathlib.Core.Option.{map}
use simple_microkernel.Base.{
  ℕ, zero, suc, ◌+◌, ◌-◌, ◌*◌, ◌/◌, ◌%◌, ◌^◌, ◌==◌, if◌then◌else◌, ltb, leb, update, array_loop,
  bit_or, bit_and, Option, some, none,
}

-- VGA_WIDTH and VGA_HEIGHT
abbrev pub vga_width : ℕ
vga_width = 80

abbrev pub vga_height : ℕ
vga_height = 20

-- video_memory, terminal_row and terminal_col
pub record Terminal : Type 0 where
  pub video_memory : ℕ → ℕ
  pub terminal_row : ℕ
  pub terminal_col : ℕ

-- a char in an `int` and in a `uint16_t`: its sign is extended
abbrev pub extend_32 : ℕ → ℕ
extend_32 c = if ltb c 128 then c else c + 0xffffff00

abbrev pub extend_16 : ℕ → ℕ
extend_16 c = if ltb c 128 then c else c + 0xff00

-- terminal_make_char
unfoldable pub terminal_make_char : ℕ → ℕ → ℕ
terminal_make_char a colour = bit_or (extend_16 colour * 2 ^ 8) (extend_32 a) % 2 ^ 16

-- terminal_put_char; `y` is the column and `x` the row
unfoldable pub terminal_put_char : (ℕ → ℕ) → ℕ → ℕ → ℕ → ℕ → ℕ → ℕ
unfolding terminal_make_char
terminal_put_char video y x c colour =
    update video (x * vga_width + y) (terminal_make_char c colour)

-- the loops of terminal_init
unfoldable pub clear_row : ℕ → (ℕ → ℕ) → ℕ → ℕ
unfolding terminal_put_char
clear_row x video = array_loop (λ y v. terminal_put_char v y x 32 0) 0 vga_width video

-- terminal_init
unfoldable pub terminal_init : Terminal → Terminal
unfolding clear_row
terminal_init t = record {
  video_memory = array_loop clear_row 0 vga_height t.video_memory;
  terminal_row = 0;
  terminal_col = 0;
}

-- the first two steps of kernel_terminal_print_char
unfoldable pub wrap_line : Terminal → Terminal
wrap_line t =
    if leb vga_width t.terminal_col
    then (record t { terminal_col = 0; terminal_row = (t.terminal_row + 1) % 2 ^ 16 })
    else t

unfoldable pub wrap_screen : Terminal → Terminal
unfolding terminal_init
wrap_screen t = if leb vga_height t.terminal_row then terminal_init t else t

-- kernel_terminal_print_char
unfoldable pub kernel_terminal_print_char : Terminal → ℕ → Terminal
unfolding wrap_line wrap_screen
kernel_terminal_print_char t a =
    let u = wrap_screen (wrap_line t) in
    record u {
      video_memory = terminal_put_char u.video_memory u.terminal_col u.terminal_row a 15;
      terminal_col = (u.terminal_col + 1) % 2 ^ 16;
    }

-- the loop of kernel_print_string
unfoldable pub print_chars : Terminal → (ℕ → ℕ) → ℕ → ℕ → Terminal
unfolding kernel_terminal_print_char
print_chars t str i zero = t
print_chars t str i (suc len) = print_chars (kernel_terminal_print_char t (str i)) str (suc i) len

-- kernel_print_string
unfoldable pub kernel_print_string : Terminal → (ℕ → ℕ) → ℕ → Terminal
unfolding print_chars
kernel_print_string t str len =
    let u = print_chars t str 0 len in
    record u { terminal_row = (u.terminal_row + 1) % 2 ^ 16; terminal_col = 0 }

-- the loop of kernel_str_lenght; `none` when the fuel runs out
unfoldable pub str_length_from : ℕ → (ℕ → ℕ) → ℕ → Option ℕ
str_length_from zero a count = none
str_length_from (suc fuel) a count =
    let rest = str_length_from fuel a (suc count) in if a count == 0 then some count else rest

-- kernel_str_lenght
unfoldable pub kernel_str_lenght : ℕ → (ℕ → ℕ) → Option ℕ
unfolding str_length_from
kernel_str_lenght fuel a = str_length_from fuel a 0

-- kernel_print
unfoldable pub kernel_print : ℕ → Terminal → (ℕ → ℕ) → Option Terminal
kernel_print fuel t str =
    map (λ (len : ℕ). kernel_print_string t str len) (kernel_str_lenght fuel str)

-- the first loop of kernel_print_uint: the digits from the last one on, and their number
unfoldable pub put_digits : ℕ → ℕ → (ℕ → ℕ) → ℕ → (ℕ → ℕ) × ℕ
put_digits zero n a i = (a, i)
put_digits (suc fuel) n a i =
    let rest = put_digits fuel (n / 10) (update a i (48 + n % 10)) (suc i) in
    if n == 0 then (a, i) else rest

-- its second loop, which reverses the characters from `start` to `end`
unfoldable pub reverse_chars : ℕ → ℕ → ℕ → (ℕ → ℕ) → ℕ → ℕ
reverse_chars zero start end a = a
reverse_chars (suc fuel) start end a =
    let rest =
      reverse_chars fuel (suc start) (end - 1) (update (update a start (a end)) end (a start)) in
    if ltb start end then rest else a

-- the characters that kernel_print_uint puts into its buffer, and their number; no number below
-- 2 ^ 32 has more than ten digits
unfoldable pub uint_chars : ℕ → (ℕ → ℕ) → (ℕ → ℕ) × ℕ
unfolding put_digits reverse_chars
uint_chars to_print buffer =
    let (a, i) = put_digits 11 to_print buffer 0 in (reverse_chars 11 0 (i - 1) (update a i 0), i)

-- kernel_print_uint; the zero is printed on a line of its own
unfoldable pub kernel_print_uint : Terminal → (ℕ → ℕ) → ℕ → Terminal
unfolding uint_chars
kernel_print_uint t buffer to_print =
    let u = if to_print == 0 then kernel_print_string t (λ i. 48) 1 else t in
    let (a, i) = uint_chars to_print buffer in kernel_print_string u a i

-- the digit of a number below 16
abbrev pub to_hex : ℕ → ℕ
to_hex d = if ltb d 10 then 48 + d else 55 + d

-- kernel_print_char_hex
unfoldable pub kernel_print_char_hex : Terminal → ℕ → Terminal
kernel_print_char_hex t hex =
    let t = kernel_terminal_print_char t (to_hex (hex / 2 ^ 4)) in
    let t = kernel_terminal_print_char t (to_hex (bit_and hex 15)) in
    kernel_terminal_print_char t 32

-- kernel_print_str_hex
unfoldable pub kernel_print_str_hex : Terminal → (ℕ → ℕ) → ℕ → Terminal
unfolding kernel_print_char_hex
kernel_print_str_hex t buffer length =
    array_loop (λ i t. kernel_print_char_hex t (buffer i)) 0 length t
