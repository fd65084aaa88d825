-- ===== src/Terminal/Cells.antt =====
-- What printing writes to the video memory.
use simple_microkernel.Base.{
  ℕ, zero, suc, ◌+◌, ◌-◌, ◌*◌, ◌%◌, ◌^◌, ◌≤◌, ◌<◌, ◌≡◌, refl, ◌∙◌, ap, leb, Bool-cases, inl, inr,
  update, update_self, update_ne, array_loop, arith,
}
use simple_microkernel.Terminal.{
  Terminal, terminal_make_char, terminal_put_char, clear_row, terminal_init, wrap_line, wrap_screen,
  kernel_terminal_print_char, print_chars, kernel_print_string,
}

-- Cells outside the 20 rows of 80 columns are as before.
abbrev pub OffScreen : (ℕ → ℕ) → (ℕ → ℕ) → Type 0
OffScreen v v' = (i : ℕ) → 1600 ≤ i → v' i ≡ v i

pub record Printed (t : Terminal) (a : ℕ) (t' : Terminal) : Type 0 where
  pub row : t'.terminal_row < 20
  pub first_col : 1 ≤ t'.terminal_col
  pub last_col : t'.terminal_col ≤ 80
  pub cell : t'.video_memory (t'.terminal_row * 80 + t'.terminal_col - 1) ≡ terminal_make_char a 15
  pub off_screen : OffScreen t.video_memory t'.video_memory

put-OffScreen :
    (v : ℕ → ℕ) (y x c colour : ℕ)
    → y < 80
    → x < 20
    → OffScreen v (terminal_put_char v y x c colour)
unfolding terminal_put_char
put-OffScreen v y x c colour h k i o =
    update_ne v (x * 80 + y) (terminal_make_char c colour) i (omega arith)

columns-OffScreen :
    (x : ℕ) (v : ℕ → ℕ) (y n : ℕ)
    → x < 20
    → y + n ≤ 80
    → OffScreen v (array_loop (λ y v. terminal_put_char v y x 32 0) y n v)
unfolding array_loop
columns-OffScreen x v y zero h k i o = refl
columns-OffScreen x v y (suc n) h k i o =
    columns-OffScreen x (terminal_put_char v y x 32 0) (suc y) n h (omega arith) i o
    ∙ put-OffScreen v y x 32 0 (omega arith) h i o

rows-OffScreen : (v : ℕ → ℕ) (x n : ℕ) → x + n ≤ 20 → OffScreen v (array_loop clear_row x n v)
unfolding array_loop clear_row
rows-OffScreen v x zero h i o = refl
rows-OffScreen v x (suc n) h i o =
    rows-OffScreen (clear_row x v) (suc x) n (omega arith) i o
    ∙ columns-OffScreen x v 0 80 (omega arith) (omega arith) i o

-- where the next character goes
record Ready (t t' : Terminal) : Type 0 where
  row : t'.terminal_row < 20
  col : t'.terminal_col < 80
  off_screen : OffScreen t.video_memory t'.video_memory

screen-Ready : (t : Terminal) → t.terminal_col < 80 → Ready t (wrap_screen t)
unfolding wrap_screen terminal_init
screen-Ready t h = elim (Bool-cases (leb 20 t.terminal_row)) [
  | inl full ↦ rw full (record {
    row = omega arith;
    col = omega arith;
    off_screen = rows-OffScreen t.video_memory 0 20 (omega arith);
  })
  | inr space ↦ rw space (record { row = ground (arith, space); col = h; off_screen = λ i o. refl })
]

char-Ready : (t : Terminal) → t.terminal_col ≤ 80 → Ready t (wrap_screen (wrap_line t))
unfolding wrap_line
char-Ready t h = elim (Bool-cases (leb 80 t.terminal_col)) [
  | inl end ↦
      let u : Terminal = record t {
        terminal_col = 0;
        terminal_row = (t.terminal_row + 1) % 2 ^ 16;
      } in
      let r = screen-Ready u (omega arith) in
      rw end (record { row = r.row; col = r.col; off_screen = r.off_screen })
  | inr inside ↦ rw inside (screen-Ready t (ground (arith, inside)))
]

-- Printing a character puts it, in white, into the cell before the new column, which is one of the
-- 20 rows of 80 columns, and changes no memory outside them.
pub kernel_terminal_print_char-Printed :
    (t : Terminal) (a : ℕ) → t.terminal_col ≤ 80 → Printed t a (kernel_terminal_print_char t a)
unfolding kernel_terminal_print_char terminal_put_char
kernel_terminal_print_char-Printed t a h =
    let u = wrap_screen (wrap_line t) in
    let r = char-Ready t h in
    let row = r.row in
    let col = r.col in
    let next : (u.terminal_col + 1) % 2 ^ 16 ≡ u.terminal_col + 1 = omega arith in
    record {
      row = row;
      first_col = omega arith;
      last_col = omega arith;
      cell =
          ap
            (update u.video_memory (u.terminal_row * 80 + u.terminal_col) (terminal_make_char a 15))
            (omega (arith, next))
          ∙ update_self u.video_memory (u.terminal_row * 80 + u.terminal_col)
              (terminal_make_char a 15);
      off_screen = λ i o.
          put-OffScreen u.video_memory u.terminal_col u.terminal_row a 15 col row i o
          ∙ r.off_screen i o;
    }

print_chars-OffScreen :
    (t : Terminal) (str : ℕ → ℕ) (i n : ℕ)
    → t.terminal_col ≤ 80
    → OffScreen t.video_memory (print_chars t str i n).video_memory
unfolding print_chars
print_chars-OffScreen t str i zero h j o = refl
print_chars-OffScreen t str i (suc n) h j o =
    let p = kernel_terminal_print_char-Printed t (str i) h in
    print_chars-OffScreen (kernel_terminal_print_char t (str i)) str (suc i) n p.last_col j o
    ∙ p.off_screen j o

-- A printed string of any length stays within the screen, and the next line starts at its first
-- column.
pub kernel_print_string-OffScreen :
    (t : Terminal) (str : ℕ → ℕ) (len : ℕ)
    → t.terminal_col ≤ 80
    → OffScreen t.video_memory (kernel_print_string t str len).video_memory
      × ((kernel_print_string t str len).terminal_col ≡ 0)
unfolding kernel_print_string
kernel_print_string-OffScreen t str len h = (print_chars-OffScreen t str 0 len h, refl)
