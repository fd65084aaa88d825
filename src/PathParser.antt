-- ===== src/PathParser.antt =====
-- src/fs/path_parser.c: the format of a path and its drive number. The string literal ":/" lies in
-- memory at an address of its own.
pub mod Drive
pub mod Parts
pub mod Part
pub mod Found
mod Tests
use simple_microkernel.Base.{
  ℕ, zero, suc, ◌+◌, ◌==◌, if◌then◌else◌, Bool, true, false, not, leb, add32, ℤ, pos, negsuc,
  minus_one,
}
use simple_microkernel.Memory.{Bytes, memcmp}
use simple_microkernel.String.{strnlen, is_digit, to_numeric_digit}

-- MAX_PATH
abbrev pub max_path : ℕ
max_path = 108

-- `x == 0`
abbrev pub is_zero : ℤ → Bool
is_zero (pos zero) = true
is_zero (pos (suc n)) = false
is_zero (negsuc n) = false

-- pathparser_path_valid_format
unfoldable pub path_valid_format : Bytes → ℕ → ℕ → ℕ
path_valid_format m colon_slash str =
    if leb (strnlen m str (pos max_path)) 3
    then 0
    else (if not (is_digit (m str))
        then 0
        else (if not (is_zero (memcmp m (add32 str 1) colon_slash 2)) then 0 else 1))

-- pathparser_get_drive_by_path; the second result is what `*path` holds after the call
unfoldable pub get_drive_by_path : Bytes → ℕ → ℕ → ℤ × ℕ
unfolding path_valid_format
get_drive_by_path m colon_slash path =
    if path_valid_format m colon_slash path == 0
    then (minus_one, path)
    else (to_numeric_digit (m path), add32 path 3)
