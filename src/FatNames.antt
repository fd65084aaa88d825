-- ===== src/FatNames.antt =====
-- src/fs/fat16/fat16.c: the names of directory items. The name is read to its first blank or zero
-- byte, whichever field that lies in, so the loop has fuel, and `none` where it runs out.
pub mod Copied
pub mod Written
mod Tests
use simple_microkernel.Base.{
  ℕ, zero, suc, ◌+◌, ◌==◌, if◌then◌else◌, ◌&&◌, ◌||◌, not, Option, some, none, ◌>>=◌, update, add32,
}
use simple_microkernel.Memory.{Bytes, memset}

-- fat16_to_proper_string, with what `*out` holds after the call
unfoldable pub to_proper_string : ℕ → Bytes → ℕ → ℕ → Option (ℕ × Bytes)
to_proper_string zero m out src = none
to_proper_string (suc fuel) m out src =
    let rest = to_proper_string fuel (update m out (m src)) (add32 out 1) (add32 src 1) in
    if m src == 0 || m src == 0x20
    then some (out, if m src == 0x20 then update m out 0 else m)
    else rest

-- the extension, behind a dot at `temp_out`
unfoldable pub put_extension : ℕ → ℕ → ℕ × Bytes → Option Bytes
unfolding to_proper_string
put_extension fuel ext (temp_out, m) =
    if not (m ext == 0) && not (m ext == 0x20)
    then (do
      (end, m') ← to_proper_string fuel (update m temp_out 0x2e) (add32 temp_out 1) ext
      some m')
    else some m

-- fat16_get_relative_path_name; the name has 8 bytes, the extension follows it
unfoldable pub get_relative_path_name : ℕ → Bytes → ℕ → ℕ → ℕ → Option Bytes
unfolding put_extension
get_relative_path_name fuel m item out max_len = do
  named ← to_proper_string fuel (memset m out 0 max_len) out item
  put_extension fuel (add32 item 8) named
