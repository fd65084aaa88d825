-- ===== src/PathParser/Found.antt =====
-- What pathparser_get_path_part finds.
use simple_microkernel.Base.{ℕ, ◌+◌, ◌<◌, ◌≡◌, ◌⊎◌}
use simple_microkernel.Memory.Fill.{Outside}
use simple_microkernel.PathParser.Parts.{Parser, allocate}

-- The part of `k` bytes has been copied to `c_temp`, with a zero byte behind it, and the path goes on
-- behind the slash, or at its end.
pub record PartFound (s : Parser) (k temp c_temp : ℕ) (t : Parser) : Type 0 where
  pub bytes : (i : ℕ) → i < k → t.memory (c_temp + i) ≡ s.memory (s.path + i)
  pub terminated : t.memory (c_temp + k) ≡ 0
  pub path :
      ((s.memory (s.path + k) ≡ 0x2f) × (t.path ≡ s.path + k + 1))
      ⊎ ((s.memory (s.path + k) ≡ 0) × (t.path ≡ s.path + k))
  pub others : (a : ℕ) → Outside temp 8 a → Outside c_temp 108 a → t.memory a ≡ s.memory a

module _ (s : Parser) where
  -- the memory for the struct and for the name
  abbrev pub part : ℕ × Parser
  part = allocate s 8

  abbrev pub name : ℕ × Parser
  name = allocate part.1 108
