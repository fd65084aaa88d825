-- ===== src/FatNames/Tests.antt =====
-- The theorem of names at a concrete item, and tests.
use simple_microkernel.Base.{◌≡◌, inl, inr, refl, ◌==◌, if◌then◌else◌, some, arith}
use simple_microkernel.Memory.{Bytes}
use simple_microkernel.FatNames.{get_relative_path_name}
use simple_microkernel.FatNames.Copied.{HasName}
use simple_microkernel.FatNames.Written.{NameWritten, get_relative_path_name-NameWritten}

-- an item at 0x9000 with the name A and the extension B
abbrev a_dot_b : Bytes
a_dot_b a = if a == 0x9000 then 0x41 else (if a == 0x9008 then 0x42 else 0x20)

name_a : HasName a_dot_b 0x9000 1
name_a = record {
  letters = λ i h.
      let z : i ≡ 0 = omega arith in
      rw z (λ b. elim b [ inl e ↦ absurd (omega arith) | inr e ↦ absurd (omega arith) ]);
  blank = inr refl;
}

extension_b : HasName a_dot_b 0x9008 1
extension_b = record {
  letters = λ i h.
      let z : i ≡ 0 = omega arith in
      rw z (λ b. elim b [ inl e ↦ absurd (omega arith) | inr e ↦ absurd (omega arith) ]);
  blank = inr refl;
}

get_relative_path_name-NameWritten_example :
    (m : Bytes) × (get_relative_path_name 9 a_dot_b 0x9000 0xb000 108 ≡ some m)
    × NameWritten a_dot_b 0x9000 0xb000 1 1 m
get_relative_path_name-NameWritten_example =
    get_relative_path_name-NameWritten a_dot_b 0x9000 0xb000 1 1 (omega arith) (omega arith)
      (inl (omega arith)) (omega arith) (omega arith) name_a extension_b 9 (omega arith)
      (omega arith)
