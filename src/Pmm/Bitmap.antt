-- ===== src/Pmm/Bitmap.antt =====
-- The bitmap of pmm.c: a block's entry is one digit of one word, and the operations on it change
-- that digit alone.
use simple_microkernel.Base.{
  ℕ, ◌/◌, ◌%◌, ◌^◌, ◌<◌, ◌≡◌, refl, fun_ext, bit_and, bit_or, ◌==◌, if◌then◌else◌, Bool-cases, inl,
  inr, ==→eq, update, bit, bit-lt, bit_and-one_test, bit-bit_or_one, bit-bit_and_not, not_bit,
  arith,
}
use simple_microkernel.Pmm.{Pmm, max_blocks, memory_map_set, memory_map_unset, memory_map_test}

abbrev word_bit : ℕ → ℕ → ℕ
word_bit w k = if bit_and w (2 ^ k) == 0 then 0 else 1

word_bit-bit : (w k : ℕ) → word_bit w k ≡ bit k w
word_bit-bit w k = rw (bit_and-one_test k w) (ground (arith, bit-lt k w))

-- Both branches of the three functions do the same.
test-bit : (p : Pmm) (b : ℕ) → memory_map_test p b ≡ bit (b % 32) (p.memory_map (b / 32))
unfolding memory_map_test
test-bit p b = elim (Bool-cases (b == 0)) [
  | inl e ↦ rw (e, ==→eq b 0 e) (word_bit-bit (p.memory_map 0) 0)
  | inr e ↦ rw e (word_bit-bit (p.memory_map (b / 32)) (b % 32))
]

pub test-lt : (p : Pmm) (b : ℕ) → memory_map_test p b < 2
test-lt p b = rw test-bit (bit-lt (b % 32) (p.memory_map (b / 32)))

set-map :
    (p : Pmm) (b : ℕ)
    → (memory_map_set p b).memory_map
      ≡ update p.memory_map (b / 32) (bit_or (p.memory_map (b / 32)) (2 ^ (b % 32)))
unfolding memory_map_set
set-map p b = elim (Bool-cases (b == 0)) [ inl e ↦ rw (e, ==→eq b 0 e) refl | inr e ↦ rw e ]

unset-map :
    (p : Pmm) (b : ℕ)
    → (memory_map_unset p b).memory_map
      ≡ update p.memory_map (b / 32) (bit_and (p.memory_map (b / 32)) (not_bit (b % 32)))
unfolding memory_map_unset
unset-map p b = elim (Bool-cases (b == 0)) [ inl e ↦ rw (e, ==→eq b 0 e) refl | inr e ↦ rw e ]

-- In the word of block `b`, the entry of a block `c` of the same word.
set_in_word :
    (w b c : ℕ)
    → c / 32 ≡ b / 32
    → bit (c % 32) (bit_or w (2 ^ (b % 32))) ≡ (if c == b then 1 else bit (c % 32) w)
set_in_word w b c q = ground (arith, bit-bit_or_one (b % 32) (c % 32) w (omega arith) (omega arith))

unset_in_word :
    (w b c : ℕ)
    → c / 32 ≡ b / 32
    → bit (c % 32) (bit_and w (not_bit (b % 32))) ≡ (if c == b then 0 else bit (c % 32) w)
unset_in_word w b c q =
    ground (arith, bit-bit_and_not (b % 32) (c % 32) w (omega arith) (omega arith))

test-set_at :
    (p : Pmm) (b c : ℕ) → memory_map_test (memory_map_set p b) c ≡ update (memory_map_test p) b 1 c
unfolding update
test-set_at p b c =
    rw (test-bit, set-map, test-bit)
      (elim (Bool-cases (c / 32 == b / 32)) [
        | inl e ↦
            rw e (
              rw (==→eq (c / 32) (b / 32) e)
                (set_in_word (p.memory_map (b / 32)) b c (==→eq _ _ e)))
        | inr e ↦ rw e (ground arith)
      ])

test-unset_at :
    (p : Pmm) (b c : ℕ)
    → memory_map_test (memory_map_unset p b) c ≡ update (memory_map_test p) b 0 c
unfolding update
test-unset_at p b c =
    rw (test-bit, unset-map, test-bit)
      (elim (Bool-cases (c / 32 == b / 32)) [
        | inl e ↦ rw e (
            rw (==→eq (c / 32) (b / 32) e)
              (unset_in_word (p.memory_map (b / 32)) b c (==→eq _ _ e)))
        | inr e ↦ rw e (ground arith)
      ])

-- `pmm_memory_map_set` makes the entry of its block 1 and keeps the entry of every other block.
pub test-set :
    (p : Pmm) (b : ℕ) → memory_map_test (memory_map_set p b) ≡ update (memory_map_test p) b 1
test-set p b = fun_ext (test-set_at p b)

-- `pmm_memory_map_unset` makes the entry of its block 0 and keeps the entry of every other block.
pub test-unset :
    (p : Pmm) (b : ℕ) → memory_map_test (memory_map_unset p b) ≡ update (memory_map_test p) b 0
test-unset p b = fun_ext (test-unset_at p b)

-- The bitmap's functions leave the counters and the size alone.
pub record SameCounters (p q : Pmm) : Type 0 where
  pub used : q.used_blocks ≡ p.used_blocks
  pub free : q.free_blocks ≡ p.free_blocks
  pub size : q.system_memory_size ≡ p.system_memory_size

pub set-SameCounters : (p : Pmm) (b : ℕ) → SameCounters p (memory_map_set p b)
unfolding memory_map_set
set-SameCounters p b = ground arith

pub unset-SameCounters : (p : Pmm) (b : ℕ) → SameCounters p (memory_map_unset p b)
unfolding memory_map_unset
unset-SameCounters p b = ground arith

-- The entries depend on the bitmap alone.
pub test_of_map : (p q : Pmm) → p.memory_map ≡ q.memory_map → memory_map_test p ≡ memory_map_test q
unfolding memory_map_test
test_of_map p q e = fun_ext λ b. rw e

-- The word that holds a block's entry lies in the array, for the blocks of 4 GB.
pub word-lt : (b : ℕ) → b < 2 ^ 20 → b / 32 < max_blocks
word-lt b h = omega arith
