-- ===== src/Paging/Table.antt =====
-- One round of paging_new_4gb: the table that it fills and the directory entry that it writes.
use native.Mathlib.Decide.{ℕ_discrete}
use simple_microkernel.Base.{
  ℕ, zero, suc, ◌+◌, ◌*◌, ◌/◌, ◌%◌, ◌^◌, ◌≤◌, ◌<◌, ◌≡◌, ◌≢◌, ◌⊎◌, refl, ◌∙◌, ap, update,
  update_self, update_ne, array_loop, add32, mul32, bit_or, bit_or_page, bit_or_two, arith,
}
use simple_microkernel.Paging.{Words, entry_address, fill_table, add_table}

module _ (entry offset flags : ℕ) where
  abbrev fill_at : ℕ → Words → Words
  fill_at b m = update m (entry_address entry b) (bit_or (add32 offset (mul32 b 4096)) flags)

  fill_loop-out :
      (m : Words) (b n a : ℕ)
      → b + n ≤ 1024
      → entry + 4096 ≤ 2 ^ 32
      → (a < entry + 4 * b) ⊎ (entry + 4 * (b + n) ≤ a)
      → array_loop fill_at b n m a ≡ m a
  unfolding array_loop
  fill_loop-out m b zero a h k o = refl
  fill_loop-out m b (suc n) a h k o =
      fill_loop-out (fill_at b m) (suc b) n a (omega arith) k (omega arith)
      ∙ update_ne m (entry_address entry b) (bit_or (add32 offset (mul32 b 4096)) flags) a
          (λ e. absurd (omega arith))

  fill_loop-in :
      (m : Words) (b n c : ℕ)
      → b + n ≤ 1024
      → entry + 4096 ≤ 2 ^ 32
      → b ≤ c
      → c < b + n
      → array_loop fill_at b n m (entry + 4 * c) ≡ bit_or (add32 offset (mul32 c 4096)) flags
  unfolding array_loop
  fill_loop-in m b zero c h k l u = absurd (omega arith)
  fill_loop-in m b (suc n) c h k l u = elim (ℕ_discrete b c) [
    | yes same ↦
        let here : entry_address entry b ≡ entry + 4 * c = omega arith in
        fill_loop-out (fill_at b m) (suc b) n (entry + 4 * c) (omega arith) k (omega arith)
        ∙ (ap (λ x. update m x (bit_or (add32 offset (mul32 b 4096)) flags) (entry + 4 * c)) here
            ∙ (update_self m (entry + 4 * c) (bit_or (add32 offset (mul32 b 4096)) flags)
                ∙ ap (λ (x : ℕ). bit_or (add32 offset (mul32 x 4096)) flags) same))
    | no other ↦ fill_loop-in (fill_at b m) (suc b) n c (omega arith) k (omega arith) (omega arith)
  ]

  -- The table is filled from entry 0 to entry 1023, and nothing else is written.
  fill_table-in :
      (m : Words) (b : ℕ)
      → entry + 4096 ≤ 2 ^ 32
      → b < 1024
      → fill_table entry offset flags m (entry + 4 * b) ≡ bit_or (add32 offset (mul32 b 4096)) flags
  unfolding fill_table
  fill_table-in m b h u = fill_loop-in m 0 1024 b (omega arith) h (omega arith) (omega arith)

  fill_table-out :
      (m : Words) (a : ℕ)
      → entry + 4096 ≤ 2 ^ 32
      → (a < entry) ⊎ (entry + 4096 ≤ a)
      → fill_table entry offset flags m a ≡ m a
  unfolding fill_table
  fill_table-out m a h o = fill_loop-out m 0 1024 a (omega arith) h (omega arith)

-- the directory entry for the table in block `k`
abbrev pub directory_entry : ℕ → ℕ → ℕ
directory_entry k flags = bit_or (bit_or (k * 4096) flags) 2

pub directory_entry-frame :
    (k flags : ℕ)
    → k < 2 ^ 20
    → flags < 4096
    → (directory_entry k flags / 4096 ≡ k) × (directory_entry k flags < 2 ^ 32)
directory_entry-frame k flags h l =
    let sum = bit_or_page k flags l in let two = bit_or_two (bit_or (k * 4096) flags) in omega arith

module _ (k i flags offset directory : ℕ) (m : Words) (in_4gb : k < 2 ^ 20) (row : i < 1024)
    (aligned : directory % 4096 ≡ 0) (fits : directory + 4096 ≤ 2 ^ 32)
    (apart : k ≢ directory / 4096) where
  abbrev after_round : Words
  after_round = add_table directory i (k * 4096) offset flags m

  entry_slot_of_row : entry_address directory i ≡ directory + 4 * i
  entry_slot_of_row = omega arith

  pub add_table-out : (a : ℕ) → a / 4096 ≢ k → a ≢ directory + 4 * i → after_round a ≡ m a
  unfolding add_table
  add_table-out a not_table not_entry =
      update_ne (fill_table (k * 4096) offset flags m) (entry_address directory i)
        (directory_entry k flags) a (λ e. not_entry (e ∙ entry_slot_of_row))
      ∙ fill_table-out (k * 4096) offset flags m a (omega arith) (omega arith)

  pub add_table-entry : after_round (directory + 4 * i) ≡ directory_entry k flags
  unfolding add_table
  add_table-entry =
      ap
        (λ x.
          update (fill_table (k * 4096) offset flags m) x (directory_entry k flags)
            (directory + 4 * i))
        entry_slot_of_row
      ∙ update_self (fill_table (k * 4096) offset flags m) (directory + 4 * i)
          (directory_entry k flags)

  pub add_table-table :
      (b : ℕ)
      → b < 1024
      → after_round (k * 4096 + 4 * b) ≡ bit_or (add32 offset (mul32 b 4096)) flags
  unfolding add_table
  add_table-table b h =
      update_ne (fill_table (k * 4096) offset flags m) (entry_address directory i)
        (directory_entry k flags) (k * 4096 + 4 * b) (λ e. apart (omega (arith, entry_slot_of_row)))
      ∙ fill_table-in (k * 4096) offset flags m b (omega arith) h
