-- ===== src/PathParser/Part.antt =====
-- One part of a path.
use native.Mathlib.Decide.{ℕ_discrete}
use native.Mathlib.Nat.{add-zero}
use simple_microkernel.Base.{
  ℕ, zero, suc, ◌+◌, ◌-◌, ◌^◌, ◌≤◌, ◌<◌, ◌≡◌, ◌⊎◌, inl, inr, refl, sym, ◌∙◌, ap, ◌==◌, true, false,
  ◌||◌, ne→==, some, update, update_self, update_ne, add32, arith,
}
use simple_microkernel.Memory.{Bytes}
use simple_microkernel.Memory.Fill.{Outside}
use simple_microkernel.PathParser.Parts.{Parser, copy_part}

-- The byte ends a part.
abbrev pub IsEnd : ℕ → Type 0
IsEnd c = (c ≡ 0x2f) ⊎ (c ≡ 0)

-- The part at `path` has `k` bytes.
pub record HasPart (m : Bytes) (path k : ℕ) : Type 0 where
  pub letters : (i : ℕ) → i < k → ¬ IsEnd (m (path + i))
  pub end : IsEnd (m (path + k))

-- the copy of the bytes from `i` on, of which `n` are left
pub record PartCopied (s : Parser) (c_temp i n : ℕ) (r : ℕ × Parser) : Type 0 where
  pub count : r.0 ≡ i + n
  pub path : r.1.path ≡ s.path + n
  pub heap : r.1.heap ≡ s.heap
  pub bytes : (j : ℕ) → j < n → r.1.memory (c_temp + i + j) ≡ s.memory (s.path + j)
  pub others : (a : ℕ) → Outside (c_temp + i) n a → r.1.memory a ≡ s.memory a

-- after one byte
abbrev step : Parser → ℕ → ℕ → Parser
step s c_temp i = record s {
  path = s.path + 1;
  memory = update s.memory (c_temp + i) (s.memory s.path);
}

step-PartCopied :
    (s : Parser) (c_temp i n : ℕ) (r : ℕ × Parser)
    → (s.path + suc n ≤ c_temp + i) ⊎ (c_temp + i + suc n ≤ s.path)
    → PartCopied (step s c_temp i) c_temp (suc i) n r
    → PartCopied s c_temp i (suc n) r
step-PartCopied s c_temp i n r apart c =
    let m = s.memory in
    record {
      count = c.count ∙ omega arith;
      path = c.path ∙ omega arith;
      heap = c.heap;
      bytes = λ j h. elim (ℕ_discrete j 0) [
        | yes z ↦
            let here : c_temp + i + j ≡ c_temp + i = omega arith in
            let there : s.path + j ≡ s.path = omega arith in
            rw (here, there)
              (c.others (c_temp + i) (omega arith) ∙ update_self m (c_temp + i) (m s.path))
        | no nz ↦
            let here : c_temp + suc i + (j - 1) ≡ c_temp + i + j = omega arith in
            let there : s.path + 1 + (j - 1) ≡ s.path + j = omega arith in
            ap r.1.memory (sym here)
            ∙ c.bytes (j - 1) (omega arith)
            ∙ ap (update m (c_temp + i) (m s.path)) there
            ∙ update_ne m (c_temp + i) (m s.path) (s.path + j) (omega arith)
      ];
      others =
          λ a o. c.others a (omega arith) ∙ update_ne m (c_temp + i) (m s.path) a (omega arith);
    }

no_end : (c : ℕ) → ¬ IsEnd c → (c == 0x2f || c == 0) ≡ false
no_end c h = rw (ne→== c 0x2f (λ e. h (inl e)), ne→== c 0 (λ e. h (inr e))) refl

an_end : (c : ℕ) → IsEnd c → (c == 0x2f || c == 0) ≡ true
an_end c (inl e) = rw e refl
an_end c (inr e) = rw e refl

one_more :
    (fuel n : ℕ) (s : Parser) (c_temp i : ℕ)
    → ¬ IsEnd (s.memory s.path)
    → s.path + 1 < 2 ^ 32
    → c_temp + i < 2 ^ 32
    → (s.path + suc n ≤ c_temp + i) ⊎ (c_temp + i + suc n ≤ s.path)
    → (r : ℕ × Parser) × (copy_part fuel (step s c_temp i) c_temp (suc i) ≡ some r)
      × PartCopied (step s c_temp i) c_temp (suc i) n r
    → (r : ℕ × Parser) × (copy_part (suc fuel) s c_temp i ≡ some r)
      × PartCopied s c_temp i (suc n) r
unfolding copy_part
one_more fuel n s c_temp i letter g h apart (r, e, c) =
    let next : add32 s.path 1 ≡ s.path + 1 = omega arith in
    let place : add32 c_temp i ≡ c_temp + i = omega arith in
    (r, rw (no_end (s.memory s.path) letter, next, place) e, step-PartCopied s c_temp i n r apart c)

HasPart-step :
    (s : Parser) (c_temp i n : ℕ)
    → (s.path + n + 2 ≤ c_temp + i) ⊎ (c_temp + i + suc n ≤ s.path)
    → HasPart s.memory s.path (suc n)
    → HasPart (step s c_temp i).memory (s.path + 1) n
HasPart-step s c_temp i n apart p =
    let same = λ (j : ℕ) (h : j < n + 1).
      ap (update s.memory (c_temp + i) (s.memory s.path))
        (let e : s.path + 1 + j ≡ s.path + suc j = omega arith in e)
      ∙ update_ne s.memory (c_temp + i) (s.memory s.path) (s.path + suc j) (omega arith) in
    record {
      letters = λ j h. rw (same j (omega arith)) (p.letters (suc j) (omega arith));
      end = rw (same n (omega arith)) p.end;
    }

pub copy_part-PartCopied :
    (fuel n : ℕ) (s : Parser) (c_temp i : ℕ)
    → n < fuel
    → HasPart s.memory s.path n
    → s.path + n < 2 ^ 32
    → c_temp + i + n < 2 ^ 32
    → (s.path + n + 1 ≤ c_temp + i) ⊎ (c_temp + i + n ≤ s.path)
    → (r : ℕ × Parser) × (copy_part fuel s c_temp i ≡ some r) × PartCopied s c_temp i n r
unfolding copy_part
copy_part-PartCopied zero n s c_temp i enough p g h apart = absurd (omega arith)
copy_part-PartCopied (suc fuel) zero s c_temp i enough p g h apart =
    let here : IsEnd (s.memory s.path) = rw (ap s.memory (sym (add-zero s.path))) p.end in
    (
      (i, s),
      rw (an_end (s.memory s.path) here) refl,
      record {
        count = omega arith;
        path = omega arith;
        heap = refl;
        bytes = λ j h. absurd (omega arith);
        others = λ a o. refl;
      },
    )
copy_part-PartCopied (suc fuel) (suc n) s c_temp i enough p g h apart =
    let letter : ¬ IsEnd (s.memory s.path) =
      rw (ap s.memory (sym (add-zero s.path))) (p.letters 0 (omega arith)) in
    one_more fuel n s c_temp i letter (omega arith) (omega arith) (omega arith) (
      copy_part-PartCopied fuel n (step s c_temp i) c_temp (suc i) (omega arith)
        (HasPart-step s c_temp i n (omega arith) p) (omega arith) (omega arith) (omega arith))
