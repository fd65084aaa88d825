-- ===== src/Pmm/Count.antt =====
-- How many blocks are free: the number that the counter of pmm.c stands for.
use simple_microkernel.Base.{
  ℕ, zero, suc, ◌+◌, ◌≤◌, ◌<◌, ◌≡◌, ◌≢◌, refl, ◌==◌, if◌then◌else◌, update, update_lem, arith,
}

-- the entries that are 0 below `n`
unfoldable pub count_free : (ℕ → ℕ) → ℕ → ℕ
count_free t zero = 0
count_free t (suc n) = count_free t n + (if t n == 0 then 1 else 0)

pub count_free-le : (t : ℕ → ℕ) (n : ℕ) → count_free t n ≤ n
unfolding count_free
count_free-le t zero = omega arith
count_free-le t (suc n) = ground (arith, count_free-le t n)

pub count_free-zero : (t : ℕ → ℕ) (n : ℕ) → ((j : ℕ) → j < n → t j ≢ 0) → count_free t n ≡ 0
unfolding count_free
count_free-zero t zero h = refl
count_free-zero t (suc n) h = ground (arith, h n, count_free-zero t n (λ j l. h j (omega arith)))

pub count_free-update_out :
    (t : ℕ → ℕ) (n b v : ℕ) → n ≤ b → count_free (update t b v) n ≡ count_free t n
unfolding count_free
count_free-update_out t zero b v h = refl
count_free-update_out t (suc n) b v h =
    ground (arith, update_lem t b v n, count_free-update_out t n b v)

pub count_free-use :
    (t : ℕ → ℕ) (n b : ℕ) → t b ≡ 0 → b < n → count_free (update t b 1) n + 1 ≡ count_free t n
unfolding count_free
count_free-use t zero b e h = absurd (omega arith)
count_free-use t (suc n) b e h =
    ground (arith, update_lem t b 1 n, count_free-update_out t n b 1, count_free-use t n b)

pub count_free-release :
    (t : ℕ → ℕ) (n b : ℕ) → t b ≢ 0 → b < n → count_free (update t b 0) n ≡ count_free t n + 1
unfolding count_free
count_free-release t zero b e h = absurd (omega arith)
count_free-release t (suc n) b e h =
    ground (arith, update_lem t b 0 n, count_free-update_out t n b 0, count_free-release t n b)

-- Freeing what is free already changes no entry.
pub count_free-again :
    (t : ℕ → ℕ) (n b : ℕ) → t b ≡ 0 → count_free (update t b 0) n ≡ count_free t n
unfolding count_free
count_free-again t zero b e = refl
count_free-again t (suc n) b e = ground (arith, update_lem t b 0 n, count_free-again t n b)

pub count_free-lt : (t : ℕ → ℕ) (n b : ℕ) → t b ≢ 0 → b < n → count_free t n < n
count_free-lt t n b e h =
    omega (arith, count_free-release t n b e h, count_free-le (update t b 0) n)
