-- ===== src/Kheap/Search.antt =====
-- The table of big blocks: what the search finds, and what an insertion changes.
use native.Mathlib.Decide.{ℕ_discrete}
use simple_microkernel.Base.{
  ℕ, zero, suc, ◌+◌, ◌≤◌, ◌<◌, ◌≡◌, ◌≢◌, ◌⊎◌, inl, inr, refl, false, ◌==◌, Bool-cases, ==→eq, ==→ne,
  arith, ℤ, pos, minus_one,
}
use simple_microkernel.Kheap.{BigAddress, Heap, big_address_count, search_from, search_address}

-- no slot of [i, end) holds the address
abbrev pub Missing : (ℕ → BigAddress) → ℕ → ℕ → ℕ → Type 0
Missing b a i end = (j : ℕ) → i ≤ j → j < end → (b j).starting_address ≢ a

-- `k` is the first slot with the address, from `i` on.
pub record IsSlot (b : ℕ → BigAddress) (a i end k : ℕ) : Type 0 where
  pub above : i ≤ k
  pub below : k < end
  pub holds : (b k).starting_address ≡ a
  pub first : Missing b a i k

abbrev pub Searched : (ℕ → BigAddress) → ℕ → ℕ → ℕ → ℤ → Type 0
Searched b a i end r =
    ((k : ℕ) × (r ≡ pos k) × IsSlot b a i end k) ⊎ ((r ≡ minus_one) × Missing b a i end)

module _ (b : ℕ → BigAddress) (a : ℕ) where
  skip :
      (i : ℕ) {end : ℕ}
      → ((b i).starting_address == a) ≡ false
      → Missing b a (suc i) end
      → Missing b a i end
  skip i e rest j l u = elim (ℕ_discrete i j) [
    | yes same ↦ rw (← same) (==→ne _ _ e)
    | no other ↦ rest j (omega arith) u
  ]

  pub search_from-Searched : (i n : ℕ) → Searched b a i (i + n) (search_from b a i n)
  unfolding search_from
  search_from-Searched i zero = inr (refl, λ j l u. absurd (omega arith))
  search_from-Searched i (suc n) = elim (Bool-cases ((b i).starting_address == a)) [
    | inl e ↦ rw e (
        inl (
          i,
          refl,
          record {
            above = omega arith;
            below = omega arith;
            holds = ==→eq _ _ e;
            first = λ j l u. absurd (omega arith);
          },
        ))
    | inr e ↦ rw e (elim (search_from-Searched (suc i) n) [
      | inl (k, r, s) ↦ inl (
        k,
        r,
        record {
          above = omega (arith, s.above);
          below = omega (arith, s.below);
          holds = s.holds;
          first = skip i e s.first;
        },
      )
      | inr (r, none_there) ↦ inr (r, skip i e (λ j l u. none_there j l (omega arith)))
    ])
  ]

-- search_address returns the first slot of the table that holds the address, or -1 if none does.
pub search_address-Searched :
    (h : Heap) (a : ℕ) → Searched h.big_blocks a 0 big_address_count (search_address h a)
unfolding search_address
search_address-Searched h a = search_from-Searched h.big_blocks a 0 big_address_count
