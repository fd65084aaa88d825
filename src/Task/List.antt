-- ===== src/Task/List.antt =====
-- The doubly linked list of tasks, as the sequence of their addresses.
use simple_microkernel.Base.{
  ℕ, ◌≡◌, ◌≢◌, refl, sym, ◌∙◌, ap, List, [], ◌∷◌, ◌++◌, update, update_ne, update_self,
}
use simple_microkernel.Task.{Task, Tasks}

-- the first and the last address, 0 and `d` for the empty sequence
abbrev pub first : List ℕ → ℕ
first [] = 0
first (x ∷ xs) = x

abbrev pub last_or : ℕ → List ℕ → ℕ
last_or d [] = d
last_or d (x ∷ xs) = last_or x xs

abbrev pub NotIn : ℕ → List ℕ → Type 0
NotIn a [] = Unit
NotIn a (x ∷ xs) = (a ≢ x) × NotIn a xs

-- The structs at the different addresses of the list point at one another, in both directions.
abbrev pub Linked : (ℕ → Task) → ℕ → List ℕ → Type 0
Linked s before [] = Unit
Linked s before (x ∷ xs) =
    (x ≢ 0) × ((s x).prev ≡ before) × ((s x).next ≡ first xs) × NotIn x xs × Linked s x xs

pub record IsTaskList (t : Tasks) (xs : List ℕ) : Type 0 where
  pub head : t.task_head ≡ first xs
  pub tail : t.task_tail ≡ last_or 0 xs
  pub linked : Linked t.store 0 xs

-- Only the two pointers matter.
pub Linked-same :
    (s s' : ℕ → Task) (before : ℕ) (xs : List ℕ)
    → ((a : ℕ) → ((s' a).prev ≡ (s a).prev) × ((s' a).next ≡ (s a).next))
    → Linked s before xs
    → Linked s' before xs
Linked-same s s' before [] same l = tt
Linked-same s s' before (x ∷ xs) same (nonzero, p, n, out, rest) =
    (nonzero, (same x).0 ∙ p, (same x).1 ∙ n, out, Linked-same s s' x xs same rest)

pub Linked-update :
    (s : ℕ → Task) (a : ℕ) (v : Task) (before : ℕ) (xs : List ℕ)
    → NotIn a xs
    → Linked s before xs
    → Linked (update s a v) before xs
Linked-update s a v before [] fresh l = tt
Linked-update s a v before (x ∷ xs) (ne, fresh) (nonzero, p, n, out, rest) =
    let same = update_ne s a v x (λ e. ne (sym e)) in
    (
      nonzero,
      ap Task.prev same ∙ p,
      ap Task.next same ∙ n,
      out,
      Linked-update s a v x xs fresh rest,
    )

pub NotIn-last : (a d : ℕ) (xs : List ℕ) → a ≢ d → NotIn a xs → a ≢ last_or d xs
NotIn-last a d [] h l = h
NotIn-last a d (x ∷ xs) h (ne, l) = NotIn-last a x xs ne l

NotIn-append : (a b : ℕ) (xs : List ℕ) → NotIn a xs → a ≢ b → NotIn a (xs ++ b ∷ [])
NotIn-append a b [] l ne = (ne, tt)
NotIn-append a b (x ∷ xs) (h, l) ne = (h, NotIn-append a b xs l ne)

NotIn-middle : (a x : ℕ) (back rest : List ℕ) → NotIn a (back ++ x ∷ rest) → a ≢ x
NotIn-middle a x [] rest (ne, h) = ne
NotIn-middle a x (b ∷ back) rest (ne, h) = NotIn-middle a x back rest h

-- a task of the list is none of those before it
pub NotIn-before :
    (s : ℕ → Task) (before : ℕ) (back : List ℕ) (x : ℕ) (rest : List ℕ)
    → Linked s before (back ++ x ∷ rest)
    → NotIn x back
NotIn-before s before [] x rest l = tt
NotIn-before s before (b ∷ back) x rest l =
    (λ e. NotIn-middle b x back rest l.3 (sym e), NotIn-before s b back x rest l.4)

-- and none of those behind it
pub NotIn-behind :
    (s : ℕ → Task) (before : ℕ) (back : List ℕ) (x : ℕ) (rest : List ℕ)
    → Linked s before (back ++ x ∷ rest)
    → NotIn x rest
NotIn-behind s before [] x rest l = l.3
NotIn-behind s before (b ∷ back) x rest l = NotIn-behind s b back x rest l.4

pub last_or-append : (d a : ℕ) (xs : List ℕ) → last_or d (xs ++ a ∷ []) ≡ a
last_or-append d a [] = refl
last_or-append d a (x ∷ xs) = last_or-append x a xs

-- the store after the last task `l` and the new task `a` have been joined
abbrev pub joined : (ℕ → Task) → ℕ → ℕ → ℕ → Task
joined s l a =
    let s' = update s l (record (s l) { next = a }) in update s' a (record (s' a) { prev = l })

module _ (s : ℕ → Task) (a : ℕ) (nonzero : a ≢ 0) (unlinked : (s a).next ≡ 0) where
  joined-old : (l x : ℕ) → x ≢ a → x ≢ l → joined s l a x ≡ s x
  joined-old l x h k =
      let s' = update s l (record (s l) { next = a }) in
      update_ne s' a (record (s' a) { prev = l }) x h
      ∙ update_ne s l (record (s l) { next = a }) x k

  joined-last : (l : ℕ) → l ≢ a → joined s l a l ≡ record (s l) { next = a }
  joined-last l h =
      let s' = update s l (record (s l) { next = a }) in
      update_ne s' a (record (s' a) { prev = l }) l h ∙ update_self s l (record (s l) { next = a })

  pub joined-new : (l : ℕ) → l ≢ a → joined s l a a ≡ record (s a) { prev = l }
  joined-new l h =
      let s' = update s l (record (s l) { next = a }) in
      update_self s' a (record (s' a) { prev = l })
      ∙ ap (λ (v : Task). record v { prev = l })
          (update_ne s l (record (s l) { next = a }) a (λ e. h (sym e)))

  -- The new task stands at the end of the list.
  pub Linked-joined :
      (before x : ℕ) (xs : List ℕ)
      → Linked s before (x ∷ xs)
      → NotIn a (x ∷ xs)
      → Linked (joined s (last_or x xs) a) before ((x ∷ xs) ++ a ∷ [])
  Linked-joined before x [] (xn, p, n, out, rest) (ne, fresh) =
      let old = joined-last x (λ e. ne (sym e)) in
      let new = joined-new x (λ e. ne (sym e)) in
      (
        xn,
        ap Task.prev old ∙ p,
        ap Task.next old,
        ((λ e. ne (sym e)), tt),
        (nonzero, ap Task.prev new, ap Task.next new ∙ unlinked, tt, tt),
      )
  Linked-joined before x (y ∷ ys) (xn, p, n, out, rest) (ne, fresh) =
      let old = joined-old (last_or y ys) x (λ e. ne (sym e)) (NotIn-last x y ys out.0 out.1) in
      (
        xn,
        ap Task.prev old ∙ p,
        ap Task.next old ∙ n,
        NotIn-append x a (y ∷ ys) out (λ e. ne (sym e)),
        Linked-joined x y ys rest fresh,
      )
