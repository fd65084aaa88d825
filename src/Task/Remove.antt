-- ===== src/Task/Remove.antt =====
-- task_list_remove: the list without the task, from its head on.
use mathlib.Core.List.{append-nil}
use native.Mathlib.Decide.{ℕ_discrete}
use simple_microkernel.Base.{
  ℕ, if-push, ◌≡◌, ◌≢◌, refl, sym, ◌∙◌, ap, List, [], ◌∷◌, ◌++◌, ◌==◌, if◌then◌else◌, eq→==, ne→==,
  update, update_ne, update_self,
}
use simple_microkernel.Task.{
  Task, Tasks, task_get_next, unlink_next, remove_head, remove_tail, remove_current,
  task_list_remove,
}
use simple_microkernel.Task.List.{
  first, last_or, NotIn, Linked, IsTaskList, NotIn-last, NotIn-before,
}

-- Each struct's `next` leads to the next task, and the last one's is 0.
abbrev pub Forward : (ℕ → Task) → List ℕ → Type 0
Forward s [] = Unit
Forward s (x ∷ xs) = (x ≢ 0) × ((s x).next ≡ first xs) × Forward s xs

-- `prev` of the task behind the removed one
abbrev pub StalePrev : (ℕ → Task) → ℕ → List ℕ → Type 0
StalePrev s a [] = Unit
StalePrev s a (y ∷ ys) = (s y).prev ≡ a

abbrev pub current_without : ℕ → ℕ → List ℕ → List ℕ → ℕ
current_without c a xs ys =
    if a == c then (if first ys == 0 then first (xs ++ ys) else first ys) else c

pub record Removed (t : Tasks) (xs : List ℕ) (a : ℕ) (ys : List ℕ) (t' : Tasks) : Type 0 where
  pub head : t'.task_head ≡ first (xs ++ ys)
  pub tail : t'.task_tail ≡ last_or 0 (xs ++ ys)
  pub forward : Forward t'.store (xs ++ ys)
  pub current : t'.current_task ≡ current_without t.current_task a xs ys
  pub stale : StalePrev t'.store a ys

last_or-join : (d : ℕ) (xs : List ℕ) (y : ℕ) (ys : List ℕ) → last_or d (xs ++ y ∷ ys) ≡ last_or y ys
last_or-join d [] y ys = refl
last_or-join d (x ∷ xs) y ys = last_or-join x xs y ys

-- what the list says of a task in its middle
record Middle (s : ℕ → Task) (before : ℕ) (xs : List ℕ) (a : ℕ) (ys : List ℕ) : Type 0 where
  prev : (s a).prev ≡ last_or before xs
  next : (s a).next ≡ first ys
  behind : NotIn a ys
  rest : Linked s a ys
  nonzero : a ≢ 0

Linked-Middle :
    (s : ℕ → Task) (before : ℕ) (xs : List ℕ) (a : ℕ) (ys : List ℕ)
    → Linked s before (xs ++ a ∷ ys)
    → Middle s before xs a ys
Linked-Middle s before [] a ys (nonzero, p, n, out, l) = record {
  prev = p;
  next = n;
  behind = out;
  rest = l;
  nonzero = nonzero;
}
Linked-Middle s before (x ∷ xs) a ys l =
    let m = Linked-Middle s x xs a ys l.4 in
    record { prev = m.prev; next = m.next; behind = m.behind; rest = m.rest; nonzero = m.nonzero }

Linked-Forward : (s : ℕ → Task) (before : ℕ) (xs : List ℕ) → Linked s before xs → Forward s xs
Linked-Forward s before [] l = tt
Linked-Forward s before (x ∷ xs) (nonzero, p, n, out, l) = (nonzero, n, Linked-Forward s x xs l)

Forward-update :
    (s : ℕ → Task) (a : ℕ) (v : Task) (xs : List ℕ)
    → NotIn a xs
    → Forward s xs
    → Forward (update s a v) xs
Forward-update s a v [] fresh f = tt
Forward-update s a v (x ∷ xs) (ne, fresh) (nonzero, n, f) = (
  nonzero,
  ap Task.next (update_ne s a v x (λ e. ne (sym e))) ∙ n,
  Forward-update s a v xs fresh f,
)

NotIn-prefix : (a : ℕ) (xs ys : List ℕ) → NotIn a (xs ++ ys) → NotIn a xs
NotIn-prefix a [] ys h = tt
NotIn-prefix a (x ∷ xs) ys (ne, h) = (ne, NotIn-prefix a xs ys h)

-- the struct before the removed one now leads past it
abbrev skipped : (ℕ → Task) → ℕ → ℕ → ℕ → Task
skipped s l n = update s l (record (s l) { next = n })

Forward-skipped :
    (s : ℕ → Task) (before x : ℕ) (xs : List ℕ) (a : ℕ) (ys : List ℕ)
    → Linked s before ((x ∷ xs) ++ a ∷ ys)
    → Forward (skipped s (last_or x xs) (first ys)) ((x ∷ xs) ++ ys)
Forward-skipped s before x [] a ys (xn, p, n, out, l) =
    let v = record (s x) { next = first ys } in
    (
      xn,
      ap Task.next (update_self s x v),
      Forward-update s x v ys out.1 (Linked-Forward s a ys l.4),
    )
Forward-skipped s before x (y ∷ xs) a ys (xn, p, n, out, l) =
    let far = NotIn-last x y xs out.0 (NotIn-prefix x xs (a ∷ ys) out.1) in
    (
      xn,
      ap Task.next
            (update_ne s (last_or y xs) (record (s (last_or y xs)) { next = first ys }) x far)
          ∙ n,
      Forward-skipped s x y xs a ys l,
    )

-- the last task of the front is none of the tasks behind it
NotIn-front_last :
    (s : ℕ → Task) (before x : ℕ) (xs zs : List ℕ)
    → Linked s before ((x ∷ xs) ++ zs)
    → NotIn (last_or x xs) zs
NotIn-front_last s before x [] zs l = l.3
NotIn-front_last s before x (y ∷ xs) zs l = NotIn-front_last s x y xs zs l.4

front_last_nonzero :
    (s : ℕ → Task) (before x : ℕ) (xs zs : List ℕ)
    → Linked s before ((x ∷ xs) ++ zs)
    → last_or x xs ≢ 0
front_last_nonzero s before x [] zs l = l.0
front_last_nonzero s before x (y ∷ xs) zs l = front_last_nonzero s x y xs zs l.4

-- The three pointers of the list, when the struct of the removed task says what it should.
head_value :
    (h n : ℕ) (xs : List ℕ) (a : ℕ) (ys : List ℕ)
    → n ≡ first ys
    → NotIn a xs
    → h ≡ first (xs ++ a ∷ ys)
    → (if a == h then n else h) ≡ first (xs ++ ys)
head_value h n [] a ys next out e = rw (eq→== a h (sym e)) next
head_value h n (x ∷ xs) a ys next out e = rw (e, ne→== a x out.0) refl

tail_value :
    (l p : ℕ) (xs : List ℕ) (a : ℕ) (ys : List ℕ)
    → p ≡ last_or 0 xs
    → a ≢ 0
    → NotIn a ys
    → l ≡ last_or 0 (xs ++ a ∷ ys)
    → (if a == l then p else l) ≡ last_or 0 (xs ++ ys)
tail_value l p xs a [] prev nonzero out e =
    rw (append-nil xs, eq→== a l (sym (last_or-join 0 xs a []) ∙ sym e)) prev
tail_value l p xs a (y ∷ ys) prev nonzero (ne, out) e =
    let e' = e ∙ last_or-join 0 xs a (y ∷ ys) in
    rw (e', ne→== a (last_or y ys) (NotIn-last a y ys ne out)) (sym (last_or-join 0 xs y ys))

current_value :
    (t : Tasks) (xs : List ℕ) (a : ℕ) (ys : List ℕ)
    → (t.store a).next ≡ first ys
    → t.task_head ≡ first (xs ++ ys)
    → (if a == t.current_task then task_get_next t else t.current_task)
      ≡ current_without t.current_task a xs ys
unfolding task_get_next
current_value t xs a ys next head = elim (ℕ_discrete a t.current_task) [
  | yes same ↦ rw (eq→== a t.current_task same, sym same, next, head) refl
  | no other ↦ rw (ne→== a t.current_task other) refl
]

-- the list's globals without the task, over a store that has been written
abbrev without : Tasks → (ℕ → Task) → List ℕ → ℕ → List ℕ → Tasks
without t s xs a ys = record {
  store = s;
  task_head = first (xs ++ ys);
  task_tail = last_or 0 (xs ++ ys);
  current_task = current_without t.current_task a xs ys;
}

without-eq :
    (t : Tasks) (s : ℕ → Task) (xs : List ℕ) (a : ℕ) (ys : List ℕ)
    → IsTaskList t (xs ++ a ∷ ys)
    → (s a).next ≡ first ys
    → (s a).prev ≡ last_or 0 xs
    → NotIn a xs
    → NotIn a ys
    → a ≢ 0
    → remove_current (remove_tail (remove_head (record t { store = s }) a) a) a
      ≡ without t s xs a ys
unfolding remove_head remove_tail remove_current
without-eq t s xs a ys l next prev before behind nonzero =
    ap (λ t'. remove_current (remove_tail t' a) a)
      (if-push (λ (h : ℕ). record t { store = s; task_head = h }) (a == t.task_head) (s a).next
          t.task_head
        ∙ ap (λ (h : ℕ). record t { store = s; task_head = h })
            (head_value t.task_head (s a).next xs a ys next before l.head))
    ∙ ap (λ t'. remove_current t' a)
        (if-push (λ (h : ℕ). record t { store = s; task_head = first (xs ++ ys); task_tail = h })
            (a == t.task_tail) (s a).prev t.task_tail
          ∙ ap (λ (h : ℕ). record t { store = s; task_head = first (xs ++ ys); task_tail = h })
              (tail_value t.task_tail (s a).prev xs a ys prev nonzero behind l.tail))
    ∙ (let u : Tasks = record t {
      store = s;
      task_head = first (xs ++ ys);
      task_tail = last_or 0 (xs ++ ys);
    } in
        if-push (λ (h : ℕ). record u { current_task = h }) (a == u.current_task) (task_get_next u)
          u.current_task
        ∙ ap (λ (h : ℕ). record u { current_task = h }) (current_value u xs a ys next refl))

StalePrev-update :
    (s : ℕ → Task) (l : ℕ) (v : Task) (a : ℕ) (ys : List ℕ)
    → NotIn l ys
    → StalePrev s a ys
    → StalePrev (update s l v) a ys
StalePrev-update s l v a [] out h = tt
StalePrev-update s l v a (y ∷ ys) (ne, out) h =
    ap Task.prev (update_ne s l v y (λ e. ne (sym e))) ∙ h

Linked-StalePrev : (s : ℕ → Task) (a : ℕ) (ys : List ℕ) → Linked s a ys → StalePrev s a ys
Linked-StalePrev s a [] l = tt
Linked-StalePrev s a (y ∷ ys) l = l.1

-- task_list_remove takes the task `a` out of the list `xs ++ a ∷ ys`: the head, the tail and the
-- `next` pointers are those of `xs ++ ys`, and if `a` was current, the task behind it is, or else the
-- head. The `prev` pointer of the task behind `a` still points at `a`.
pub task_list_remove-Removed :
    (t : Tasks) (xs : List ℕ) (a : ℕ) (ys : List ℕ)
    → IsTaskList t (xs ++ a ∷ ys)
    → Removed t xs a ys (task_list_remove t a)
unfolding task_list_remove unlink_next
task_list_remove-Removed t [] a ys l =
    let m = Linked-Middle t.store 0 [] a ys l.linked in
    let done = without-eq t t.store [] a ys l m.next m.prev tt m.behind m.nonzero in
    rw (eq→== (t.store a).prev 0 m.prev, done)
      (record {
        head = refl;
        tail = refl;
        forward = Linked-Forward t.store a ys m.rest;
        current = refl;
        stale = Linked-StalePrev t.store a ys m.rest;
      })
task_list_remove-Removed t (x ∷ xs) a ys l =
    let m = Linked-Middle t.store 0 (x ∷ xs) a ys l.linked in
    let out = NotIn-before t.store 0 (x ∷ xs) a ys l.linked in
    let (ne, far) = NotIn-front_last t.store 0 x xs (a ∷ ys) l.linked in
    let p = last_or x xs in
    let v = record (t.store p) { next = first ys } in
    let same = update_ne t.store p v a (λ e. ne (sym e)) in
    let done =
      without-eq t (skipped t.store p (first ys)) (x ∷ xs) a ys l (ap Task.next same ∙ m.next)
        (ap Task.prev same ∙ m.prev) out m.behind m.nonzero in
    rw (m.prev, m.next, ne→== p 0 (front_last_nonzero t.store 0 x xs (a ∷ ys) l.linked), done)
      (record {
        head = refl;
        tail = refl;
        forward = Forward-skipped t.store 0 x xs a ys l.linked;
        current = refl;
        stale = StalePrev-update t.store p v a ys far (Linked-StalePrev t.store a ys m.rest);
      })
