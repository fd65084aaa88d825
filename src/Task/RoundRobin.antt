-- ===== src/Task/RoundRobin.antt =====
-- task_get_next goes round the list: the tasks take their turns in order.
use mathlib.Core.List.{append_assoc, append-nil}
use simple_microkernel.Base.{
  ℕ, zero, suc, length, ◌≡◌, ◌≢◌, refl, sym, ◌∙◌, List, [], ◌∷◌, ◌++◌, eq→==, ne→==,
}
use simple_microkernel.Task.{Task, Tasks, task_get_next}
use simple_microkernel.Task.List.{first, Linked, IsTaskList}

-- From the current task on, the list goes through the tasks `x ∷ rest` and then, from its head,
-- through those of `back`.
pub record IsRing (t : Tasks) (x : ℕ) (rest back : List ℕ) : Type 0 where
  pub listed : IsTaskList t (back ++ x ∷ rest)
  pub current : t.current_task ≡ x

-- the links of a task in the middle of the list, and of those behind it
pub Linked-at :
    (s : ℕ → Task) (before : ℕ) (back : List ℕ) (x : ℕ) (rest : List ℕ)
    → Linked s before (back ++ x ∷ rest)
    → ((s x).next ≡ first rest) × Linked s x rest
Linked-at s before [] x rest l = (l.2, l.4)
Linked-at s before (b ∷ back) x rest l = Linked-at s b back x rest l.4

-- the state after task_switch has taken the next task
abbrev pub next_turn : Tasks → Tasks
next_turn t = record t { current_task = task_get_next t }

-- the order in which the tasks run, from the current one on
abbrev pub IsTurnOrder : Tasks → List ℕ → Type 0
IsTurnOrder t order =
    (x : ℕ) × (rest : List ℕ) × (back : List ℕ) × (order ≡ x ∷ rest ++ back) × IsRing t x rest back

IsTaskList-turn :
    {t : Tasks} {xs : List ℕ} (c : ℕ)
    → IsTaskList t xs
    → IsTaskList (record t { current_task = c }) xs
IsTaskList-turn c l = record { head = l.head; tail = l.tail; linked = l.linked }

ring-turn :
    {t : Tasks} (x : ℕ) (rest back : List ℕ)
    → IsRing t x rest back
    → IsTurnOrder (next_turn t) (rest ++ back ++ x ∷ [])
unfolding task_get_next
ring-turn {t} x (z ∷ zs) back ring =
    let (next, linked) = Linked-at t.store 0 back x (z ∷ zs) ring.listed.linked in
    let next' : (t.store t.current_task).next ≡ z = rw ring.current next in
    (
      z,
      zs,
      back ++ x ∷ [],
      append_assoc (z ∷ zs) back (x ∷ []),
      record {
        listed = rw append_assoc (IsTaskList-turn (task_get_next t) ring.listed);
        current = rw (ne→== (t.store t.current_task).next 0 (λ e. linked.0 (sym next' ∙ e))) next';
      },
    )
ring-turn {t} x [] [] ring =
    let (next, linked) = Linked-at t.store 0 [] x [] ring.listed.linked in
    let next' : (t.store t.current_task).next ≡ 0 = rw ring.current next in
    (
      x,
      [],
      [],
      refl,
      record {
        listed = IsTaskList-turn (task_get_next t) ring.listed;
        current = rw (eq→== (t.store t.current_task).next 0 next') ring.listed.head;
      },
    )
ring-turn {t} x [] (b ∷ bs) ring =
    let (next, linked) = Linked-at t.store 0 (b ∷ bs) x [] ring.listed.linked in
    let next' : (t.store t.current_task).next ≡ 0 = rw ring.current next in
    (
      b,
      bs ++ x ∷ [],
      [],
      sym (append-nil (b ∷ bs ++ x ∷ [])),
      record {
        listed = IsTaskList-turn (task_get_next t) ring.listed;
        current = rw (eq→== (t.store t.current_task).next 0 next') ring.listed.head;
      },
    )

-- task_get_next moves the current task to the end of the order.
pub next_turn-IsTurnOrder :
    {t : Tasks} (x : ℕ) (order : List ℕ)
    → IsTurnOrder t (x ∷ order)
    → IsTurnOrder (next_turn t) (order ++ x ∷ [])
next_turn-IsTurnOrder {t} x order (y, rest, back, e, ring) =
    let same : x ≡ y = cc in
    let tail : order ≡ rest ++ back = cc in rw (same, tail) (ring-turn y rest back ring)

-- the state after as many turns
pub turns : ℕ → Tasks → Tasks
turns zero t = t
turns (suc n) t = turns n (next_turn t)

-- When the tasks `us` have had their turns, the order goes on with `vs`.
turns-IsTurnOrder :
    (us vs : List ℕ) {t : Tasks}
    → IsTurnOrder t (us ++ vs)
    → IsTurnOrder (turns (length us) t) (vs ++ us)
unfolding turns
turns-IsTurnOrder [] vs o = rw (append-nil vs) o
turns-IsTurnOrder (u ∷ us) vs o =
    let later =
      turns-IsTurnOrder us (vs ++ u ∷ [])
        (rw append_assoc at (next_turn-IsTurnOrder u (us ++ vs) o)) in
    rw append_assoc at later

-- the task whose turn it is
pub IsTurnOrder-current :
    {t : Tasks} (x : ℕ) (order : List ℕ) → IsTurnOrder t (x ∷ order) → t.current_task ≡ x
IsTurnOrder-current x order (y, rest, back, e, ring) =
    let same : x ≡ y = cc in ring.current ∙ sym same

Linked-at-nonzero :
    (s : ℕ → Task) (before : ℕ) (back : List ℕ) (x : ℕ) (rest : List ℕ)
    → Linked s before (back ++ x ∷ rest)
    → x ≢ 0
Linked-at-nonzero s before [] x rest l = l.0
Linked-at-nonzero s before (b ∷ back) x rest l = Linked-at-nonzero s b back x rest l.4

pub IsTurnOrder-nonzero : {t : Tasks} (x : ℕ) (order : List ℕ) → IsTurnOrder t (x ∷ order) → x ≢ 0
IsTurnOrder-nonzero {t} x order (y, rest, back, e, ring) =
    let same : x ≡ y = cc in rw same (Linked-at-nonzero t.store 0 back y rest ring.listed.linked)

-- Every task of the order gets its turn, after as many turns as tasks stand before it.
pub turns-current :
    (us : List ℕ) (v : ℕ) (vs : List ℕ) {t : Tasks}
    → IsTurnOrder t (us ++ v ∷ vs)
    → (turns (length us) t).current_task ≡ v
turns-current us v vs o = IsTurnOrder-current v (vs ++ us) (turns-IsTurnOrder us (v ∷ vs) o)

-- After one turn for each task the order is what it was.
pub full_round :
    (order : List ℕ) {t : Tasks} → IsTurnOrder t order → IsTurnOrder (turns (length order) t) order
full_round order o = turns-IsTurnOrder order [] (rw append-nil o)
