-- ===== src/Idt/Descriptors.antt =====
-- Which handler each interrupt has after idt_init.
use native.Mathlib.Decide.{ℕ_discrete}
use simple_microkernel.Base.{
  ℕ, zero, suc, ◌+◌, ◌*◌, ◌/◌, ◌^◌, ◌≤◌, ◌<◌, ◌≡◌, refl, ◌∙◌, ap, ◌==◌, if◌then◌else◌, eq→==, ne→==,
  update_lem, if-push, array_loop, bit_and, bit_and_65535, arith,
}
use simple_microkernel.Idt.{IdtDesc, Handlers, zero_desc, idt_set, idt_init}

-- the handler's address, as the processor puts it together
abbrev pub offset : IdtDesc → ℕ
offset d = d.offset_1 + d.offset_2 * 2 ^ 16

-- A gate to `address` in the kernel's code segment that user programs may call.
pub record IsGate (handler : ℕ) (d : IdtDesc) : Type 0 where
  pub address : offset d ≡ handler
  pub selector : d.selector ≡ 8
  pub zero_byte : d.zero_byte ≡ 0
  pub type_attr : d.type_attr ≡ 0xee

abbrev pub handler_of : Handlers → ℕ → ℕ
handler_of h i =
    if i == 0x20
    then h.isr_0x20_wrapper
    else (if i == 0x80 then h.isr80h_wrapper else (if i == 0 then h.idt_zero else h.no_interrupt))

-- the descriptor that idt_set writes
abbrev gate : ℕ → IdtDesc
gate address = record {
  offset_1 = bit_and address 0xffff;
  selector = 8;
  zero_byte = 0;
  type_attr = 0xee;
  offset_2 = address / 2 ^ 16;
}

gate-IsGate : (address : ℕ) → IsGate address (gate address)
gate-IsGate a = record {
  address = omega (arith, bit_and_65535 a);
  selector = refl;
  zero_byte = refl;
  type_attr = refl;
}

idt_set_lem : (d : ℕ → IdtDesc) (i a j : ℕ) → idt_set d i a j ≡ (if j == i then gate a else d j)
unfolding idt_set
idt_set_lem d i a j = update_lem d i (gate a) j

module _ (a : ℕ) where
  abbrev fill : ℕ → (ℕ → IdtDesc) → ℕ → IdtDesc
  fill i d = idt_set d i a

  fill_before : (d : ℕ → IdtDesc) (i n j : ℕ) → j < i → array_loop fill i n d j ≡ d j
  unfolding array_loop
  fill_before d i zero j h = refl
  fill_before d i (suc n) j h =
      fill_before (fill i d) (suc i) n j (omega arith)
      ∙ idt_set_lem d i a j
      ∙ rw (ne→== j i (omega arith)) refl

  fill_all : (d : ℕ → IdtDesc) (i n j : ℕ) → i ≤ j → j < i + n → array_loop fill i n d j ≡ gate a
  unfolding array_loop
  fill_all d i zero j l u = absurd (omega arith)
  fill_all d i (suc n) j l u = elim (ℕ_discrete j i) [
    | yes same ↦
        fill_before (fill i d) (suc i) n j (omega arith)
        ∙ idt_set_lem d i a j
        ∙ rw (eq→== j i same) refl
    | no other ↦ fill_all (fill i d) (suc i) n j (omega arith) (omega arith)
  ]

idt_init-gate : (h : Handlers) (i : ℕ) → i < 512 → idt_init h i ≡ gate (handler_of h i)
unfolding idt_init
idt_init-gate h i l =
    let filled = array_loop (fill h.no_interrupt) 0 512 (λ j. zero_desc) in
    let f : filled i ≡ gate h.no_interrupt =
      fill_all h.no_interrupt (λ j. zero_desc) 0 512 i (omega arith) (omega arith) in
    let d1 = idt_set filled 0 h.idt_zero in
    let d2 = idt_set d1 0x80 h.isr80h_wrapper in
    idt_set_lem d2 0x20 h.isr_0x20_wrapper i
    ∙ ap (λ g. if i == 0x20 then gate h.isr_0x20_wrapper else g)
        (idt_set_lem d1 0x80 h.isr80h_wrapper i
          ∙ ap (λ g. if i == 0x80 then gate h.isr80h_wrapper else g)
              (idt_set_lem filled 0 h.idt_zero i
                ∙ ap (λ g. if i == 0 then gate h.idt_zero else g) f
                ∙ if-push gate (i == 0) h.idt_zero h.no_interrupt)
          ∙ if-push gate (i == 0x80) h.isr80h_wrapper
              (if i == 0 then h.idt_zero else h.no_interrupt))
    ∙ if-push gate (i == 0x20) h.isr_0x20_wrapper
        (if i == 0x80 then h.isr80h_wrapper else (if i == 0 then h.idt_zero else h.no_interrupt))

-- After idt_init every one of the 512 descriptors is a gate: the division error, the timer and
-- interrupt 0x80 have handlers of their own, and all others have no_interrupt.
pub idt_init-IsGate : (h : Handlers) (i : ℕ) → i < 512 → IsGate (handler_of h i) (idt_init h i)
idt_init-IsGate h i l = rw (idt_init-gate h i l) (gate-IsGate (handler_of h i))
