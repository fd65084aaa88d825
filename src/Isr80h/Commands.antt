-- ===== src/Isr80h/Commands.antt =====
-- The table of commands once the two system calls are registered.
use simple_microkernel.Base.{
  ℕ, ◌≡◌, ◌≢◌, ◌∙◌, refl, ◌==◌, if◌then◌else◌, some, update, Bool-cases, inl, inr, ℤ, pos_part,
}
use simple_microkernel.Task.{InterruptFrame, System}
use simple_microkernel.Idt.{out_of_bounds, isr80h_register_command, isr80h_handle_command}
use simple_microkernel.Idt.Commands.{Runner, registered}
use simple_microkernel.Isr80h.{isr80h_register_commands}

-- isr80h_register_commands of an empty table succeeds, and then the commands 0 and 4 run the two
-- functions; a number out of bounds and every other number do nothing.
pub isr80h_register_commands_lem :
    (sum sys_write : ℕ)
    → sum ≢ 0
    → sys_write ≢ 0
    → (t : ℕ → ℕ) × (isr80h_register_commands (λ i. 0) sum sys_write ≡ some t)
      × ((run : Runner) (command : ℤ) (frame : InterruptFrame) (s : System)
          → isr80h_handle_command run t command frame s ≡ (
              if out_of_bounds command
              then some (0, s)
              else (if pos_part command == 4
                  then run sys_write frame s
                  else (if pos_part command == 0 then run sum frame s else some (0, s)))))
unfolding isr80h_register_commands isr80h_register_command isr80h_handle_command update
isr80h_register_commands_lem sum sys_write a b =
    let first = update (λ (i : ℕ). 0) 0 sum in
    (
      update first 4 sys_write,
      refl,
      λ run command frame s.
          let r0 = registered (λ (i : ℕ). 0) 0 sum a run command frame s in
          registered first 4 sys_write b run command frame s
          ∙ elim (Bool-cases (out_of_bounds command)) [
            | inl out ↦ rw out refl
            | inr inside ↦ rw (r0, inside) refl
          ],
    )
