-- ===== src/Isr80h/Tests.antt =====
-- The theorem of the system calls at concrete addresses.
use simple_microkernel.Base.{ℕ, ◌≡◌, ◌==◌, if◌then◌else◌, some, ℤ, pos_part, arith}
use simple_microkernel.Task.{InterruptFrame, System}
use simple_microkernel.Idt.{out_of_bounds, isr80h_handle_command}
use simple_microkernel.Idt.Commands.{Runner}
use simple_microkernel.Isr80h.{isr80h_register_commands}
use simple_microkernel.Isr80h.Commands.{isr80h_register_commands_lem}

isr80h_register_commands_lem_example :
    (t : ℕ → ℕ) × (isr80h_register_commands (λ i. 0) 0x1000 0x2000 ≡ some t)
    × ((run : Runner) (command : ℤ) (frame : InterruptFrame) (s : System)
        → isr80h_handle_command run t command frame s ≡ (
            if out_of_bounds command
            then some (0, s)
            else (if pos_part command == 4
                then run 0x2000 frame s
                else (if pos_part command == 0 then run 0x1000 frame s else some (0, s)))))
isr80h_register_commands_lem_example =
    isr80h_register_commands_lem 0x1000 0x2000 (λ e. absurd (omega arith))
      (λ e. absurd (omega arith))
