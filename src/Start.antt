-- ===== src/Start.antt =====
-- The end of `kernel_init`, kernel/src/kernel.cpp: the keyboard's interrupt, from the IO APIC through the
-- interrupt table to its routine.
pub mod Memory
pub mod Init
use dav_os.Base.{ℕ, ◌/◌, ◌%◌, ◌^◌, ◌≤◌, ◌<◌, ◌≡◌, ap, ◌∙◌, List, some, arith}
use dav_os.Descriptors.IdtInit.{Isr, keyboard, idt_init, idt_init-Serves}
use dav_os.Descriptors.Idt.{gate_address}
use dav_os.Apic.{IoApic, Devices, redirect_irq}
use dav_os.Apic.Redirect.{handler, entry_register, low_spec, redirect_irq-redirected}

-- `apicManager.redirectIrq(1, 0x30)`
pub redirect_keyboard : List IoApic → Devices → Devices
redirect_keyboard ios dev = redirect_irq 1 0x30 ios dev

-- The low word of the keyboard's entry after the start.
abbrev pub keyboard_entry : List IoApic → IoApic → Devices → ℕ
keyboard_entry ios io dev = (redirect_keyboard ios dev).registers io.address (entry_register 1 io)

low_fields : (low w : ℕ) → w ≡ low_spec low 0x30 → (w / 2 ^ 16 % 2 ≡ 0) × (w % 2 ^ 8 ≡ 0x30)
low_fields low w e = omega arith

-- When the first IO APIC that handles interrupt 1 has at most 120 entries, its id fits into a
-- byte, registers hold 32 bits and the routines' addresses are below 2 ^ 64, the keyboard's
-- interrupt, redirected as at the end of kernel_init, is not masked, and the gate that idt_init
-- made for the vector in its entry leads to the keyboard's routine.
pub redirect_keyboard-idt_init :
    (address : Isr → ℕ) (bytes : ℕ → ℕ) (ios : List IoApic) (io : IoApic) (dev : Devices)
    → ((i : Isr) → address i < 2 ^ 64)
    → handler 1 ios ≡ some io
    → io.num_redirection_entries ≤ 120
    → io.id < 2 ^ 8
    → ((x m : ℕ) → dev.registers x m < 2 ^ 32)
    → (keyboard_entry ios io dev / 2 ^ 16 % 2 ≡ 0)
      × (gate_address (idt_init address bytes) (keyboard_entry ios io dev % 2 ^ 8)
          ≡ address keyboard)
unfolding redirect_keyboard
redirect_keyboard-idt_init address bytes ios io dev small e entries id words =
    let r =
      redirect_irq-redirected 1 0x30 ios io dev io.address (entry_register 1 io) e entries
        (omega arith) (omega arith) id words in
    let f =
      low_fields (dev.registers io.address (entry_register 1 io)) (keyboard_entry ios io dev)
        (r ∙ ground arith) in
    (
      f.0,
      ap (λ (v : ℕ). gate_address (idt_init address bytes) v) f.1
          ∙ (idt_init-Serves address keyboard 32 bytes small
              (omega arith, omega arith, omega arith)).0.0,
    )
