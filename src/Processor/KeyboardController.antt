-- ===== src/Processor/KeyboardController.antt =====
-- `processor::initKeyboardController`.
use dav_os.Base.{
  ℕ, zero, suc, ◌+◌, ◌*◌, ◌/◌, ◌%◌, ◌^◌, ◌<◌, ◌≡◌, refl, ◌∙◌, ap, Bool, false, ◌∷◌, ◌==◌, arith,
  bit_and, bit_or,
}
use dav_os.Base.Words.{u8, bit_and_split, bit_and_mask, bit_or_split, bit_or-zero}
use dav_os.Base.Run.{ok}
use dav_os.Processor.{
  Trace, Machine, port_in, poll, inb, outb, io_wait, outb_wait, new_command, input_clear,
  output_full, init_keyboard_controller,
}
use dav_os.Processor.Polling.{commands, Eventually, status_reads, commands-status_reads, poll-ends}

-- Bit 0 set, bit 4 clear, the others of the byte as they are.
abbrev pub enabled : ℕ → ℕ
enabled c = c / 2 ^ 5 * 2 ^ 5 + c / 2 % 2 ^ 3 * 2 + 1

low_bit : (b : ℕ) → b < 2 → bit_or b 1 ≡ 1
low_bit zero h = refl
low_bit (suc zero) h = refl
low_bit (suc (suc b)) h = absurd (omega arith)

set_bit_0 : (c : ℕ) → bit_or c 1 ≡ c / 2 * 2 + 1
set_bit_0 c =
    let low : bit_or (c % 2) 1 ≡ 1 = low_bit (c % 2) (omega arith) in
    bit_or_split 1 c 1 ∙ rw (bit_or-zero (c / 2), low) refl

clear_bit_4 : (x : ℕ) → x < 2 ^ 8 → bit_and x 0xffff_ffef ≡ x / 2 ^ 5 * 2 ^ 5 + x % 2 ^ 4
clear_bit_4 x h =
    bit_and_split 5 x 0xffff_ffef
    ∙ omega (arith, bit_and_mask 27 (x / 2 ^ 5), bit_and_mask 4 (x % 2 ^ 5))

new_command-enabled : (c : ℕ) → c < 2 ^ 8 → new_command c ≡ enabled c
unfolding new_command
new_command-enabled c h = rw (set_bit_0 c, clear_bit_4 (c / 2 * 2 + 1) (omega arith)) (omega arith)

module _ (d : Machine) where
  commands-outb_wait :
      (port value : ℕ) (t : Trace)
      → (port == 0x80) ≡ false
      → commands (outb_wait port value t) ≡ (port, value) ∷ commands t
  unfolding outb_wait outb io_wait
  commands-outb_wait port value t h = rw h refl

  -- One wait.
  waited :
      (fuel : ℕ) (stop : ℕ → Bool) (t : Trace)
      → Eventually d fuel stop
      → (t' : Trace) × (poll d stop fuel t ≡ ok t') × (commands t' ≡ commands t)
  waited fuel stop t e =
      let r = poll-ends d stop fuel (e t).0 t (e t).1 (e t).2 in
      (status_reads d (suc r.0) t, r.1, commands-status_reads d (suc r.0) t)

  -- If, wherever the program stands, one of the next reads of the status, as many as there is
  -- fuel, shows a clear input buffer, and one a full output buffer, the initialisation of the
  -- keyboard controller returns. It has then sent the commands 0xAE and 0x20, read the command
  -- byte after both, and sent 0x60 and the byte read with bit 0 set, bit 4 clear and the other
  -- bits as they were.
  pub init_keyboard_controller-enabled :
      (fuel : ℕ) (t : Trace)
      → Eventually d fuel input_clear
      → Eventually d fuel output_full
      → (asked t' : Trace) × (init_keyboard_controller d fuel t ≡ ok t')
        × (commands asked ≡ (0x64, 0x20) ∷ (0x64, 0xae) ∷ commands t)
        × (commands t' ≡ (0x60, enabled (u8 (d.port asked 0x60))) ∷ (0x64, 0x60) ∷ commands asked)
  unfolding init_keyboard_controller inb
  init_keyboard_controller-enabled fuel t clear full =
      let w1 = waited fuel input_clear t clear in
      let w2 = waited fuel input_clear (outb_wait 0x64 0xae w1.0) clear in
      let w3 = waited fuel output_full (outb_wait 0x64 0x20 w2.0) full in
      let c = u8 (d.port w3.0 0x60) in
      let w5 = waited fuel input_clear (port_in 0x60 c ∷ w3.0) clear in
      let w6 = waited fuel input_clear (outb_wait 0x64 0x60 w5.0) clear in
      (
        w3.0,
        outb_wait 0x60 (new_command c) w6.0,
        rw (w1.1, w2.1, w3.1, w5.1, w6.1) refl,
        w3.2
            ∙ (commands-outb_wait 0x64 0x20 w2.0 refl
                ∙ ap (λ l. (0x64, 0x20) ∷ l)
                    (w2.2
                      ∙ (commands-outb_wait 0x64 0xae w1.0 refl
                          ∙ ap (λ l. (0x64, 0xae) ∷ l) w1.2))),
        commands-outb_wait 0x60 (new_command c) w6.0 refl
            ∙ rw (new_command-enabled c (omega arith)) (
                ap (λ l. (0x60, enabled c) ∷ l)
                  (w6.2
                    ∙ (commands-outb_wait 0x64 0x60 w5.0 refl ∙ ap (λ l. (0x64, 0x60) ∷ l) w5.2))),
      )
