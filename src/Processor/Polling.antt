-- ===== src/Processor/Polling.antt =====
-- Waiting for the keyboard controller's status.
use dav_os.Base.{
  ℕ, zero, suc, ◌<◌, ◌≡◌, refl, inl, inr, Bool, true, List, [], ◌∷◌, ◌==◌, if◌then◌else◌,
  Bool-cases, arith,
}
use dav_os.Base.Words.{u8}
use dav_os.Base.Run.{ok}
use dav_os.Processor.{
  port_in, port_out, msr_out, word_out, interrupts_on, Trace, Machine, poll, inb,
}

-- The bytes that the program sends, but for the waits at port 0x80.
abbrev pub commands : Trace → List (ℕ × ℕ)
commands [] = []
commands (port_out port value ∷ t) =
    if port == 0x80 then commands t else ((port, value) ∷ commands t)
commands (port_in port value ∷ t) = commands t
commands (msr_out msr low high ∷ t) = commands t
commands (word_out address value ∷ t) = commands t
commands (interrupts_on ∷ t) = commands t

module _ (d : Machine) where
  abbrev pub status : Trace → ℕ
  status t = u8 (d.port t 0x64)

  abbrev pub status_reads : ℕ → Trace → Trace
  status_reads zero t = t
  status_reads (suc k) t = status_reads k (port_in 0x64 (status t) ∷ t)

  -- Wherever the program stands, one of the next `n` reads of the status shows what it waits for.
  abbrev pub Eventually : ℕ → (ℕ → Bool) → Type 0
  Eventually n stop = (t : Trace) → (k : ℕ) × (k < n) × (stop (status (status_reads k t)) ≡ true)

  pub commands-status_reads : (k : ℕ) (t : Trace) → commands (status_reads k t) ≡ commands t
  commands-status_reads zero t = refl
  commands-status_reads (suc k) t = commands-status_reads k (port_in 0x64 (status t) ∷ t)

  pub poll-ends :
      (stop : ℕ → Bool) (fuel k : ℕ) (t : Trace)
      → k < fuel
      → stop (status (status_reads k t)) ≡ true
      → (j : ℕ) × (poll d stop fuel t ≡ ok (status_reads (suc j) t))
        × (stop (status (status_reads j t)) ≡ true)
  unfolding poll inb
  poll-ends stop zero k t h e = elim h [ ]
  poll-ends stop (suc fuel) zero t h e = (0, rw e refl, e)
  poll-ends stop (suc fuel) (suc k) t h e = elim (Bool-cases (stop (status t))) [
    | inl now ↦ (0, rw now refl, now)
    | inr later ↦
        let r = poll-ends stop fuel k (port_in 0x64 (status t) ∷ t) (omega arith) e in
        (suc r.0, rw later r.1, r.2)
  ]
