-- ===== src/Base/Modular.antt =====
-- Indices that go round at a modulus.
use Prim.Native.Nat.{ℕ, ◌+◌, ◌-◌, ◌%◌, ◌<◌}
use mathlib.Core.Path.{◌≡◌, ap, ◌∙◌}
use mathlib.Core.Logic.{◌≢◌}
use native.Mathlib.Nat.{mod-add-mod, mod-eq_of_lt, mod-eq-sub-mod, mod-lt}
use native.Mathlib.Decide.{dec_lt}
use native.Mathlib.Omega.{arith}

reduced_ne : (r k m : ℕ) → r < m → 0 < k → k < m → (r + k) % m ≢ r
reduced_ne r k m hr pos hk = elim (dec_lt (r + k) m) [
  | yes p ↦ omega (arith, mod-eq_of_lt p)
  | no p ↦ omega (
    arith,
    mod-eq-sub-mod {n = r + k} {m = m} (omega arith),
    mod-eq_of_lt {n = r + k - m} {m = m} (omega arith),
  )
]

-- Fewer than `m` steps round the modulus never come back.
pub mod-add-ne : (a k m : ℕ) → 0 < k → k < m → (a + k) % m ≢ a % m
mod-add-ne a k m pos hk e =
    reduced_ne (a % m) k m (mod-lt a (omega arith)) pos hk (mod-add-mod a m k ∙ e)

-- A reduced index goes on from where it was reduced.
pub mod-add-shift : (a b c m : ℕ) → (a + b) % m ≡ c % m → (a % m + b) % m ≡ c % m
mod-add-shift a b c m e = mod-add-mod a m b ∙ e

pub next_back : (f s m : ℕ) → ((f + s) % m + 1) % m ≡ (f + (s + 1)) % m
next_back f s m = mod-add-shift (f + s) 1 (f + (s + 1)) m (ap (λ k. k % m) (omega arith))

pub next_front : (f s m : ℕ) → 0 < s → ((f + 1) % m + (s - 1)) % m ≡ (f + s) % m
next_front f s m pos = mod-add-shift (f + 1) (s - 1) (f + s) m (ap (λ k. k % m) (omega arith))
