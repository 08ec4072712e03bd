-- ===== src/Base/Run.antt =====
-- What a kernel routine does: return, stop in `kernel_panic` or `kernel_hang` (neither returns,
-- kernel/src/kernel.cpp), or run past the fuel that the model gives a loop.
use Prim.Native.Nat.{ℕ, zero, suc, ◌+◌, ◌≤◌, ◌<◌}
use mathlib.Core.Path.{◌≡◌, refl}
use native.Mathlib.Omega.{arith}

pub data Run {ℓ} (A : Type ℓ) : Type ℓ where
  ok : A → Run A
  panic hang out_of_fuel : Run A

infixl 5 ◌>>=◌ ◌>>◌
abbrev pub ◌>>=◌ {ℓ κ} : {A : Type ℓ} {B : Type κ} → Run A → (A → Run B) → Run B
ok a >>= f = f a
panic >>= f = panic
hang >>= f = hang
out_of_fuel >>= f = out_of_fuel

abbrev pub ◌>>◌ {ℓ κ} : {A : Type ℓ} {B : Type κ} → Run A → Run B → Run B
m >> k = m >>= λ _. k

-- `for (i = from; i < from + count; ++i) body`.
abbrev pub loop {ℓ} : {A : Type ℓ} → ℕ → ℕ → (ℕ → A → Run A) → A → Run A
loop zero from body s = ok s
loop (suc count) from body s = body from s >>= loop count (suc from) body

-- A loop whose body returns and keeps a property does the same.
pub loop-ok :
    {A : Type 0} (P : A → Type 0) (count from : ℕ) (body : ℕ → A → Run A)
    → ((i : ℕ) (s : A) → from ≤ i → i < from + count → P s → (r : A) × (body i s ≡ ok r) × P r)
    → (s : A) → P s
    → (r : A) × (loop count from body s ≡ ok r) × P r
loop-ok P zero from body keeps s p = (s, refl, p)
loop-ok P (suc count) from body keeps s p =
    let step = keeps from s (omega arith) (omega arith) p in
    let rest =
      loop-ok P count (suc from) body (λ i t lo hi q. keeps i t (omega arith) (omega arith) q)
        step.0 step.2 in
    (rest.0, rw step.1 rest.1, rest.2)

pub >>=-assoc {ℓ κ μ} :
    {A : Type ℓ} {B : Type κ} {C : Type μ} (m : Run A) (f : A → Run B) (g : B → Run C)
    → ((m >>= f) >>= g) ≡ (m >>= λ a. f a >>= g)
>>=-assoc (ok a) f g = refl
>>=-assoc panic f g = refl
>>=-assoc hang f g = refl
>>=-assoc out_of_fuel f g = refl
