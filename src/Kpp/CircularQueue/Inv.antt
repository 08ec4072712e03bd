-- ===== src/Kpp/CircularQueue/Inv.antt =====
-- The representation invariant of a circular queue, and that its methods keep it.
use dav_os.Base.{ℕ, ◌+◌, ◌%◌, ◌≤◌, ◌<◌, ◌≡◌, length, length-set, length-replicate, arith}
use dav_os.Base.Modular.{next_back, next_front}
use dav_os.Kpp.CircularQueue.{CircularQueue, init, enqueue, dequeue}

pub record IsValid {ℓ} {A : Type ℓ} (capacity : ℕ) (q : CircularQueue A) : Type ℓ where
  pub holds : length q.cells ≡ capacity
  pub front_in : q.front < capacity
  pub size_in : q.size ≤ capacity
  pub back_at : q.back ≡ (q.front + q.size) % capacity

module _ {ℓ} {A : Type ℓ} (capacity : ℕ) where
  pub init-IsValid : (default : A) → 0 < capacity → IsValid capacity (init capacity default)
  unfolding init
  init-IsValid default pos = record {
    holds = length-replicate capacity default;
    front_in = pos;
    size_in = omega arith;
    back_at = omega arith;
  }

  -- The methods keep the invariant.
  pub enqueue-IsValid :
      (x : A) {q : CircularQueue A} → IsValid capacity q → IsValid capacity (enqueue capacity x q)
  unfolding enqueue
  enqueue-IsValid x {q} v =
      ground (arith, length-set q.cells q.back x, next_back q.front q.size capacity)

  pub dequeue-IsValid :
      (default : A) {q : CircularQueue A}
      → IsValid capacity q
      → IsValid capacity (dequeue capacity default q).1
  unfolding dequeue
  dequeue-IsValid default {q} v = ground (arith, next_front q.front q.size capacity)
