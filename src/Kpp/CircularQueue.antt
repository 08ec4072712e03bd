-- ===== src/Kpp/CircularQueue.antt =====
-- `kpp::CircularQueue<T, capacity>` of kernel/lib/kpp/include/kpp/CircularQueue.hpp. `m_data` is the
-- list `cells`; `T()` is the parameter `default`. A method that changes the queue returns the new one.
-- The sums `m_back + 1` and `m_front + 1` stay below `capacity + 1`, and `++m_size` below the same
-- bound, so no `size_t` wraps.
pub mod Inv
pub mod Refine
use dav_os.Base.{
  ℕ, suc, ◌+◌, ◌-◌, ◌%◌, Bool, List, [], ◌∷◌, ◌++◌, ◌==◌, if◌then◌else◌, get_or, set, replicate,
  length,
}

pub record CircularQueue {ℓ} (A : Type ℓ) : Type ℓ where
  pub cells : List A
  pub front : ℕ
  pub back : ℕ
  pub size : ℕ

module _ {ℓ} {A : Type ℓ} (capacity : ℕ) (default : A) where
  unfoldable pub init : CircularQueue A
  init = record { cells = replicate capacity default; front = 0; back = 0; size = 0 }

  -- On an empty queue `T()` is returned and nothing changes.
  unfoldable pub dequeue : CircularQueue A → A × CircularQueue A
  dequeue q = if q.size == 0 then (default, q) else (
    get_or q.cells q.front default,
    record q { front = (q.front + 1) % capacity; size = q.size - 1 },
  )

module _ {ℓ} {A : Type ℓ} where
  unfoldable pub is_empty : CircularQueue A → Bool
  is_empty q = q.size == 0

  unfoldable pub is_full : ℕ → CircularQueue A → Bool
  is_full capacity q = q.size == capacity

  -- A full queue drops the new item.
  unfoldable pub enqueue : ℕ → A → CircularQueue A → CircularQueue A
  enqueue capacity item q = if q.size == capacity then q else record q {
    cells = set q.cells q.back item;
    back = (q.back + 1) % capacity;
    size = q.size + 1;
  }
