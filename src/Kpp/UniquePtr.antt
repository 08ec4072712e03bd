-- ===== src/Kpp/UniquePtr.antt =====
-- `kpp::UniquePtr` of kernel/lib/kpp/include/kpp/UniquePtr.hpp. The pointers of a program are slots by
-- address, 0 the null pointer, and `destroyed` counts the destructor calls of each resource. A slot
-- whose pointer object has ended is null.
use dav_os.Base.{ℕ, ◌+◌, ◌≤◌, ◌≡◌, ◌≢◌, ◌==◌, if◌then◌else◌, arith}

pub record Pointers : Type 0 where
  pub resource : ℕ → ℕ
  pub destroyed : ℕ → ℕ

abbrev pub set_resource : ℕ → ℕ → Pointers → Pointers
set_resource x r p = record p { resource = λ y. if y == x then r else p.resource y }

-- `if (m_resource) m_resource->~Resource();`
unfoldable pub destroy : ℕ → Pointers → Pointers
destroy x p = if p.resource x == 0 then p else record p {
  destroyed = λ r. if r == p.resource x then p.destroyed r + 1 else p.destroyed r;
}

unfoldable pub release : ℕ → Pointers → ℕ × Pointers
release x p = (p.resource x, set_resource x 0 p)

-- The resource is the address that `new` returned.
unfoldable pub make_unique : ℕ → ℕ → Pointers → Pointers
make_unique x r p = set_resource x r p

unfoldable pub move_construct : ℕ → ℕ → Pointers → Pointers
unfolding release
move_construct x source p = let (r, p') = release source p in set_resource x r p'

unfoldable pub move_assign : ℕ → ℕ → Pointers → Pointers
unfolding destroy release
move_assign x source p = let (r, p') = release source (destroy x p) in set_resource x r p'

-- The destructor, and the end of the object.
unfoldable pub delete_pointer : ℕ → Pointers → Pointers
unfolding destroy
delete_pointer x p = set_resource x 0 (destroy x p)

-- A resource has one owner and is alive, or has none; and none is destroyed twice.
pub record IsUnique (p : Pointers) : Type 0 where
  pub one_owner : (x y : ℕ) → p.resource x ≢ 0 → p.resource x ≡ p.resource y → x ≡ y
  pub alive : (x : ℕ) → p.resource x ≢ 0 → p.destroyed (p.resource x) ≡ 0
  pub once : (r : ℕ) → p.destroyed r ≤ 1

-- A new resource that was never destroyed and has no owner may be given to an empty pointer.
pub make_unique-IsUnique :
    (x r : ℕ) (p : Pointers)
    → IsUnique p
    → p.destroyed r ≡ 0
    → ((y : ℕ) → p.resource y ≢ r)
    → IsUnique (make_unique x r p)
unfolding make_unique
make_unique-IsUnique x r p u fresh unowned = record {
  one_owner = λ y z h e. ground (arith, u.one_owner y z, unowned y, unowned z);
  alive = λ y h. ground (arith, u.alive y, fresh);
  once = u.once;
}

pub delete_pointer-IsUnique : (x : ℕ) (p : Pointers) → IsUnique p → IsUnique (delete_pointer x p)
unfolding delete_pointer destroy
delete_pointer-IsUnique x p u = record {
  one_owner = λ y z h e. ground (arith, u.one_owner y z, u.one_owner y x, u.one_owner z x);
  alive = λ y h. ground (arith, u.alive y, u.one_owner y x, u.one_owner x y);
  once = λ r. ground (arith, u.once r, u.alive x);
}

pub move_assign-IsUnique :
    (x source : ℕ) (p : Pointers) → x ≢ source → IsUnique p → IsUnique (move_assign x source p)
unfolding move_assign destroy release
move_assign-IsUnique x source p apart u = record {
  one_owner = λ y z h e.
      ground
        (arith, u.one_owner y z, u.one_owner y source, u.one_owner source z, u.one_owner z source);
  alive = λ y h.
      ground
        (arith, u.alive y, u.alive source, u.one_owner y x, u.one_owner source x, u.one_owner x y);
  once = λ r. ground (arith, u.once r, u.alive x);
}

-- A new pointer that takes over another's resource.
pub move_construct-IsUnique :
    (x source : ℕ) (p : Pointers)
    → x ≢ source
    → p.resource x ≡ 0
    → IsUnique p
    → IsUnique (move_construct x source p)
unfolding move_construct release
move_construct-IsUnique x source p apart new u = record {
  one_owner =
      λ y z h e. ground (arith, u.one_owner y z, u.one_owner y source, u.one_owner source z);
  alive = λ y h. ground (arith, u.alive y, u.alive source);
  once = u.once;
}

-- A pointer that is assigned to itself destroys its resource and keeps it, and its destructor then
-- destroys the resource a second time.
pub move_assign_self :
    (x : ℕ) (p : Pointers)
    → IsUnique p
    → p.resource x ≢ 0
    → (delete_pointer x (move_assign x x p)).destroyed (p.resource x) ≡ 2
unfolding move_assign destroy release delete_pointer
move_assign_self x p u owns = ground (arith, u.alive x)
