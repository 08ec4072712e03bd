-- ===== src/Kpp/Optional.antt =====
-- `kpp::Optional<T>` of kernel/lib/kpp/include/kpp/optional.hpp. The optionals of a program are slots by
-- address, so that an argument may be the object itself. A slot holds the buffer's object, if one is
-- alive, the flag, and how often a constructor and a destructor of `T` have run on the buffer. Reading
-- an object that is not alive has no result (`none`).
use mathlib.Core.Option
use dav_os.Base.{
  ℕ, ◌+◌, ◌≡◌, ◌≢◌, refl, Bool, true, false, ◌==◌, if◌then◌else◌, Option, none, some, arith,
  Bool-cases, inl, inr,
}

pub record Slot (A : Type 0) : Type 0 where
  pub content : Option A
  pub is_present : Bool
  pub constructed : ℕ
  pub destroyed : ℕ

abbrev pub Slots : Type 0 → Type 0
Slots A = ℕ → Slot A

module _ {A : Type 0} where
  abbrev pub update : ℕ → Slot A → Slots A → Slots A
  update x slot s y = if y == x then slot else s y

  unfoldable pub empty_slot : Slot A
  empty_slot = record { content = none; is_present = false; constructed = 0; destroyed = 0 }

  -- `interpret_val()->~T(); is_present = false;`
  unfoldable pub reset : Slot A → Slot A
  reset o =
      if o.is_present
      then record o { content = none; is_present = false; destroyed = o.destroyed + 1 }
      else o

  -- `new (buffer.data()) T(value); is_present = true;`
  abbrev pub construct : A → Slot A → Slot A
  construct v o = record o { content = some v; is_present = true; constructed = o.constructed + 1 }

  unfoldable pub emplace : A → Slot A → Slot A
  unfolding reset
  emplace v o = construct v (if o.is_present then reset o else o)

  unfoldable pub assign_nullopt : Slot A → Slot A
  unfolding reset
  assign_nullopt o = reset o

  unfoldable pub assign_value : A → Slot A → Slot A
  unfolding reset emplace
  assign_value v o = emplace v (if o.is_present then reset o else o)

  unfoldable pub value : Slot A → Option A
  value o = o.content

  unfoldable pub has_value : Slot A → Bool
  has_value o = o.is_present

  -- The constructor reads the object that its argument refers to.
  abbrev pub construct_from : ℕ → Option A → Slots A → Option (Slots A)
  construct_from x none s = none
  construct_from x (some v) s = some (update x (construct v (s x)) s)

  -- `emplace(*other)`: the argument is a reference, and the reset comes first.
  unfoldable pub emplace_from : ℕ → ℕ → Slots A → Option (Slots A)
  unfolding reset
  emplace_from x other s =
      let s' = update x (if (s x).is_present then reset (s x) else s x) s in
      construct_from x (s' other).content s'

  pub assign_copy : ℕ → ℕ → Slots A → Option (Slots A)
  unfolding reset emplace_from
  assign_copy x other s =
      if (s other).is_present then emplace_from x other s else some (update x (reset (s x)) s)

  -- What a move constructor leaves of its source is `moved`, a function of `T`.
  abbrev pub leave_moved : (A → A) → ℕ → Option (Slots A) → Option (Slots A)
  leave_moved moved other none = none
  leave_moved moved other (some s) =
      some (update other (record (s other) { content = Option.map moved (s other).content }) s)

  unfoldable pub assign_move : (A → A) → ℕ → ℕ → Slots A → Option (Slots A)
  unfolding reset emplace_from
  assign_move moved x other s =
      if (s other).is_present
      then leave_moved moved other (emplace_from x other s)
      else some (update x (reset (s x)) s)

  abbrev pub is_some : Option A → Bool
  is_some none = false
  is_some (some v) = true

  -- The flag tells whether an object is alive, and every object that was made and is not alive any
  -- more has been destroyed.
  pub record IsValid (o : Slot A) : Type 0 where
    pub flag : o.is_present ≡ is_some o.content
    pub lifetimes : o.constructed ≡ o.destroyed + (if o.is_present then 1 else 0)

  pub reset-IsValid : (o : Slot A) → IsValid o → IsValid (reset o)
  unfolding reset
  reset-IsValid o v = ground arith

  pub emplace-IsValid : (a : A) (o : Slot A) → IsValid o → IsValid (emplace a o)
  unfolding emplace reset
  emplace-IsValid a o v = ground arith

  pub assign_value-IsValid : (a : A) (o : Slot A) → IsValid o → IsValid (assign_value a o)
  unfolding assign_value emplace reset
  assign_value-IsValid a o v = ground arith

  -- What a copy leaves.
  abbrev pub Copied : ℕ → ℕ → Slots A → Slots A → Type 0
  Copied x other s s' =
      ((s' x).content ≡ (s other).content) × IsValid (s' x) × ((y : ℕ) → y ≢ x → s' y ≡ s y)

  -- Reading the source after a reset of another slot.
  construct_from-Copied :
      (x other : ℕ) (s : Slots A) (c : Option A)
      → x ≢ other
      → IsValid (s x)
      → c ≡ (s other).content
      → is_some c ≡ true
      → (let s1 = update x (if (s x).is_present then reset (s x) else s x) s in
          (s' : Slots A) × (construct_from x c s1 ≡ some s') × Copied x other s s')
  unfolding reset
  construct_from-Copied x other s none apart v e present = cc
  construct_from-Copied x other s (some a) apart v e present =
      let s1 : Slots A = update x (if (s x).is_present then reset (s x) else s x) s in
      (
        update x (construct a (s1 x)) s1,
        refl,
        (ground (arith, e), ground (arith, v), λ y h. ground (arith, h)),
      )

  -- For two different optionals whose flags tell whether their objects are alive, and whose
  -- destroyed and alive objects are all that were constructed, copy assignment gives the first the
  -- value of the second, or none, keeps this of it, and changes no other optional.
  pub assign_copy-Copied :
      (x other : ℕ) (s : Slots A)
      → x ≢ other
      → IsValid (s x)
      → IsValid (s other)
      → (s' : Slots A) × (assign_copy x other s ≡ some s') × Copied x other s s'
  unfolding assign_copy emplace_from reset
  assign_copy-Copied x other s apart v w = elim (Bool-cases (s other).is_present) [
    | inl here ↦
        let other_slot : ((other == x) ≡ false) = ground (arith, apart) in
        rw (here, other_slot)
          (construct_from-Copied x other s (s other).content apart v refl (ground (arith, w, here)))
    | inr gone ↦ rw gone (
      update x (reset (s x)) s,
      refl,
      (ground (arith, v, w, gone), ground (arith, v), λ y h. ground (arith, h)),
    )
  ]

  -- An optional with a value that is assigned to itself reads its value after destroying it.
  pub assign_copy_self : (x : ℕ) (s : Slots A) → has_value (s x) ≡ true → assign_copy x x s ≡ none
  unfolding assign_copy emplace_from reset has_value
  assign_copy_self x s here = ground (arith, here)
