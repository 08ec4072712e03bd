-- ===== src/Kpp/Function.antt =====
-- `kpp::Function` of kernel/lib/kpp/include/kpp/functional.hpp: a UniquePtr to a `CallableImpl`. An object of any
-- callable type is a value of `Callable`, a parameter, and `call_object` its `operator()`, which may change
-- it. A `CallableImpl` made from an rvalue holds an object, and one made from an lvalue, `CallableImpl<T&>`,
-- refers to the caller's. `targets` has the `CallableImpl`s by address and `outer` the callers' objects; the
-- Functions are the pointers of Kpp.UniquePtr. An address that `new` returns is an argument. Copy
-- assignment does not compile and is left out.
use dav_os.Base.{
  ℕ, ◌≡◌, ◌≢◌, refl, sym, true, false, ◌==◌, if◌then◌else◌, inl, inr, Bool-cases, List, [], ◌∷◌,
  arith,
}
use dav_os.Base.Run.{Run, ok, panic, ◌>>=◌}
use dav_os.Kpp.UniquePtr.{Pointers, set_resource, make_unique, move_construct}

pub data Target (Callable : Type 0) : Type 0 where
  holds : Callable → Target Callable
  refers : ℕ → Target Callable

module _ (Callable Argument Result : Type 0)
    (call_object : Argument → Callable → Result × Callable) where
  pub record Functions : Type 0 where
    pub pointers : Pointers
    pub targets : ℕ → Target Callable
    pub outer : ℕ → Callable

  abbrev pub set_target : ℕ → Target Callable → Functions → Functions
  set_target a t s = record s { targets = λ b. if b == a then t else s.targets b }

  abbrev set_outer : ℕ → Callable → Functions → Functions
  set_outer a c s = record s { outer = λ b. if b == a then c else s.outer b }

  -- `Function(nullptr)`, and `Function()`.
  unfoldable pub construct_null : ℕ → Functions → Functions
  construct_null f s = record s { pointers = set_resource f 0 s.pointers }

  -- `makeUnique<CallableImpl>`, at the address that `new` returns.
  unfoldable pub make_callable : ℕ → ℕ → Target Callable → Functions → Functions
  make_callable f a t s = set_target a t (record s { pointers = make_unique f a s.pointers })

  -- From an rvalue, and from an lvalue.
  unfoldable pub construct : ℕ → ℕ → Target Callable → Functions → Functions
  unfolding make_callable
  construct f a t s = make_callable f a t s

  -- `clone`, or a null pointer where the source has none. A copy of a reference refers to the same object.
  unfoldable pub copy_construct : ℕ → ℕ → ℕ → Functions → Functions
  unfolding make_callable construct_null
  copy_construct f a source s =
      let p = s.pointers.resource source in
      if p == 0 then construct_null f s else make_callable f a (s.targets p) s

  unfoldable pub move_function : ℕ → ℕ → Functions → Functions
  move_function f source s = record s { pointers = move_construct f source s.pointers }

  -- `CallableImpl::call`, of the one at `p`.
  unfoldable pub call_target : ℕ → Argument → Target Callable → Functions → Result × Functions
  call_target p x (holds c) s = let (r, c') = call_object x c in (r, set_target p (holds c') s)
  call_target p x (refers a) s = let (r, c') = call_object x (s.outer a) in (r, set_outer a c' s)

  -- `m_callable->call(args...)`; a call through a null pointer is undefined, and `panic` here.
  unfoldable pub call : ℕ → Argument → Functions → Run (Result × Functions)
  unfolding call_target
  call f x s =
      let p = s.pointers.resource f in
      let r = call_target p x (s.targets p) s in if p == 0 then panic else ok r

  -- Calls of several Functions, one after the other.
  unfoldable pub call_all : List (ℕ × Argument) → Functions → Run (List Result)
  call_all [] s = ok []
  call_all ((f, x) ∷ calls) s = call f x s >>= λ (r, s'). call_all calls s' >>= λ rs. ok (r ∷ rs)

  -- The same calls of two values, `f` the first.
  unfoldable pub call_values : ℕ → List (ℕ × Argument) → Callable → Callable → List Result
  call_values f [] a b = []
  call_values f ((g, x) ∷ calls) a b =
      let (r, a') = call_object x a in
      let (t, b') = call_object x b in
      let first = call_values f calls a' b in
      let second = call_values f calls a b' in if g == f then r ∷ first else t ∷ second

  -- The same calls of one value.
  pub call_shared : List (ℕ × Argument) → Callable → List Result
  call_shared [] a = []
  call_shared ((g, x) ∷ calls) a = let (r, a') = call_object x a in r ∷ call_shared calls a'

  -- The calls of a Function and its copy: of two values, or of the one that both refer to.
  unfoldable pub call_copies :
      ℕ → List (ℕ × Argument) → (ℕ → Callable) → Target Callable → List Result
  call_copies f calls outer (holds c) = call_values f calls c c
  call_copies f calls outer (refers a) = call_shared calls (outer a)

  -- The calls are of `f` or of `g`.
  abbrev pub AreOf : ℕ → ℕ → List (ℕ × Argument) → Type 0
  AreOf f g [] = Unit {0}
  AreOf f g ((h, x) ∷ calls) = (h ≡ (if h == f then f else g)) × AreOf f g calls

  call_owned :
      (h p : ℕ) (x : Argument) (t : Target Callable) (s : Functions)
      → s.pointers.resource h ≡ p
      → p ≢ 0
      → s.targets p ≡ t
      → call h x s ≡ ok (call_target p x t s)
  unfolding call
  call_owned h p x t s own some_object target =
      let there : (p == 0) ≡ false = ground arith in rw (own, there, target) refl

  set_target_self : (a : ℕ) (t : Target Callable) (s : Functions) → (set_target a t s).targets a ≡ t
  set_target_self a t s = let same : (a == a) ≡ true = ground arith in rw same refl

  set_target_other :
      (a b : ℕ) (t u : Target Callable) (s : Functions)
      → b ≢ a
      → s.targets b ≡ u
      → (set_target a t s).targets b ≡ u
  set_target_other a b t u s apart e = let other : (b == a) ≡ false = ground arith in rw other e

  set_outer_self : (a : ℕ) (c : Callable) (s : Functions) → (set_outer a c s).outer a ≡ c
  set_outer_self a c s = let same : (a == a) ≡ true = ground arith in rw same refl

  calls_apart :
      (f g p q : ℕ) (a b : Callable) (calls : List (ℕ × Argument)) (s : Functions)
      → s.pointers.resource f ≡ p
      → s.pointers.resource g ≡ q
      → p ≢ 0
      → q ≢ 0
      → p ≢ q
      → s.targets p ≡ holds a
      → s.targets q ≡ holds b
      → AreOf f g calls
      → call_all calls s ≡ ok (call_values f calls a b)
  unfolding call_all call_values call_target
  calls_apart f g p q a b [] s own_f own_g some_p some_q differ at_p at_q of = refl
  calls_apart f g p q a b ((h, x) ∷ calls) s own_f own_g some_p some_q differ at_p at_q of =
      elim (Bool-cases (h == f)) [
        | inl first ↦
            let e : h ≡ f = ground arith in
            let own : s.pointers.resource h ≡ p = rw e own_f in
            let c = (call_object x a).1 in
            let ih =
              calls_apart f g p q c b calls (set_target p (holds c) s) own_f own_g some_p some_q
                differ (set_target_self p (holds c) s)
                (set_target_other p q (holds c) (holds b) s (λ z. differ (sym z)) at_q) of.1 in
            rw (call_owned h p x (holds a) s own some_p at_p, ◌>>=◌, ih, first) refl
        | inr second ↦
            let e : h ≡ g = rw second at of.0 in
            let own : s.pointers.resource h ≡ q = rw e own_g in
            let c = (call_object x b).1 in
            let ih =
              calls_apart f g p q a c calls (set_target q (holds c) s) own_f own_g some_p some_q
                differ (set_target_other q p (holds c) (holds a) s differ at_p)
                (set_target_self q (holds c) s) of.1 in
            rw (call_owned h q x (holds b) s own some_q at_q, ◌>>=◌, ih, second) refl
      ]

  calls_shared :
      (f g p q a : ℕ) (c : Callable) (calls : List (ℕ × Argument)) (s : Functions)
      → s.pointers.resource f ≡ p
      → s.pointers.resource g ≡ q
      → p ≢ 0
      → q ≢ 0
      → s.targets p ≡ refers a
      → s.targets q ≡ refers a
      → s.outer a ≡ c
      → AreOf f g calls
      → call_all calls s ≡ ok (call_shared calls c)
  unfolding call_all call_shared call_target
  calls_shared f g p q a c [] s own_f own_g some_p some_q at_p at_q outer of = refl
  calls_shared f g p q a c ((h, x) ∷ calls) s own_f own_g some_p some_q at_p at_q outer of =
      let c' = (call_object x c).1 in
      let ih =
        calls_shared f g p q a c' calls (set_outer a c' s) own_f own_g some_p some_q at_p at_q
          (set_outer_self a c' s) of.1 in
      elim (Bool-cases (h == f)) [
        | inl first ↦
            let e : h ≡ f = ground arith in
            let own : s.pointers.resource h ≡ p = rw e own_f in
            rw (call_owned h p x (refers a) s own some_p at_p, ◌>>=◌, outer, ih) refl
        | inr second ↦
            let e : h ≡ g = rw second at of.0 in
            let own : s.pointers.resource h ≡ q = rw e own_g in
            rw (call_owned h q x (refers a) s own some_q at_q, ◌>>=◌, outer, ih) refl
      ]

  -- When a Function that has a callable is copied to another one, with a new CallableImpl at an
  -- address that is not 0 and not the source's, any sequence of calls of the two gives the results
  -- of two separate copies of the callable if the source holds an object, made from an rvalue, and
  -- those of the one object that both refer to if it was made from an lvalue.
  pub copy_construct-call_copies :
      (f a source : ℕ) (calls : List (ℕ × Argument)) (s : Functions)
      → f ≢ source
      → s.pointers.resource source ≢ 0
      → a ≢ 0
      → a ≢ s.pointers.resource source
      → AreOf f source calls
      → call_all calls (copy_construct f a source s)
        ≡ ok (call_copies f calls s.outer (s.targets (s.pointers.resource source)))
  unfolding copy_construct make_callable make_unique call_copies
  copy_construct-call_copies f a source calls s apart owns some_a fresh of =
      let there : (s.pointers.resource source == 0) ≡ false = ground arith in
      rw there (of_target (s.targets (s.pointers.resource source)) refl)
    where
      p : ℕ
      p = s.pointers.resource source

      copied : Target Callable → Functions
      copied t = set_target a t (record s { pointers = set_resource f a s.pointers })

      own_f : (t : Target Callable) → (copied t).pointers.resource f ≡ a
      own_f t = let same : (f == f) ≡ true = ground arith in rw same refl

      own_source : (t : Target Callable) → (copied t).pointers.resource source ≡ p
      own_source t = let other : (source == f) ≡ false = ground arith in rw other refl

      new_target : (t : Target Callable) → (copied t).targets a ≡ t
      new_target t = set_target_self a t (record s { pointers = set_resource f a s.pointers })

      old_target : (t : Target Callable) → s.targets p ≡ t → (copied t).targets p ≡ t
      old_target t e =
          set_target_other a p t t (record s { pointers = set_resource f a s.pointers })
            (λ z. fresh (sym z)) e

      of_target :
          (t : Target Callable)
          → s.targets p ≡ t
          → call_all calls (copied t) ≡ ok (call_copies f calls s.outer t)
      of_target (holds c) e =
          calls_apart f source a p c c calls (copied (holds c)) (own_f (holds c))
            (own_source (holds c)) some_a owns fresh (new_target (holds c)) (old_target (holds c) e)
            of
      of_target (refers x) e =
          calls_shared f source a p x (s.outer x) calls (copied (refers x)) (own_f (refers x))
            (own_source (refers x)) some_a owns (new_target (refers x)) (old_target (refers x) e)
            refl of
