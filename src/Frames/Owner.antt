-- ===== src/Frames/Owner.antt =====
-- The owner of a frame, kernel/src/Frame.cpp: the constructor takes a frame from the free stack and the
-- destructor gives it back. The class declares no copy constructor, so a copy is the compiler's: the
-- address.
use dav_os.Base.{ℕ, ◌≡◌, ◌<◌, refl, sym, ◌∙◌, ◌∷◌, arith}
use dav_os.Base.Run.{Run, ok, ◌>>=◌}
use dav_os.Kpp.NonOwningStack.{NonOwningStack, IsValid, contents, contents-push_room, pop-IsValid}
use dav_os.Kpp.NonOwningStack
use dav_os.Frames.{allocate_frame, deallocate_frame}
use dav_os.Frames.Exclusive.{allocate_frame-ok, allocate_frame-cons}

pub record Frame : Type 0 where
  pub address : ℕ

pub new_frame : NonOwningStack → Run (Frame × NonOwningStack)
new_frame s = allocate_frame s >>= λ (a, s'). ok (record { address = a }, s')

pub delete_frame : Frame → NonOwningStack → NonOwningStack
delete_frame f s = deallocate_frame f.address s

abbrev pub copy_frame : Frame → Frame
copy_frame f = f

-- On a valid stack that is not empty the constructor takes the top frame, and the destructor puts it
-- back: the stack holds what it held.
pub new_frame-delete_frame :
    (s : NonOwningStack)
    → IsValid s
    → 0 < s.size
    → (f : Frame) × (s' : NonOwningStack) × (new_frame s ≡ ok (f, s'))
      × (contents s ≡ f.address ∷ contents s')
      × (contents (delete_frame f s') ≡ contents s)
unfolding new_frame delete_frame NonOwningStack.pop
new_frame-delete_frame s valid some_free =
    let (takes, size) = allocate_frame-ok s some_free in
    let taken = (allocate_frame-cons s takes).0 in
    (
      record { address = NonOwningStack.top s },
      NonOwningStack.pop s,
      rw (takes, ◌>>=◌) refl,
      taken,
      contents-push_room (NonOwningStack.top s) (NonOwningStack.pop s) (pop-IsValid valid)
            (ground (arith, valid, some_free))
          ∙ sym taken,
    )
