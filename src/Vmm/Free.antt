-- ===== src/Vmm/Free.antt =====
-- What `vfree` gives back: the block to the heap's list, and the frame of its page.
use dav_os.Base.{ℕ, suc, ◌+◌, ◌<◌, ◌≡◌, ◌≢◌, refl, ap, ◌∙◌, List, ◌∷◌, ◌++◌, arith, length}
use dav_os.Base.Run.{Run, ok, panic, hang, out_of_fuel, ◌>>=◌}
use dav_os.Frames.{deallocate_frame}
use dav_os.Heap.{Heap, deallocate, size_at, magic_at, sizeof_used, sizeof_free, magic_constant}
use dav_os.Heap.List.{Block, Chain, Ordered}
use dav_os.Heap.Deallocate.{Freed, deallocate-Freed}
use dav_os.Kpp.NonOwningStack.{NonOwningStack, contents, contents-push_room, push, push-IsValid}
use dav_os.Kpp.NonOwningStack
use dav_os.Paging.PageTree.Walk.{get_translation-free}
use dav_os.Paging.PageTree.{PageTranslation}
use dav_os.Paging.Mapping.{paging_get_translation}
use dav_os.Vmm.{Vmm, vfree}

push-room :
    (f : ℕ) (s : NonOwningStack) → suc s.size < s.max_size → (push f s).size < (push f s).max_size
unfolding push
push-room f s room = ground arith

-- A used block whose page is mapped is freed, and the page's frame is on top of the free stack.
pub vfree-Freed :
    (hhdm_offset root fuel lo : ℕ) (fs gs : List Block) (b : Block) (t : PageTranslation) (v : Vmm)
    → Chain v.allocator.mem v.allocator.head (fs ++ gs)
    → Ordered lo (fs ++ (b ∷ gs))
    → b.addr ≢ 0
    → v.allocator.mem (magic_at b.addr) ≡ magic_constant
    → v.allocator.mem (size_at b.addr) + sizeof_used ≡ b.size + sizeof_free
    → length fs < fuel
    → paging_get_translation hhdm_offset root (b.addr + sizeof_used) v.memory ≡ ok t
    → NonOwningStack.IsValid v.memory.free
    → v.memory.free.size < v.memory.free.max_size
    → (v' : Vmm) × (vfree hhdm_offset root fuel (b.addr + sizeof_used) v ≡ ok v')
      × Freed fs b gs lo v'.allocator
      × (contents v'.memory.free ≡ t.physical_address ∷ contents v.memory.free)
unfolding vfree
vfree-Freed hhdm_offset root fuel lo fs gs b t v c o some_block magic size enough mapped valid
      room =
    let d = deallocate-Freed fs gs b fuel lo v.allocator c o some_block magic size enough in
    (
      record {
        allocator = d.0;
        memory = record v.memory { free = deallocate_frame t.physical_address v.memory.free };
      },
      rw (d.1, mapped) refl,
      d.2,
      contents-push_room t.physical_address v.memory.free valid room,
    )

-- What is left of a `vfree` behind the call of the heap.
give_back :
    (r : Run Heap) (t : PageTranslation) (v v' : Vmm)
    → (r >>= λ h. ok (record {
      allocator = h;
      memory = record v.memory { free = deallocate_frame t.physical_address v.memory.free };
    }))
      ≡ ok v'
    → v'.memory ≡ record v.memory { free = push t.physical_address v.memory.free }
give_back (ok h) t v v' e = ground (arith, e)
give_back panic t v v' e = absurd (ground (arith, e))
give_back hang t v v' e = absurd (ground (arith, e))
give_back out_of_fuel t v v' e = absurd (ground (arith, e))

-- A `vfree` that returns has pushed the frame that its pointer translates to, and changed nothing
-- else of the memory.
vfree-memory :
    (hhdm_offset root fuel ptr : ℕ) (t : PageTranslation) (v v' : Vmm)
    → paging_get_translation hhdm_offset root ptr v.memory ≡ ok t
    → vfree hhdm_offset root fuel ptr v ≡ ok v'
    → v'.memory ≡ record v.memory { free = push t.physical_address v.memory.free }
unfolding vfree
vfree-memory hhdm_offset root fuel ptr t v v' mapped e =
    give_back (deallocate fuel ptr v.allocator) t v v' (rw mapped at e)

-- When two pointers translate to the same frame and both calls of vfree return, with room for two
-- on a valid free stack, the frame is on the stack once for each call.
pub vfree-shared :
    (hhdm_offset root fuel p q : ℕ) (t : PageTranslation) (v v' v'' : Vmm)
    → paging_get_translation hhdm_offset root p v.memory ≡ ok t
    → paging_get_translation hhdm_offset root q v.memory ≡ ok t
    → vfree hhdm_offset root fuel p v ≡ ok v'
    → vfree hhdm_offset root fuel q v' ≡ ok v''
    → NonOwningStack.IsValid v.memory.free
    → v.memory.free.size + 1 < v.memory.free.max_size
    → contents v''.memory.free ≡ t.physical_address ∷ t.physical_address ∷ contents v.memory.free
unfolding paging_get_translation
vfree-shared hhdm_offset root fuel p q t v v' v'' at_p at_q first second valid room =
    let f = t.physical_address in
    let m' = vfree-memory hhdm_offset root fuel p t v v' at_p first in
    let at_q' : paging_get_translation hhdm_offset root q v'.memory ≡ ok t =
      rw (m', get_translation-free hhdm_offset root q v.memory (push f v.memory.free)) at_q in
    let m'' = vfree-memory hhdm_offset root fuel q t v' v'' at_q' second in
    let s' = push f v.memory.free in
    rw (m'', m')
      (contents-push_room f s' (push-IsValid f valid)
          (push-room f v.memory.free (omega (arith, room)))
        ∙ ap (λ l. f ∷ l) (contents-push_room f v.memory.free valid (omega (arith, room))))
