-- ===== src/Start/Memory/Started.antt =====
-- What the kernel start leaves in memory, kernel/src/kernel.cpp.
use mathlib.Core.List.{reverse_aux}
use dav_os.Paging.PageTree.Grow.{Place, IsTree}
use dav_os.Base.{
  ℕ, ◌+◌, ◌-◌, ◌%◌, ◌^◌, ◌≤◌, ◌<◌, ◌≡◌, ◌≢◌, sym, ap, ◌∙◌, true, ◌||◌, List, [], ◌∷◌, length, arith,
}
use dav_os.Base.Run.{Run, ok, ◌>>=◌}
use dav_os.Kpp.NonOwningStack.{NonOwningStack, contents, length-upto}
use dav_os.Frames.{MemmapEntry, free_stack_begin, free_stack_range}
use dav_os.Frames.Fill.{IsAligned, kept, usable_frames}
use dav_os.Frames.Init.{IsSmall, IsReady, frame_allocator_init-IsReady}
use dav_os.Frames.Exclusive.{IsOrdered, count-free}
use dav_os.Frames.Reclaim.{reclaimable_frames}
use dav_os.Frames.Disjoint.{IsBelow, count_both-le, count_both-range}
use dav_os.Paging.FreeRegions.{within}
use dav_os.Paging.PageTree.{Nodes, get_translation}
use dav_os.Paging.Init.{KernelImage, Paging}
use dav_os.Paging.Init.Reserved.{AreApart}
use dav_os.Paging.Init.Ready.{paging_init-Ready}
use dav_os.Paging.PageTree.{PageTranslation}
use dav_os.Start.Memory.Tables.{fits, few_tables}
use dav_os.Start.Memory.LookUp.{
  heap_unmapped, identity_mapped, last_mapped, direct_mapped, readonly_mapped, rw_mapped,
}
use dav_os.Start.Memory.{higher_half, IsLinked, lower_region, upper_region, start_memory}

apart :
    (es : List MemmapEntry) (s : NonOwningStack)
    → IsReady es s
    → IsOrdered 0x1000 es
    → IsBelow (2 ^ 32) es
    → AreApart (contents s) (reclaimable_frames es)
apart es s r o b = record {
  once = λ f. ground (arith, count-free f r, count_both-le f 0x1000 es o);
  frame = λ f h.
      let (page, low, high) =
        count_both-range f 0x1000 (2 ^ 32) es o b (ground (arith, count-free f r)) in
      ((page, low), omega (arith, high));
}

length-reverse_aux : (xs ys : List ℕ) → length (reverse_aux xs ys) ≡ length xs + length ys
length-reverse_aux [] ys = omega arith
length-reverse_aux (x ∷ xs) ys = omega (arith, length-reverse_aux xs (x ∷ ys))

stack_size :
    (es : List MemmapEntry) (s : NonOwningStack)
    → IsReady es s
    → s.size ≡ length (kept (free_stack_range es ∷ []) (usable_frames es))
stack_size es s r =
    sym (length-upto s.slots s.size)
    ∙ ap length r.holds
    ∙ length-reverse_aux (kept (free_stack_range es ∷ []) (usable_frames es)) []
    ∙ omega arith

-- What the page tree of the start answers, and the frames behind it.
pub record Started (k : KernelImage) (es : List MemmapEntry) (nodes : Nodes) : Type 0 where
  pub paging : Paging
  pub place : Place
  pub returns : start_memory higher_half k es nodes ≡ ok paging
  pub tree : IsTree higher_half paging.root paging.memory place
  pub left :
      length (kept (free_stack_range es ∷ []) (usable_frames es)) ≤ paging.memory.free.size + 6200
  pub heap_fresh :
      (address : ℕ)
      → (within lower_region address || within (upper_region k) address) ≡ true
      → get_translation higher_half paging.root address paging.memory
        ≡ ok (record { physical_address = 0; flags = 0 })
  pub identity :
      (address : ℕ)
      → 0x1000 ≤ address
      → address < 2 ^ 32
      → get_translation higher_half paging.root address paging.memory
        ≡ ok (record { physical_address = address - address % 0x1000; flags = 3 })
  pub last_page :
      (address : ℕ)
      → 2 ^ 32 ≤ address
      → address < 2 ^ 32 + 0x1000
      → get_translation higher_half paging.root address paging.memory
        ≡ ok (record { physical_address = 0; flags = 3 })
  pub direct :
      (a : ℕ)
      → a < 2 ^ 32
      → get_translation higher_half paging.root (higher_half + a) paging.memory
        ≡ ok (record { physical_address = a - a % 0x1000; flags = 3 })
  pub code :
      (a : ℕ)
      → k.readonly_start + a < k.readonly_end
      → get_translation higher_half paging.root (k.readonly_start + a) paging.memory
        ≡ ok (record { physical_address = k.physical_base + (a - a % 0x1000); flags = 1 })
  pub state :
      (a : ℕ)
      → k.rw_start + a < k.rw_end
      → get_translation higher_half paging.root (k.rw_start + a) paging.memory
        ≡ ok (record {
          physical_address =
              k.physical_base + (k.readonly_end - k.readonly_start) + (a - a % 0x1000);
          flags = 3;
        })

-- For a kernel whose two sections lie behind each other in the highest 2 GiB, from a page boundary
-- on, end two pages below 2 ^ 64 and meet at a page boundary, with a physical base at a page
-- boundary and more than a page below 2 GiB, with the direct map at 0xffff800000000000, on a
-- memory map in order from 0x1000 on, of entries of whole frames, whose usable and reclaimable
-- ones lie below 4 GiB and begin at a frame, with less than 2 ^ 64 reclaimable frames and usable
-- bytes, in which a place for the free stack is found and 6200 usable frames remain outside it,
-- frame_allocator_init and then paging_init return from any old page tables. The new page tree has
-- no sharing, also with the reclaimed frames on the free stack, which has lost at most 6200
-- frames. The addresses from 0x1000 to 4 GiB, the direct map of these 4 GiB and the kernel's two
-- sections translate to their frames, present, and writable but for the read-only section; the
-- page behind 4 GiB, which the identity map takes in too, translates to 0. Before vmm_init writes
-- to them, no address of the two regions that are left to the heap is mapped.
pub start_memory-Started :
    (k : KernelImage) (es : List MemmapEntry) (nodes : Nodes)
    → IsLinked k
    → IsAligned es
    → IsSmall es
    → IsOrdered 0x1000 es
    → IsBelow (2 ^ 32) es
    → length (reclaimable_frames es) < 2 ^ 64
    → free_stack_begin es ≢ 0
    → 6200 ≤ length (kept (free_stack_range es ∷ []) (usable_frames es))
    → Started k es nodes
unfolding start_memory
start_memory-Started k es nodes l aligned small ordered below few found frames =
    let (s, ready) = frame_allocator_init-IsReady es aligned small found in
    let r =
      paging_init-Ready higher_half k es (record { nodes = nodes; free = s }) ready.valid
        (apart es s ready ordered below) aligned few (fits k l)
        (omega (arith, few_tables k l, stack_size es s ready, frames)) in
    let none_yet : Run PageTranslation = ok (record { physical_address = 0; flags = 0 }) in
    record {
      paging = r.after;
      place = r.place;
      returns = rw (ready.starts, ◌>>=◌) r.returns;
      tree = r.tree;
      left = omega (arith, r.left, few_tables k l, stack_size es s ready);
      heap_fresh = λ address h. r.translates address ∙ heap_unmapped k l address none_yet h;
      identity = λ address lo hi. r.translates address ∙ identity_mapped k l address none_yet lo hi;
      last_page = λ address lo hi. r.translates address ∙ last_mapped k l address none_yet lo hi;
      direct = λ a h. r.translates (higher_half + a) ∙ direct_mapped k l a none_yet h;
      code = λ a h. r.translates (k.readonly_start + a) ∙ readonly_mapped k l a none_yet h;
      state = λ a h. r.translates (k.rw_start + a) ∙ rw_mapped k l a none_yet h;
    }
