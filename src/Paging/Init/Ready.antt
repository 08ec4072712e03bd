-- ===== src/Paging/Init/Ready.antt =====
-- `paging_init` as a whole, kernel/src/paging.cpp: the kernel's own page tree translates what the mappings
-- say and nothing else.
use dav_os.Base.{ℕ, ◌+◌, ◌<◌, ◌≤◌, ◌^◌, ◌≡◌, refl, ap, ◌∙◌, List, ◌∷◌, length, arith}
use dav_os.Base.Run.{ok, ◌>>=◌}
use dav_os.Kpp.NonOwningStack
use dav_os.Kpp.NonOwningStack.{IsValid, contents, pop-IsValid}
use dav_os.Frames.{MemmapEntry}
use dav_os.Frames.Fill.{IsAligned, push_all}
use dav_os.Frames.Init.{count}
use dav_os.Frames.Exclusive.{allocate_frame-ok, allocate_frame-cons}
use dav_os.Frames.Reclaim.{reclaimable_frames, free_limine-frames, size-push_all-le}
use dav_os.Paging.PageTree.{Memory, get_translation}
use dav_os.Paging.PageTree.Walk.{get_translation-free}
use dav_os.Paging.PageTree.Grow.{Place, IsTree}
use dav_os.Paging.Init.{KernelImage, Paging, initial_mappings, paging_init}
use dav_os.Paging.Init.Reserved.{
  AreApart, start_root, start-IsTree, start_unmapped, end_place, end-IsTree,
}
use dav_os.Paging.Init.Mapped.{look_up, AllFit, tables_of, add_mappings-Added}

module _ (hhdm_offset : ℕ) (k : KernelImage) (es : List MemmapEntry) where
  pub record Ready (m : Memory) : Type 0 where
    pub after : Paging
    pub place : Place
    pub returns : paging_init hhdm_offset k es m ≡ ok after
    pub tree : IsTree hhdm_offset after.root after.memory place
    pub left : m.free.size ≤ after.memory.free.size + tables_of (initial_mappings hhdm_offset k) + 1
    pub own_root : 0 < count after.ptbr (contents m.free)
    pub root_address : after.root ≡ start_root hhdm_offset after.ptbr
    pub reclaimed : after.reclaimed ≡ length (reclaimable_frames es)
    pub translates :
        (address : ℕ)
        → get_translation hhdm_offset after.root address after.memory
          ≡ look_up
              (initial_mappings hhdm_offset k)
              address
              (ok (record { physical_address = 0; flags = 0 }))

  -- With a valid stack of free frames, which differ from each other and from the frames of the
  -- aligned bootloader-reclaimable entries, lie below 4 GiB and are not 0, with initial mappings
  -- that do not wrap round, and with more free frames than tables_of counts for these, paging_init
  -- returns. The root of the page tree, which the processor is given, is a frame that was free; the
  -- tree has no sharing, also with the reclaimed frames on the free stack, and their number is that
  -- of the frames of all bootloader-reclaimable entries. An address of a mapping's page translates
  -- as the last such mapping says, to the low 32 bits of the physical address, present, with the
  -- mapping's flags, and every other address to 0 without flags.
  pub paging_init-Ready :
      (m : Memory)
      → IsValid m.free
      → AreApart (contents m.free) (reclaimable_frames es)
      → IsAligned es
      → length (reclaimable_frames es) < 2 ^ 64
      → AllFit (initial_mappings hhdm_offset k)
      → tables_of (initial_mappings hhdm_offset k) < m.free.size
      → Ready m
  unfolding paging_init
  paging_init-Ready m valid apart aligned small fit room =
      let g = NonOwningStack.top m.free in
      let s = NonOwningStack.pop m.free in
      let later = reclaimable_frames es in
      let (takes, size) = allocate_frame-ok m.free (omega arith) in
      let taken : contents m.free ≡ g ∷ contents s = (allocate_frame-cons m.free takes).0 in
      let apart' : AreApart (g ∷ contents s) later = rw taken at apart in
      let v = pop-IsValid valid in
      let root = start_root hhdm_offset g in
      let start = start-IsTree hhdm_offset g (contents s) later apart' m.nodes s refl v in
      let added =
        add_mappings-Added hhdm_offset root (initial_mappings hhdm_offset k) start fit
          (omega (arith, size)) in
      let shrinks : (f : ℕ) → count f (contents added.after.free) ≤ count f (g ∷ contents s) =
        λ f. ground (arith, added.shrinks f) in
      record {
        after = record {
          ptbr = g;
          root = root;
          memory = record added.after { free = push_all later added.after.free };
          reclaimed = length later;
        };
        place =
            end_place hhdm_offset g (contents s) later apart' added.tree added.keeps_place shrinks;
        returns =
            rw
              (
                takes,
                ◌>>=◌,
                added.returns,
                ◌>>=◌,
                free_limine-frames es added.after.free aligned small,
              )
              refl;
        tree =
            end-IsTree hhdm_offset g (contents s) later apart' added.tree added.keeps_place shrinks;
        left = omega (
          arith,
          size,
          added.spent,
          size-push_all-le later added.after.free added.tree.free_valid,
        );
        own_root = rw taken (ground arith);
        root_address = refl;
        reclaimed = refl;
        translates = λ address.
            get_translation-free hhdm_offset root address added.after
              (push_all later added.after.free)
            ∙ added.translates address
            ∙ ap (look_up (initial_mappings hhdm_offset k) address)
                (start_unmapped hhdm_offset g m.nodes s address);
      }
