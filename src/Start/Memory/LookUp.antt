-- ===== src/Start/Memory/LookUp.antt =====
-- What the initial mappings of kernel/src/paging.cpp say of an address.
use dav_os.Base.{
  ℕ, ◌+◌, ◌-◌, ◌%◌, ◌^◌, ◌≤◌, ◌<◌, ◌≡◌, refl, ◌∙◌, true, false, ◌||◌, if◌then◌else◌, arith,
}
use dav_os.Base.Run.{Run, ok}
use dav_os.Paging.FreeRegions.{within}
use dav_os.Paging.Init.{
  Mapping, identity_map, direct_map, readonly_map, rw_map, KernelImage, readonly_region, rw_region,
  initial_mappings,
}
use dav_os.Paging.Init.Mapped.{holds, translated, look_up}
use dav_os.Paging.Address.{page_floor}
use dav_os.Paging.PageTree.Map.{page_number}
use dav_os.Paging.PageTree.{PageTranslation}
use dav_os.Start.Memory.{higher_half, IsLinked, lower_region, upper_region}

-- The four tests of a look-up.
tests :
    (k : KernelImage) (address : ℕ) (old : Run PageTranslation)
    → look_up (initial_mappings higher_half k) address old ≡ (
        if holds (rw_map k) address
        then translated (rw_map k) address
        else if holds (readonly_map k) address
        then translated (readonly_map k) address
        else if holds (direct_map higher_half) address
        then translated (direct_map higher_half) address
        else if holds identity_map address
        then translated identity_map address
        else old)
unfolding look_up initial_mappings
tests k address old = refl

-- The sections lie in the last 2 ^ 19 pages.
section_number :
    (base : ℕ) → 0xffff_ffff_8000_0000 ≤ base → base < 2 ^ 64 → 2 ^ 36 - 2 ^ 19 ≤ page_number base
section_number base high top = omega arith

not_holds :
    (mp : Mapping) (address : ℕ)
    → page_number address < page_number mp.from_virtual.base
    → holds mp address ≡ false
not_holds mp address below = ground arith

module _ (k : KernelImage) (l : IsLinked k) where
  readonly_size : (readonly_region k).size ≡ k.readonly_end - k.readonly_start
  readonly_size = omega (arith, l)

  rw_size : (rw_region k).size ≡ k.rw_end - k.rw_start
  rw_size = omega (arith, l)

  sections : page_number k.readonly_start ≤ page_number k.rw_start
  sections = omega (arith, l)

  low_number : (n : ℕ) → n < 2 ^ 36 - 2 ^ 19 → n < page_number k.readonly_start
  low_number n h = omega (arith, section_number k.readonly_start l.high (omega (arith, l)))

  low_look_up :
      (address : ℕ) (old : Run PageTranslation)
      → page_number address < page_number k.readonly_start
      → look_up (initial_mappings higher_half k) address old ≡ (
          if holds (direct_map higher_half) address
          then translated (direct_map higher_half) address
          else if holds identity_map address
          then translated identity_map address
          else old)
  low_look_up address old low =
      let not_rw = not_holds (rw_map k) address (omega (arith, low, sections)) in
      tests k address old ∙ rw (not_rw, not_holds (readonly_map k) address low) refl

  pub heap_unmapped :
      (address : ℕ) (old : Run PageTranslation)
      → (within lower_region address || within (upper_region k) address) ≡ true
      → look_up (initial_mappings higher_half k) address old ≡ old
  heap_unmapped address old h =
      let low : page_number address < page_number k.readonly_start = ground arith in
      let not_direct : holds (direct_map higher_half) address ≡ false = ground arith in
      let not_identity : holds identity_map address ≡ false = ground arith in
      low_look_up address old low ∙ rw (not_direct, not_identity) refl

  -- Below 4 GiB and in the direct map a page translates to the frame at its offset.
  pub identity_mapped :
      (address : ℕ) (old : Run PageTranslation)
      → 0x1000 ≤ address
      → address < 2 ^ 32
      → look_up (initial_mappings higher_half k) address old
        ≡ ok (record { physical_address = address - address % 0x1000; flags = 3 })
  unfolding page_floor
  identity_mapped address old lo hi =
      let not_direct : holds (direct_map higher_half) address ≡ false = ground arith in
      let here : holds identity_map address ≡ true = ground arith in
      low_look_up address old (low_number (page_number address) (omega arith))
      ∙ rw (not_direct, here) (ground arith)

  -- The identity map reaches one page beyond 4 GiB.
  pub last_mapped :
      (address : ℕ) (old : Run PageTranslation)
      → 2 ^ 32 ≤ address
      → address < 2 ^ 32 + 0x1000
      → look_up (initial_mappings higher_half k) address old
        ≡ ok (record { physical_address = 0; flags = 3 })
  unfolding page_floor
  last_mapped address old lo hi =
      let not_direct : holds (direct_map higher_half) address ≡ false = ground arith in
      let here : holds identity_map address ≡ true = ground arith in
      low_look_up address old (low_number (page_number address) (omega arith))
      ∙ rw (not_direct, here) (ground arith)

  pub direct_mapped :
      (a : ℕ) (old : Run PageTranslation)
      → a < 2 ^ 32
      → look_up (initial_mappings higher_half k) (higher_half + a) old
        ≡ ok (record { physical_address = a - a % 0x1000; flags = 3 })
  unfolding page_floor
  direct_mapped a old hi =
      let here : holds (direct_map higher_half) (higher_half + a) ≡ true = ground arith in
      low_look_up (higher_half + a) old (low_number (page_number (higher_half + a)) (omega arith))
      ∙ rw here (ground arith)

  pub readonly_mapped :
      (a : ℕ) (old : Run PageTranslation)
      → k.readonly_start + a < k.readonly_end
      → look_up (initial_mappings higher_half k) (k.readonly_start + a) old
        ≡ ok (record { physical_address = k.physical_base + (a - a % 0x1000); flags = 1 })
  unfolding page_floor
  readonly_mapped a old hi =
      let below : holds (rw_map k) (k.readonly_start + a) ≡ false =
        not_holds (rw_map k) (k.readonly_start + a) (omega arith) in
      let here : holds (readonly_map k) (k.readonly_start + a) ≡ true =
        rw readonly_size (ground arith) in
      tests k (k.readonly_start + a) old ∙ rw (below, here) (ground arith)

  pub rw_mapped :
      (a : ℕ) (old : Run PageTranslation)
      → k.rw_start + a < k.rw_end
      → look_up (initial_mappings higher_half k) (k.rw_start + a) old
        ≡ ok (record {
          physical_address =
              k.physical_base + (k.readonly_end - k.readonly_start) + (a - a % 0x1000);
          flags = 3;
        })
  unfolding page_floor
  rw_mapped a old hi =
      let here : holds (rw_map k) (k.rw_start + a) ≡ true = rw rw_size (ground arith) in
      tests k (k.rw_start + a) old ∙ rw here (ground arith)
