-- ===== src/Apic/Madt/Entries.antt =====
-- The entries of the MADT, and an IO APIC that `APICManager::initialize` adds to its array.
use dav_os.Base.{
  ℕ, suc, ◌+◌, ◌-◌, ◌*◌, ◌/◌, ◌%◌, ◌^◌, ◌≤◌, ◌<◌, ◌≡◌, refl, ap, false, ◌==◌, leb, if◌then◌else◌,
  arith, List, [], ◌∷◌, ◌++◌, set, replicate, length, length-append, bit_or,
}
use mathlib.Core.List.{append_assoc}
use dav_os.Base.Words.{u32, bit_and_mask}
use dav_os.Base.Run.{Run, ok, ◌>>=◌}
use dav_os.Kpp.CString.{Bytes}
use dav_os.Frames.{kernel_physical_to_virtual}
use dav_os.Paging.Address.{page_size}
use dav_os.Paging.PageTreeNode.{write, cache_disable}
use dav_os.Paging.PageTree.Grow.{Place, IsTree}
use dav_os.Paging.PageTree.Map.{page_number}
use dav_os.Paging.Mapping.{pages_of}
use dav_os.Paging.Mapping.Below.{paging_add_mapping-MappedRange}
use dav_os.Acpi.{read32}
use dav_os.Apic.{
  IoApic, no_io_apic, Devices, Manager, max_io_apics, new_io_apic, read_register, add_io_apic,
}

pub record MadtEntry : Type 0 where
  pub kind : ℕ
  pub length : ℕ

-- From `curr` on the bytes are a sequence of entries that ends at `end`.
abbrev pub Laid : Bytes → ℕ → ℕ → List MadtEntry → Type 0
Laid mem curr end [] = curr ≡ end
Laid mem curr end (e ∷ es) =
    (mem curr ≡ e.kind)
    × (mem (curr + 1) ≡ e.length)
    × (2 ≤ e.length)
    × Laid mem (curr + e.length) end es

-- The array with the IO APICs found so far.
abbrev pub padded : List IoApic → List IoApic
padded found = found ++ replicate (max_io_apics - length found) no_io_apic

set-behind :
    (found rest : List IoApic) (x y : IoApic)
    → set (found ++ (y ∷ rest)) (length found) x ≡ found ++ (x ∷ rest)
set-behind [] rest x y = refl
set-behind (z ∷ found) rest x y = ap (λ l. z ∷ l) (set-behind found rest x y)

pub set-padded :
    (found : List IoApic) (x : IoApic)
    → length found < max_io_apics
    → set (padded found) (length found) x ≡ padded (found ++ (x ∷ []))
set-padded found x h =
    let room : max_io_apics - length found ≡ suc (max_io_apics - suc (length found)) =
      omega arith in
    let more : length (found ++ (x ∷ [])) ≡ suc (length found) =
      omega (arith, length-append found (x ∷ [])) in
    rw
      (
        room,
        more,
        append_assoc found (x ∷ []) (replicate (max_io_apics - suc (length found)) no_io_apic),
      )
      (set-behind found (replicate (max_io_apics - suc (length found)) no_io_apic) x no_io_apic)

new_io_apic_lem :
    (address base id : ℕ) (dev : Devices)
    → (new_io_apic address base id dev).0 ≡ record {
      address = address;
      global_system_interrupt_base = base;
      id = id;
      num_redirection_entries = dev.registers address 1 / 2 ^ 16 % 2 ^ 8;
    }
unfolding new_io_apic read_register
new_io_apic_lem address base id dev =
    ground (arith, bit_and_mask 8 (dev.registers address 1 / 2 ^ 16))

module _ (hhdm_offset root : ℕ) (mem : Bytes) where
  -- The IO APIC that an entry describes, its information at `info`; the last argument is the
  -- registers of the IO APICs by address.
  abbrev pub io_apic_at : ℕ → (ℕ → ℕ → ℕ) → IoApic
  io_apic_at info registers =
      let address = u32 (kernel_physical_to_virtual hhdm_offset (read32 (info + 2) mem)) in
      record {
        address = address;
        global_system_interrupt_base = read32 (info + 6) mem;
        id = mem info;
        num_redirection_entries = registers address 1 / 2 ^ 16 % 2 ^ 8;
      }

  -- The IO APICs that a sequence of entries describes.
  abbrev pub described : ℕ → List MadtEntry → (ℕ → ℕ → ℕ) → List IoApic
  described curr [] registers = []
  described curr (e ∷ es) registers =
      if e.kind == 1
      then (io_apic_at (curr + 2) registers ∷ described (curr + e.length) es registers)
      else described (curr + e.length) es registers

  -- The IO APICs' pages lie below the end of the first 4 GiB.
  abbrev pub AreLow : ℕ → List MadtEntry → Type 0
  AreLow curr [] = Unit {0}
  AreLow curr (e ∷ es) =
      ((e.kind ≡ 1) → read32 (curr + 2 + 2) mem + 2 * page_size ≤ 2 ^ 32)
      × AreLow (curr + e.length) es

  -- The direct map of physical memory leaves room behind its first 4 GiB.
  abbrev pub HasRoom : Type 0
  HasRoom =
      (hhdm_offset + 2 ^ 32 + 4 * page_size ≤ 2 ^ 64) × (page_number hhdm_offset + 2 ^ 21 < 2 ^ 36)

  pub record Added (info : ℕ) (g : Manager) (r : Run Manager) : Type 0 where
    pub after : Manager
    pub place' : Place
    pub returns : r ≡ ok after
    pub tree : IsTree hhdm_offset root after.memory place'
    pub spent : g.memory.free.size ≤ after.memory.free.size + 6
    pub array : after.io_apics ≡ set g.io_apics g.num_io_apics (io_apic_at info g.devices.registers)
    pub number : after.num_io_apics ≡ g.num_io_apics + 1
    pub same_registers : after.devices.registers ≡ g.devices.registers

  pub add_io_apic-Added :
      (info : ℕ) (g : Manager) (place : Place)
      → HasRoom
      → IsTree hhdm_offset root g.memory place
      → read32 (info + 2) mem + 2 * page_size ≤ 2 ^ 32
      → 6 ≤ g.memory.free.size
      → g.num_io_apics < max_io_apics
      → Added info g (add_io_apic hhdm_offset root mem info g)
  unfolding add_io_apic new_io_apic read_register
  add_io_apic-Added info g place space tree low room few =
      let physical = read32 (info + 2) mem in
      let virtual = kernel_physical_to_virtual hhdm_offset physical in
      let exact : virtual ≡ physical + hhdm_offset = omega (arith, space, low) in
      let pages : pages_of virtual page_size ≤ 2 = omega arith in
      let number : page_number virtual + 2 < 2 ^ 36 = rw exact (omega (arith, space, low)) in
      let mapped =
        paging_add_mapping-MappedRange hhdm_offset root virtual physical page_size
          (bit_or write cache_disable) tree refl (omega (arith, space, low, exact))
          (omega (arith, number, pages)) (omega (arith, low, pages)) (omega (arith, room, pages)) in
      let made = new_io_apic (u32 virtual) (read32 (info + 6) mem) (mem info) g.devices in
      let left : leb max_io_apics g.num_io_apics ≡ false = ground arith in
      record {
        after = record {
          io_apics = set g.io_apics g.num_io_apics made.0;
          num_io_apics = g.num_io_apics + 1;
          memory = mapped.after;
          devices = made.1;
        };
        place' = mapped.place';
        returns = rw (mapped.returns, ◌>>=◌, left) refl;
        tree = mapped.tree;
        spent = omega (arith, mapped.spent, pages);
        array =
            ap (set g.io_apics g.num_io_apics)
              (new_io_apic_lem (u32 virtual) (read32 (info + 6) mem) (mem info) g.devices);
        number = refl;
        same_registers = refl;
      }
