-- ===== src/Apic/Madt.antt =====
-- The parsing of the MADT in `APICManager::initialize`.
mod Entries
pub use Entries.{MadtEntry, Laid, padded, described, AreLow, HasRoom}
use Entries.{Added, set-padded, io_apic_at, add_io_apic-Added}
use dav_os.Base.{
  ℕ, zero, suc, ◌+◌, ◌-◌, ◌*◌, ◌/◌, ◌%◌, ◌^◌, ◌≤◌, ◌<◌, ◌≡◌, ◌≢◌, refl, ap, ◌∙◌, inl, inr, true,
  false, ◌==◌, leb, ltb, if◌then◌else◌, arith, Bool-cases, List, [], ◌∷◌, ◌++◌, set, replicate,
  length, length-append, bit_or,
}
use mathlib.Core.List.{append_assoc, append-nil}
use dav_os.Base.Words.{u32, add64, sub64, bit_and_mask}
use dav_os.Base.Run.{Run, ok, out_of_fuel, ◌>>=◌}
use dav_os.Kpp.CString.{Bytes}
use dav_os.Frames.{kernel_physical_to_virtual}
use dav_os.Paging.Address.{page_size}
use dav_os.Paging.PageTreeNode.{write, cache_disable}
use dav_os.Paging.PageTree.Grow.{Place, IsTree}
use dav_os.Paging.PageTree.Map.{page_number}
use dav_os.Paging.Mapping.{pages_of}
use dav_os.Paging.Mapping.Below.{paging_add_mapping-MappedRange}
use dav_os.Acpi.{read32, header_length}
use dav_os.Apic.{
  IoApic, no_io_apic, Devices, Manager, max_io_apics, entries_offset, new_io_apic, read_register,
  add_io_apic, parse_entries, parse_madt,
}

module _ (hhdm_offset root : ℕ) (mem : Bytes) where
  -- What the loop returns, behind the IO APICs found before.
  pub record Parsed (found : List IoApic) (registers : ℕ → ℕ → ℕ) (curr : ℕ) (es : List MadtEntry)
      (r : Run Manager) : Type 0 where
    pub after : Manager
    pub returns : r ≡ ok after
    pub array : after.io_apics ≡ padded (found ++ described hhdm_offset root mem curr es registers)
    pub number :
        after.num_io_apics ≡ length (found ++ described hhdm_offset root mem curr es registers)
    pub place' : Place
    pub tree : IsTree hhdm_offset root after.memory place'
    pub same_registers : after.devices.registers ≡ registers

  next_entry :
      (curr len : ℕ)
      → curr + len < 2 ^ 64
      → 2 ≤ len
      → add64 (add64 curr 2) (sub64 len 2) ≡ curr + len
  next_entry curr len top h = omega arith

  Laid-le : (curr end : ℕ) (es : List MadtEntry) → Laid mem curr end es → curr ≤ end
  Laid-le curr end [] l = omega (arith, l)
  Laid-le curr end (e ∷ es) l = omega (arith, Laid-le (curr + e.length) end es l.3)

  -- What the step at an entry of type 1 rests on.
  abbrev AtIo : MadtEntry → ℕ → ℕ → Type 0
  AtIo e curr end =
      (ltb curr end ≡ true)
      × (mem curr ≡ e.kind)
      × ((e.kind == 1) ≡ true)
      × (add64 curr 2 ≡ curr + 2)
      × (add64 curr 1 ≡ curr + 1)
      × (mem (curr + 1) ≡ e.length)
      × (add64 (curr + 2) (sub64 e.length 2) ≡ curr + e.length)

  Parsed-io :
      (e : MadtEntry) (es : List MadtEntry) (found : List IoApic) (registers : ℕ → ℕ → ℕ)
      (k curr end : ℕ) (g : Manager)
      (added : Added hhdm_offset root mem
        (curr + 2)
        g
        (add_io_apic hhdm_offset root mem (curr + 2) g))
      → AtIo e curr end
      → Parsed
          (found ++ (io_apic_at hhdm_offset root mem (curr + 2) registers ∷ []))
          registers
          (curr + e.length)
          es
          (parse_entries hhdm_offset root mem k (curr + e.length) end added.after)
      → Parsed found registers curr (e ∷ es) (parse_entries hhdm_offset root mem (suc k) curr end g)
  unfolding parse_entries
  Parsed-io e es found registers k curr end g added (more, kind, io, info_at, len_at, len, next)
        ih =
      let x = io_apic_at hhdm_offset root mem (curr + 2) registers in
      let assoc =
        append_assoc found (x ∷ [])
          (described hhdm_offset root mem (curr + e.length) es registers) in
      record {
        after = ih.after;
        returns = rw (more, kind, io, info_at, added.returns, ◌>>=◌, len_at, len, next) ih.returns;
        array = rw io (rw assoc at ih.array);
        number = rw io (rw assoc at ih.number);
        place' = ih.place';
        tree = ih.tree;
        same_registers = ih.same_registers;
      }

  parse_entries-Parsed :
      (es : List MadtEntry) (found : List IoApic) (registers : ℕ → ℕ → ℕ) (fuel curr end : ℕ)
      (g : Manager) (place : Place)
      → HasRoom hhdm_offset root mem
      → Laid mem curr end es
      → end < 2 ^ 64
      → AreLow hhdm_offset root mem curr es
      → IsTree hhdm_offset root g.memory place
      → g.io_apics ≡ padded found
      → g.num_io_apics ≡ length found
      → g.devices.registers ≡ registers
      → length (found ++ described hhdm_offset root mem curr es registers) ≤ max_io_apics
      → 6 * length (described hhdm_offset root mem curr es registers) ≤ g.memory.free.size
      → length es < fuel
      → Parsed found registers curr es (parse_entries hhdm_offset root mem fuel curr end g)
  unfolding parse_entries
  parse_entries-Parsed [] found registers zero curr end g place space l top low tree a n regs few
        room enough =
      absurd (omega arith)
  parse_entries-Parsed (e ∷ es) found registers zero curr end g place space l top low tree a n regs
        few room enough =
      absurd (omega arith)
  parse_entries-Parsed [] found registers (suc k) curr end g place space l top low tree a n regs few
        room enough =
      let stop : ltb curr end ≡ false = ground (arith, l) in
      record {
        after = g;
        returns = rw stop refl;
        array = rw (append-nil found) a;
        number = rw (append-nil found) n;
        place' = place;
        tree = tree;
        same_registers = regs;
      }
  parse_entries-Parsed (e ∷ es) found registers (suc k) curr end g place space l top low tree a n
        regs few room enough =
      let below = Laid-le (curr + e.length) end es l.3 in
      let more : ltb curr end ≡ true = ground (arith, l.2, below) in
      let len_at : add64 curr 1 ≡ curr + 1 = omega (arith, l.2, below, top) in
      let info_at : add64 curr 2 ≡ curr + 2 = omega (arith, l.2, below, top) in
      let next = next_entry curr e.length (omega (arith, below, top)) l.2 in
      elim (Bool-cases (e.kind == 1)) [
        | inl io ↦
            let x = io_apic_at hhdm_offset root mem (curr + 2) registers in
            let rest = described hhdm_offset root mem (curr + e.length) es registers in
            let few' : length (found ++ (x ∷ rest)) ≤ max_io_apics = rw io at few in
            let room' : 6 * suc (length rest) ≤ g.memory.free.size = rw io at room in
            let left : length found < max_io_apics =
              omega (arith, few', length-append found (x ∷ rest)) in
            let added =
              add_io_apic-Added hhdm_offset root mem (curr + 2) g place space tree
                (low.0 (ground (arith, io))) (omega (arith, room')) (omega (arith, n, left)) in
            let g' = added.after in
            let assoc : (found ++ (x ∷ [])) ++ rest ≡ found ++ (x ∷ rest) =
              append_assoc found (x ∷ []) rest in
            let array' : g'.io_apics ≡ padded (found ++ (x ∷ [])) =
              added.array ∙ rw (a, n, regs) (set-padded found x left) in
            let number' : g'.num_io_apics ≡ length (found ++ (x ∷ [])) =
              omega (arith, added.number, n, length-append found (x ∷ [])) in
            let ih =
              parse_entries-Parsed es (found ++ (x ∷ [])) registers k (curr + e.length) end g'
                added.place' space l.3 top low.1 added.tree array' number'
                (added.same_registers ∙ regs) (rw assoc few') (omega (arith, room', added.spent))
                (omega arith) in
            Parsed-io e es found registers k curr end g added
              (more, l.0, io, info_at, len_at, l.1, rw info_at at next) ih
        | inr other ↦
            let ih =
              parse_entries-Parsed es found registers k (curr + e.length) end g place space l.3 top
                low.1 tree a n regs (rw other at few) (rw other at room) (omega arith) in
            record {
              after = ih.after;
              returns = rw (more, l.0, other, len_at, l.1, next) ih.returns;
              array = rw other ih.array;
              number = rw other ih.number;
              place' = ih.place';
              tree = ih.tree;
              same_registers = ih.same_registers;
            }
      ]

  -- From an empty array the parser puts in the IO APICs that the entries describe.
  pub parse_madt-Parsed :
      (es : List MadtEntry) (fuel madt : ℕ) (g : Manager) (place : Place)
      → HasRoom hhdm_offset root mem
      → Laid mem (madt + entries_offset) (madt + header_length madt mem) es
      → madt + header_length madt mem < 2 ^ 64
      → AreLow hhdm_offset root mem (madt + entries_offset) es
      → IsTree hhdm_offset root g.memory place
      → g.io_apics ≡ padded []
      → g.num_io_apics ≡ 0
      → length (described hhdm_offset root mem (madt + entries_offset) es g.devices.registers)
        ≤ max_io_apics
      → 6 * length (described hhdm_offset root mem (madt + entries_offset) es g.devices.registers)
        ≤ g.memory.free.size
      → length es < fuel
      → Parsed [] g.devices.registers
          (madt + entries_offset)
          es
          (parse_madt hhdm_offset root mem fuel madt g)
  unfolding parse_madt
  parse_madt-Parsed es fuel madt g place space l top low tree a n few room enough =
      parse_entries-Parsed es [] g.devices.registers fuel (madt + entries_offset)
        (madt + header_length madt mem) g place space l top low tree a n refl few room enough

  -- At an entry before the end of the MADT that is not of type 1 and has length 0, the parser runs
  -- out of any fuel.
  pub parse_entries-stuck :
      (fuel curr end : ℕ) (g : Manager)
      → curr + 2 < 2 ^ 64
      → curr < end
      → mem curr ≢ 1
      → mem (curr + 1) ≡ 0
      → parse_entries hhdm_offset root mem fuel curr end g ≡ out_of_fuel
  unfolding parse_entries
  parse_entries-stuck zero curr end g top inside other empty = refl
  parse_entries-stuck (suc k) curr end g top inside other empty =
      let more : ltb curr end ≡ true = ground arith in
      let kind : (mem curr == 1) ≡ false = ground (arith, other) in
      let len_at : add64 curr 1 ≡ curr + 1 = omega arith in
      let same : add64 (add64 curr 2) (sub64 0 2) ≡ curr = omega arith in
      rw (more, kind, len_at, empty, same) (parse_entries-stuck k curr end g top inside other empty)
