-- ===== src/Tests/Firmware.antt =====
-- The ACPI tables, the IO APICs and optionals at concrete inputs.
use dav_os.Base.{ℕ, ◌≡◌, ◌∷◌, [], List, refl, ◌==◌, if◌then◌else◌, arith, some, none, true, false}
use dav_os.Base.Run.{out_of_fuel}
use dav_os.Kpp.CString.{Bytes, strncmp, strncmp_from}
use dav_os.Kpp.Optional.{Slots, assign_copy, Copied, assign_copy-Copied}
use dav_os.Paging.PageTreeNode.{get_child_address}
use dav_os.Paging.PageTree.{Memory}
use dav_os.Paging.PageTree.Grow.{Place, IsTree}
use dav_os.Acpi.{
  verify_checksum, sum_bytes, header_length, find_sdt_with_signature, find_from, table_pointer,
  num_pointers_to_other_sdts,
}
use dav_os.Acpi.Checksum.{verify_checksum-sum_bytes}
use dav_os.Acpi.Tables.{First, find_sdt_with_signature-First}
use dav_os.Apic.{IoApic, Devices, Manager, handles_irq, redirect_irq, parse_entries, initialize}
use dav_os.Apic.Redirect.{redirected, redirect_irq-redirected}
use dav_os.Apic.Madt.{padded, Parsed, parse_entries-stuck}
use dav_os.Apic.Initialize.{initialize-Parsed}

-- Memory from the bytes that are not 0.
abbrev bytes : List (ℕ × ℕ) → Bytes
bytes [] x = 0
bytes ((a, v) ∷ rest) x = if x == a then v else bytes rest x

-- A table of five bytes whose sum is 256.
abbrev small_table : Bytes
small_table = bytes ((0, 0xfb) ∷ (4, 5) ∷ [])

verify_checksum-sum_bytes_example :
    verify_checksum 0 small_table ≡ (sum_bytes (header_length 0 small_table) 0 0 small_table == 0)
verify_checksum-sum_bytes_example = verify_checksum-sum_bytes 0 small_table (λ x. ground arith)

-- An RSDP of revision 0 at 0x100, its root table at 0x200, which lists the MADT at 0x300 as its second
-- pointer; the MADT has one IO APIC. The text "APIC" stands at 0x400.
abbrev firmware : Bytes
firmware = bytes (
    (0x108, 0xfe)
    ∷ (0x111, 2)
    ∷ (0x204, 44)
    ∷ (0x229, 3)
    ∷ (0x300, b'A')
    ∷ (0x301, b'P')
    ∷ (0x302, b'I')
    ∷ (0x303, b'C')
    ∷ (0x304, 56)
    ∷ (0x32c, 1)
    ∷ (0x32d, 12)
    ∷ (0x32e, 2)
    ∷ (0x332, 0xc0)
    ∷ (0x333, 0xfe)
    ∷ (0x400, b'A')
    ∷ (0x401, b'P')
    ∷ (0x402, b'I')
    ∷ (0x403, b'C')
    ∷ [])

find_sdt_with_signature-First_example :
    First 0x400 0 0x200 firmware 0
      (num_pointers_to_other_sdts 0 0x200 firmware)
      (find_sdt_with_signature 0x400 0 0x200 firmware)
find_sdt_with_signature-First_example = find_sdt_with_signature-First 0x400 0 0x200 firmware

madt_found : find_sdt_with_signature 0x400 0 0x200 firmware ≡ 0x300
unfolding find_sdt_with_signature find_from table_pointer num_pointers_to_other_sdts strncmp
    strncmp_from
madt_found = refl

abbrev root_table : ℕ
root_table = 0x10_0000

abbrev eight_frames : Memory
eight_frames = record {
  nodes = λ _ _. 0;
  free = record {
    slots = 0x1000 ∷ 0x2000 ∷ 0x3000 ∷ 0x4000 ∷ 0x5000 ∷ 0x6000 ∷ 0x7000 ∷ 0x8000 ∷ [];
    max_size = 8;
    size = 8;
  };
}

abbrev root_only : Place
root_only x = if x == root_table then some [] else none

-- An empty entry has no child.
no_child : get_child_address 0 ≡ 0
unfolding get_child_address
no_child = refl

eight_frames-IsTree : IsTree 0 root_table eight_frames root_only
eight_frames-IsTree = record {
  root_at = refl;
  child_at = λ v i p h d child. absurd (child no_child);
  free_valid = record { fits = omega arith; size_in = omega arith };
  free_once = λ f. ground arith;
  free_apart = λ f h. (ground (arith, h), ground (arith, h), ground (arith, h));
}

-- Every IO APIC has 24 entries.
abbrev devices : Devices
devices = record { selected = λ _. 0; registers = λ _ n. if n == 1 then 0x17_0011 else 0x1_0000 }

abbrev no_io_apics : Manager
no_io_apics = record {
  io_apics = padded [];
  num_io_apics = 0;
  memory = eight_frames;
  devices = devices;
}

-- The direct map is at 0 here.
initialize-Parsed_example :
    Parsed 0 root_table firmware [] devices.registers 0x32c
      (record { kind = 1; length = 12 } ∷ [])
      (initialize 0 root_table firmware 2 0x400 0x100 no_io_apics)
unfolding find_sdt_with_signature find_from table_pointer num_pointers_to_other_sdts strncmp
    strncmp_from
initialize-Parsed_example =
    initialize-Parsed 0 root_table firmware 0x400 0x100 (record { kind = 1; length = 12 } ∷ []) 2
      no_io_apics root_only (omega arith) refl (omega arith) (omega arith, omega arith)
      (refl, refl, omega arith, refl) (omega arith) (λ e. omega arith, tt) eight_frames-IsTree refl
      refl (omega arith) (omega arith) (omega arith)

parse_entries-stuck_example :
    parse_entries 0 root_table (λ _. 0) 1000 0x32c 0x338 no_io_apics ≡ out_of_fuel
parse_entries-stuck_example =
    parse_entries-stuck 0 root_table (λ _. 0) 1000 0x32c 0x338 no_io_apics (omega arith)
      (omega arith) (omega arith) refl

abbrev io_apic : IoApic
io_apic = record {
  address = 0xfec0_0000;
  global_system_interrupt_base = 0;
  id = 2;
  num_redirection_entries = 23;
}

handled : handles_irq 1 io_apic ≡ true
unfolding handles_irq
handled = refl

redirect_irq-redirected_example :
    (redirect_irq 1 0x30 (io_apic ∷ []) devices).registers 0xfec0_0000 0x12
    ≡ redirected 1 0x30 io_apic devices 0xfec0_0000 0x12
redirect_irq-redirected_example =
    redirect_irq-redirected 1 0x30 (io_apic ∷ []) io_apic devices 0xfec0_0000 0x12 (rw handled refl)
      (omega arith) (omega arith) (omega arith) (omega arith) (λ x m. ground arith)

-- An optional without a value at 0, and one with the value 5 at 1.
abbrev optionals : Slots ℕ
optionals x =
    if x == 1
    then (record { content = some 5; is_present = true; constructed = 1; destroyed = 0 })
    else (record { content = none; is_present = false; constructed = 0; destroyed = 0 })

assign_copy-Copied_example :
    (s' : Slots ℕ) × (assign_copy 0 1 optionals ≡ some s') × Copied 0 1 optionals s'
assign_copy-Copied_example =
    assign_copy-Copied 0 1 optionals (omega arith) (record { flag = refl; lifetimes = refl })
      (record { flag = refl; lifetimes = refl })
