-- ===== src/Tests/Starts.antt =====
-- Runs of the start-up code and of the ownership classes.
use dav_os.Base.{ℕ, ◌≡◌, refl, ◌==◌, if◌then◌else◌, some, none, true, false, Option}
use dav_os.Base.Run.{ok}
use dav_os.Kpp.CString.{Bytes}
use dav_os.Kpp.Optional.{
  Slots, empty_slot, reset, emplace, emplace_from, assign_nullopt, assign_value, assign_move, value,
  has_value,
}
use dav_os.Acpi.{
  matches_from, verify_signature, validate, verify_partial_checksum, verify_full_checksum,
  sum_bytes, root_sdt_physical_address,
}
use dav_os.Heap.{Heap, get_size}

-- The text of the root pointer's signature at 0, and a checksum byte behind it that makes the sum of 20 bytes a
-- multiple of 256.
abbrev root_pointer : Bytes
root_pointer a =
    if a == 0
    then b'R'
    else if a == 1
    then b'S'
    else if a == 2
    then b'D'
    else if a == 3
    then 0x20
    else if a == 4
    then b'P'
    else if a == 5
    then b'T'
    else if a == 6
    then b'R'
    else if a == 7
    then 0x20
    else if a == 8
    then 0xdf
    else if a == 17
    then 2
    else 0

signature_holds : verify_signature 0 root_pointer ≡ true
unfolding verify_signature matches_from
signature_holds = refl

signature_fails : verify_signature 1 root_pointer ≡ false
unfolding verify_signature matches_from
signature_fails = refl

root_table_found : root_sdt_physical_address 0 root_pointer ≡ ok 0x200
unfolding root_sdt_physical_address validate verify_partial_checksum verify_full_checksum sum_bytes
root_table_found = refl

-- The new block's size is what was asked for.
abbrev one_block : Heap
one_block = record { head = 0x1000; mem = λ x. if x == 0x1000 then 100 else 0 }

size_asked : get_size 0x2010 (record one_block { mem = λ x. if x == 0x2000 then 20 else 0 }) ≡ 20
unfolding get_size
size_asked = refl

-- Slot 0 is empty, and slot 1 holds 5.
abbrev optionals : Slots ℕ
optionals x = if x == 1 then emplace 5 empty_slot else empty_slot

five : value (optionals 1) ≡ some 5
unfolding value emplace empty_slot
five = refl

nothing : has_value (assign_nullopt (optionals 1)) ≡ false
unfolding has_value assign_nullopt reset emplace empty_slot
nothing = refl

replaced : (assign_value 7 (optionals 1)).destroyed ≡ 1
unfolding assign_value emplace reset empty_slot
replaced = refl

abbrev content_of : Option (Slots ℕ) → ℕ → Option ℕ
content_of none x = none
content_of (some s) x = (s x).content

moved_to : content_of (assign_move (λ n. 0) 0 1 optionals) 0 ≡ some 5
unfolding assign_move emplace_from emplace reset empty_slot
moved_to = refl

moved_from : content_of (assign_move (λ n. 0) 0 1 optionals) 1 ≡ some 0
unfolding assign_move emplace_from emplace reset empty_slot
moved_from = refl
