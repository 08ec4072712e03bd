-- ===== src/Descriptors/Idt.antt =====
-- `IDTStructure` of kernel/src/IDTStructure.cpp and `TableDescriptor` of kernel/src/TableDescriptor.cpp.
-- The byte representation of the IDT is a function of the index.
use dav_os.Base.{
  ℕ, ◌+◌, ◌-◌, ◌*◌, ◌/◌, ◌^◌, ◌<◌, ◌≡◌, ◌≢◌, refl, bit_and, bit_or, ◌&&◌, ltb, leb, if◌then◌else◌,
  List, [], ◌∷◌, get_or, arith,
}
use dav_os.Base.Words.{u8, u16}
use dav_os.Descriptors.Gdt.{SegmentSelector, PrivilegeLevel, privilege_index, to_uint16_t}

abbrev pub gate_size : ℕ
gate_size = 16

abbrev pub num_gates : ℕ
num_gates = 256

pub data GateType : Type 0 where
  interrupt trap : GateType

unfoldable pub gate_type_index : GateType → ℕ
gate_type_index interrupt = 0xe
gate_type_index trap = 0xf

pub record GateDescriptor : Type 0 where
  pub interrupt_service_routine : ℕ
  pub selector : SegmentSelector
  pub interrupt_stack_table_offset : ℕ
  pub gate_type : GateType
  pub required_privilege : PrivilegeLevel

-- The sixteen bytes that are stored, the last four included.
pub gate_bytes : GateDescriptor → List ℕ
gate_bytes g =
    let isr_address = g.interrupt_service_routine in
    let selector_bytes = to_uint16_t g.selector in
    u8 isr_address
    ∷ u8 (isr_address / 2 ^ 8)
    ∷ u8 selector_bytes
    ∷ u8 (selector_bytes / 2 ^ 8)
    ∷ u8 (bit_and g.interrupt_stack_table_offset 7)
    ∷ u8 (
        bit_or (bit_or (gate_type_index g.gate_type) (privilege_index g.required_privilege * 2 ^ 5))
          (1 * 2 ^ 7))
    ∷ u8 (isr_address / 2 ^ 16)
    ∷ u8 (isr_address / 2 ^ 24)
    ∷ u8 (isr_address / 2 ^ 32)
    ∷ u8 (isr_address / 2 ^ 40)
    ∷ u8 (isr_address / 2 ^ 48)
    ∷ u8 (isr_address / 2 ^ 56)
    ∷ 0xca
    ∷ 0xfe
    ∷ 0xba
    ∷ 0xbe
    ∷ []

-- The bytes go to `base + 0` .. `base + 15`, with `base` a `uint16_t`.
pub load_gate_descriptor : ℕ → GateDescriptor → (ℕ → ℕ) → ℕ → ℕ
load_gate_descriptor index g bytes i =
    let base = u16 (index * gate_size) in
    if leb base i && ltb i (base + gate_size) then get_or (gate_bytes g) (i - base) 0 else bytes i

-- `TableDescriptor(size, table_address)`; the size is a `uint16_t` and is stored less one.
pub table_descriptor : ℕ → ℕ → List ℕ
table_descriptor size address =
    let adjusted_size = u16 (size + (2 ^ 16 - 1)) in
    u8 adjusted_size
    ∷ u8 (adjusted_size / 2 ^ 8)
    ∷ u8 address
    ∷ u8 (address / 2 ^ 8)
    ∷ u8 (address / 2 ^ 16)
    ∷ u8 (address / 2 ^ 24)
    ∷ u8 (address / 2 ^ 32)
    ∷ u8 (address / 2 ^ 40)
    ∷ u8 (address / 2 ^ 48)
    ∷ u8 (address / 2 ^ 56)
    ∷ []

-- A number from its bytes, the lowest first.
abbrev pub little_endian : List ℕ → ℕ
little_endian [] = 0
little_endian (b ∷ bs) = b + 2 ^ 8 * little_endian bs

-- The gate that the processor reads at an index.
abbrev pub gate_byte : (ℕ → ℕ) → ℕ → ℕ → ℕ
gate_byte bytes index k = bytes (index * gate_size + k)

abbrev pub gate_address : (ℕ → ℕ) → ℕ → ℕ
gate_address bytes index =
    gate_byte bytes index 0
    + 2 ^ 8 * gate_byte bytes index 1
    + 2 ^ 16 * gate_byte bytes index 6
    + 2 ^ 24 * gate_byte bytes index 7
    + 2 ^ 32 * gate_byte bytes index 8
    + 2 ^ 40 * gate_byte bytes index 9
    + 2 ^ 48 * gate_byte bytes index 10
    + 2 ^ 56 * gate_byte bytes index 11

abbrev pub gate_selector : (ℕ → ℕ) → ℕ → ℕ
gate_selector bytes index = gate_byte bytes index 2 + 2 ^ 8 * gate_byte bytes index 3

-- For a size from 1 to 65535 and an address below 2 ^ 64, the first two bytes of the table
-- descriptor read as the size less one, and the other eight as the address.
pub table_descriptor-fields :
    (size address : ℕ)
    → 0 < size
    → size < 2 ^ 16
    → address < 2 ^ 64
    → (limit : List ℕ) × (base : List ℕ) × (table_descriptor size address
        ≡ get_or limit 0 0 ∷ get_or limit 1 0 ∷ base)
      × (little_endian limit ≡ size - 1)
      × (little_endian base ≡ address)
unfolding table_descriptor
table_descriptor-fields size address pos hs ha = (
  u8 (u16 (size + (2 ^ 16 - 1))) ∷ u8 (u16 (size + (2 ^ 16 - 1)) / 2 ^ 8) ∷ [],
  u8 address
      ∷ u8 (address / 2 ^ 8)
      ∷ u8 (address / 2 ^ 16)
      ∷ u8 (address / 2 ^ 24)
      ∷ u8 (address / 2 ^ 32)
      ∷ u8 (address / 2 ^ 40)
      ∷ u8 (address / 2 ^ 48)
      ∷ u8 (address / 2 ^ 56)
      ∷ [],
  refl,
  omega (arith, pos, hs),
  omega (arith, ha),
)

-- Loading a gate stores its bytes at its own index, and leaves those of every other gate.
load_gate_descriptor-same :
    (index k : ℕ) (g : GateDescriptor) (bytes : ℕ → ℕ)
    → index < num_gates
    → k < gate_size
    → gate_byte (load_gate_descriptor index g bytes) index k ≡ get_or (gate_bytes g) k 0
unfolding load_gate_descriptor
load_gate_descriptor-same index k g bytes hi hk =
    let here : index * gate_size + k - u16 (index * gate_size) ≡ k = omega (arith, hi, hk) in
    let base : u16 (index * gate_size) ≡ index * gate_size = omega (arith, hi) in
    rw (here, base) (ground (arith, hk))

pub load_gate_descriptor-other :
    (index other k : ℕ) (g : GateDescriptor) (bytes : ℕ → ℕ)
    → index < num_gates
    → k < gate_size
    → other ≢ index
    → gate_byte (load_gate_descriptor index g bytes) other k ≡ gate_byte bytes other k
unfolding load_gate_descriptor
load_gate_descriptor-other index other k g bytes hi hk apart = ground (arith, hi, hk, apart)

-- After a gate with a routine below 2 ^ 64 is loaded at an index below 256, that index reads as
-- the routine's whole address and the gate's selector, and every byte of every other gate as
-- before.
pub load_gate_descriptor-read :
    (index : ℕ) (g : GateDescriptor) (bytes : ℕ → ℕ)
    → index < num_gates
    → g.interrupt_service_routine < 2 ^ 64
    → (gate_address (load_gate_descriptor index g bytes) index ≡ g.interrupt_service_routine)
      × (gate_selector (load_gate_descriptor index g bytes) index ≡ to_uint16_t g.selector)
      × ((other k : ℕ)
          → k < gate_size
          → other ≢ index
          → gate_byte (load_gate_descriptor index g bytes) other k ≡ gate_byte bytes other k)
unfolding gate_bytes to_uint16_t
load_gate_descriptor-read index g bytes hi ha =
    let at : (k : ℕ)
        → k < gate_size
        → gate_byte (load_gate_descriptor index g bytes) index k ≡ get_or (gate_bytes g) k 0 =
      λ k h. load_gate_descriptor-same index k g bytes hi h in
    (
      rw
          (
            at 0 (omega arith),
            at 1 (omega arith),
            at 6 (omega arith),
            at 7 (omega arith),
            at 8 (omega arith),
            at 9 (omega arith),
            at 10 (omega arith),
            at 11 (omega arith),
          )
          (omega (arith, ha)),
      rw (at 2 (omega arith), at 3 (omega arith)) (omega arith),
      λ other k hk apart. load_gate_descriptor-other index other k g bytes hi hk apart,
    )
