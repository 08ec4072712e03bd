-- ===== src/Processor/Pic.antt =====
-- `processor::remapPIC` and `disablePIC`, on interrupt controllers that keep to the documented protocol.
use dav_os.Base.{ℕ, ◌+◌, ◌/◌, ◌%◌, ◌^◌, ◌≡◌, refl, ◌==◌, [], ◌∷◌, if◌then◌else◌}
use dav_os.Base.Words.{u8}
use dav_os.Processor.{
  port_out, port_in, msr_out, word_out, interrupts_on, Trace, Machine, outb, inb, io_wait,
  outb_wait, remap_pic, disable_pic,
}

-- An 8259 controller. Stage 0 is its running mode, in which a byte at the data port is the mask; in
-- stages 1 to 3 it waits for the second, third and fourth word of the initialisation sequence.
pub record Pic : Type 0 where
  pub stage : ℕ
  pub vector_offset : ℕ
  pub cascade : ℕ
  pub mode : ℕ
  pub mask : ℕ

-- A first word (bit 4 set) starts the sequence and clears the mask.
abbrev pub command_byte : ℕ → Pic → Pic
command_byte value p = if value / 2 ^ 4 % 2 == 1 then record p { stage = 1; mask = 0 } else p

abbrev pub data_byte : ℕ → Pic → Pic
data_byte value p =
    if p.stage == 1
    then record p { stage = 2; vector_offset = value }
    else if p.stage == 2
    then record p { stage = 3; cascade = value }
    else if p.stage == 3
    then record p { stage = 0; mode = value }
    else record p { mask = value }

-- The controller with the given command port, after a trace that began with it in state `p`.
abbrev pub pic : ℕ → Pic → Trace → Pic
pic command p [] = p
pic command p (port_out port value ∷ t) =
    if port == command
    then command_byte value (pic command p t)
    else if port == command + 1
    then data_byte value (pic command p t)
    else pic command p t
pic command p (port_in port value ∷ t) = pic command p t
pic command p (msr_out msr low high ∷ t) = pic command p t
pic command p (word_out address value ∷ t) = pic command p t
pic command p (interrupts_on ∷ t) = pic command p t

module _ (p1 p2 : Pic) (d : Machine) where
  -- A read of a controller's data port gives its mask.
  abbrev pub HasPics : Type 0
  HasPics =
      ((t : Trace) → d.port t 0x21 ≡ (pic 0x20 p1 t).mask)
      × ((t : Trace) → d.port t 0xa1 ≡ (pic 0xa0 p2 t).mask)

  -- On controllers that keep to the protocol a remapping ends in running mode with the given vector
  -- offsets, as bytes, the second controller at input 2 of the first, and the masks as before.
  pub remap_pic-offsets :
      (offset1 offset2 : ℕ) (t : Trace)
      → HasPics
      → (pic 0x20 p1 (remap_pic d offset1 offset2 t) ≡ record {
        stage = 0;
        vector_offset = u8 offset1;
        cascade = 4;
        mode = 1;
        mask = u8 (pic 0x20 p1 t).mask;
      })
        × (pic 0xa0 p2 (remap_pic d offset1 offset2 t) ≡ record {
          stage = 0;
          vector_offset = u8 offset2;
          cascade = 2;
          mode = 1;
          mask = u8 (pic 0xa0 p2 t).mask;
        })
  unfolding remap_pic outb inb outb_wait io_wait
  remap_pic-offsets offset1 offset2 t h =
      let one = h.0 t in
      let two = h.1 (port_in 0x21 (u8 (d.port t 0x21)) ∷ t) in (rw one refl, rw two refl)

  -- On two interrupt controllers in running mode that keep to the documented protocol, where
  -- reading a data port gives the mask, disabling them and then remapping them, as enableAPIC
  -- does, leaves all interrupts of both masked and the vector offsets set to the given ones, as
  -- bytes.
  pub disable-remap_pic :
      (offset1 offset2 : ℕ) (t : Trace)
      → HasPics
      → (pic 0x20 p1 t).stage ≡ 0
      → (pic 0xa0 p2 t).stage ≡ 0
      → ((pic 0x20 p1 (remap_pic d offset1 offset2 (disable_pic t))).mask ≡ 0xff)
        × ((pic 0xa0 p2 (remap_pic d offset1 offset2 (disable_pic t))).mask ≡ 0xff)
        × ((pic 0x20 p1 (remap_pic d offset1 offset2 (disable_pic t))).vector_offset ≡ u8 offset1)
        × ((pic 0xa0 p2 (remap_pic d offset1 offset2 (disable_pic t))).vector_offset ≡ u8 offset2)
  unfolding disable_pic outb
  disable-remap_pic offset1 offset2 t h s1 s2 =
      let r = remap_pic-offsets offset1 offset2 (disable_pic t) h in
      (rw r.0 (rw s1 refl), rw r.1 (rw s2 refl), rw r.0 refl, rw r.1 refl)
