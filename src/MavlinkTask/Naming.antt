-- ===== src/MavlinkTask/Naming.antt =====
-- The names of src/mavlink.cpp's housekeeping values, as far as NAMED_VALUE_INT carries them.
use boredom_os.Prelude.{
  ℕ, zero, suc, ◌-◌, ◌<◌, ◌==◌, ◌&&◌, ◌≡◌, ◌∙◌, sym, ap, refl, Bool, true, false, List, [], ◌∷◌,
  if◌then◌else◌,
}
use boredom_os.Recovery.{System}
use boredom_os.Mavlink.{housekeeping_slots}
use boredom_os.MavlinkTask.{Config, Intent}
use boredom_os.MavlinkTask.Sends.{housekeeping_name}
use boredom_os.MavlinkTask.Rotation.{below_slots}
use boredom_os.MavlinkTask.Packing.{
  Packed, named_value_int_pack, name_field, packed_named_value_int, packed_intent, mavlink_pack,
}

same_bytes : List ℕ → List ℕ → Bool
same_bytes [] [] = true
same_bytes (a ∷ xs) (b ∷ ys) = a == b && same_bytes xs ys
same_bytes xs ys = false

-- The slot that ten bytes name, over the slots left.
slot_named : ℕ → List ℕ → ℕ
slot_named zero field = housekeeping_slots
slot_named (suc left) field =
    let slot = housekeeping_slots - suc left in
    let rest = slot_named left field in
    if same_bytes (name_field (housekeeping_name slot)) field then slot else rest

slot_named-name_field :
    (slot : ℕ)
    → slot < housekeeping_slots
    → slot_named housekeeping_slots (name_field (housekeeping_name slot)) ≡ slot
unfolding slot_named same_bytes housekeeping_name
slot_named-name_field = below_slots _ refl refl refl refl refl refl refl refl refl

-- The bytes of the name in a call's message.
abbrev pub name_of : Packed → List ℕ
name_of (named_value_int_pack boot_ms name value) = name
name_of packed = []

-- Two housekeeping values of slots of the rotation whose messages carry the same ten bytes of name,
-- for whatever ports, at whatever times and with whatever numbers they are packed, are of the same
-- slot: no two names of the heap's and the table's agree in what NAMED_VALUE_INT carries of them.
pub told_apart :
    (config : Config) (block block' : System)
    (boot_ms boot_ms' chan chan' slot slot' value value' : ℕ)
    → slot < housekeeping_slots
    → slot' < housekeeping_slots
    → let call =
        mavlink_pack config block boot_ms chan
          (Intent.named_value_int (housekeeping_name slot) value) in
      let call' =
        mavlink_pack config block' boot_ms' chan'
          (Intent.named_value_int (housekeeping_name slot') value') in
      name_of call.packed ≡ name_of call'.packed → slot ≡ slot'
unfolding mavlink_pack packed_intent packed_named_value_int
told_apart config block block' boot_ms boot_ms' chan chan' slot slot' value value' lt lt' same =
    sym (slot_named-name_field slot lt)
    ∙ ap (slot_named housekeeping_slots) same
    ∙ slot_named-name_field slot' lt'
