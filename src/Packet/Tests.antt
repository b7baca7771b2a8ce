-- ===== src/Packet/Tests.antt =====
-- Concrete packets, with a stand-in for the kernel's checksum.
use yoga_slim7x_usb.Base.{
  ℕ, ◌+◌, ◌≤◌, ◌≡◌, refl, ◌⊎◌, List, [], ◌∷◌, ◌++◌, some, true, false, ok, done, arith, be32,
  overwrite, replicate, put_be32,
}
use yoga_slim7x_usb.Packet.Address.{wire_crc, address_bits}
use yoga_slim7x_usb.Packet.Read.{
  X1ReadSpec, read_address, read_wire, x1_read_request, x1_read_reply,
}
use yoga_slim7x_usb.Packet.ReadLaws.{
  InWindow, Requests, x1_read_request_lem, reply_wire, x1_read_reply-reply_wire,
}
use yoga_slim7x_usb.Packet.Write.{X1WriteSpec, write_gate}
use yoga_slim7x_usb.Packet.Write.Gate.{
  Admitted, configure_root, write_gate_sound, write_gate_complete,
}
use yoga_slim7x_usb.Packet.Plans.{root_plan}
use yoga_slim7x_usb.Packet.Event.{X1PlugEvent, event_of, event_decoded, x1_event_decode}

abbrev flip_crc : ℕ → List ℕ → ℕ
flip_crc crc p = crc

-- The header of the drive's router.
abbrev drive_header : X1ReadSpec
drive_header = record { route = 2; port = 0; space = 2; offset = 0; words = 5; seq = 1 }

abbrev drive_address : ℕ
drive_address = address_bits 0 5 0 2 1

abbrev packet : List ℕ
packet = replicate 16 9

abbrev request : List ℕ
request = overwrite (read_wire flip_crc 2 drive_address) packet

drive_admitted : read_address (some drive_header) ≡ done drive_address
unfolding read_address
drive_admitted = refl

request_stored : x1_read_request flip_crc (some packet) drive_header ≡ (ok, some request)
unfolding x1_read_request read_address
request_stored = refl

x1_read_request_lem_example :
    Requests flip_crc request drive_header
    × ((drive_header.route ≡ 0) ⊎ (drive_header.route ≡ 2))
    × (drive_header.words ≤ 8)
    × (drive_header.offset + drive_header.words ≤ 256)
    × InWindow drive_header
x1_read_request_lem_example =
    x1_read_request_lem flip_crc drive_header packet request request_stored

abbrev five_words : List ℕ
five_words = 0x113b059f ∷ 0x00014120 ∷ 0 ∷ 0 ∷ 0x2000000a ∷ []

x1_read_reply-reply_wire_example :
    x1_read_reply flip_crc
      (some (reply_wire flip_crc drive_header 3 five_words))
      36
      0
      1
      drive_header
      (some (replicate 8 0))
    ≡ (ok, some (overwrite five_words (replicate 8 0)))
x1_read_reply-reply_wire_example =
    x1_read_reply-reply_wire flip_crc drive_header 3 five_words (replicate 8 0) drive_address
      drive_admitted (omega arith) refl
      (omega arith, (omega arith, (omega arith, (omega arith, (omega arith, tt)))))

abbrev root_before : List ℕ
root_before = 0x0101c11c ∷ 0 ∷ 0 ∷ 0x2000000a ∷ []

abbrev root_after : List ℕ
root_after = 0x0101c11c ∷ 0 ∷ 0x80000000 ∷ 0x200010ff ∷ []

-- The write that configures the root router.
abbrev root_config : X1WriteSpec
root_config = record {
  port = 0;
  space = 2;
  offset = 1;
  words = 4;
  seq = 2;
  before = some root_before;
  after = some root_after;
  route = 0;
}

root_admitted : write_gate root_config root_before root_after ≡ done (address_bits 1 4 0 2 2)
unfolding write_gate
root_admitted = refl

write_gate_sound_example :
    Admitted root_config root_before root_after
    × (root_config.seq ≤ 3)
    × (address_bits 1 4 0 2 2 ≡ address_bits 1 4 0 2 2)
write_gate_sound_example =
    write_gate_sound root_config root_before root_after (address_bits 1 4 0 2 2) root_admitted

root_planned : root_plan (0x093805c6 ∷ root_before) ≡ done root_after
unfolding root_plan
root_planned = refl

write_gate_complete_example :
    write_gate root_config root_before root_after ≡ done (address_bits 1 4 0 2 2)
write_gate_complete_example =
    write_gate_complete root_config root_before root_after (omega arith)
      (configure_root refl (refl, refl, refl, refl) root_planned)

-- Lane port 2 has been unplugged.
abbrev unplug_head : List ℕ
unplug_head = 0x80 ∷ 0 ∷ 0 ∷ 0 ∷ 0 ∷ 0 ∷ 0 ∷ 0 ∷ 0x80 ∷ 0 ∷ 0 ∷ 2 ∷ []

abbrev unplug_event : List ℕ
unplug_event = unplug_head ++ put_be32 (wire_crc flip_crc unplug_head)

abbrev no_event : X1PlugEvent
no_event = record { port = 0; unplug = false }

abbrev lane_unplugged : X1PlugEvent
lane_unplugged = record { port = 2; unplug = true }

event_decodes :
    x1_event_decode flip_crc (some unplug_event) 16 0 5 (some no_event) ≡ (ok, some lane_unplugged)
unfolding x1_event_decode event_decoded event_of be32 put_be32
event_decodes = refl
