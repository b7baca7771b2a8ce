-- ===== src/Packet/Event/Laws.antt =====
-- A plug event is decoded to the port and direction that it reports, and acknowledged as such.
use yoga_slim7x_usb.Base.{
  ℕ, ◌+◌, ◌*◌, ◌^◌, ◌<◌, ◌≡◌, refl, ◌⊎◌, List, some, Bool, true, false, ok, take, bit, field, be32,
  arith, if◌then◌else◌,
}
use yoga_slim7x_usb.Base.Bits.{bit_or_fields_high}
use yoga_slim7x_usb.Packet.Address.{wire_crc}
use yoga_slim7x_usb.Packet.Event.{X1PlugEvent, event_of, event_decoded, x1_event_decode, ack_word}

-- What an event says, whatever list of bytes carries it: sixteen bytes with a good checksum from
-- the root router, a lane port, and the unplug bit.
pub x1_event_decode_sound :
    (crc32c : ℕ → List ℕ → ℕ) (w : List ℕ) (size sof eof : ℕ) (old e : X1PlugEvent)
    → x1_event_decode crc32c (some w) size sof eof (some old) ≡ (ok, some e)
    → (size ≡ 16)
      × (eof ≡ 5)
      × (be32 w 12 ≡ wire_crc crc32c (take 12 w))
      × (be32 w 4 ≡ 0)
      × ((e.port ≡ 2) ⊎ (e.port ≡ 3))
      × (e.port ≡ field (be32 w 8) 0 6)
      × (e.unplug ≡ bit (be32 w 8) 31)
unfolding x1_event_decode event_decoded event_of
x1_event_decode_sound crc32c w size sof eof old e h = ground arith

ack_flags :
    (u : Bool)
    → (if u then 0xc0000000 else 0x80000000) ≡ (if u then 0x300000 else 0x200000) * 2 ^ 10
ack_flags true = refl
ack_flags false = refl

above_port : (flags port : ℕ) → (flags * 2 ^ 10) + port * 2 ^ 8 ≡ (flags * 4 + port) * 2 ^ 8
above_port flags port = omega arith

ack_word-eq :
    (e : X1PlugEvent)
    → e.port < 4
    → ack_word e ≡ (if e.unplug then 0x300000 else 0x200000) * 2 ^ 10 + e.port * 2 ^ 8 + 7
unfolding ack_word
ack_word-eq e h =
    rw
      (
        ack_flags e.unplug,
        bit_or_fields_high 10 (if e.unplug then 0x300000 else 0x200000) (e.port * 2 ^ 8)
            (omega arith),
        above_port (if e.unplug then 0x300000 else 0x200000) e.port,
        bit_or_fields_high 8 ((if e.unplug then 0x300000 else 0x200000) * 4 + e.port) 7
            (omega arith),
      )
      refl

-- The acknowledgement of an event on a lane port reports the event's own port and direction with
-- the code 7, in the top half of the third word.
pub ack_word-fields :
    (e : X1PlugEvent)
    → (e.port ≡ 2) ⊎ (e.port ≡ 3)
    → (bit (ack_word e) 30 ≡ e.unplug)
      × (field (ack_word e) 8 6 ≡ e.port)
      × (field (ack_word e) 0 8 ≡ 7)
ack_word-fields e h = let w = ack_word-eq e (ground arith) in ground arith
