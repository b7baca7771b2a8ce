-- ===== src/Packet/Event.antt =====
-- snapshot/kernel/drivers/thunderbolt/x1-event-packet.h: plug events of the root lanes and their
-- acknowledgement.
pub mod Laws
use yoga_slim7x_usb.Base.{
  ℕ, ◌+◌, ◌*◌, ◌%◌, ◌/◌, ◌^◌, bit_or, List, [], ◌∷◌, ◌++◌, Option, none, some, Bool, ◌&&◌, ◌||◌,
  ◌==◌, ◌/=◌, if◌then◌else◌, take, overwrite, bit, field, Status, ok, err, einval, eproto, ebadmsg,
  Out, be32, put_be32, Result, done, fail, finish,
}
use yoga_slim7x_usb.Packet.Address.{wire_crc}

-- `struct x1_plug_event`.
pub record X1PlugEvent : Type 0 where
  pub port : ℕ
  pub unplug : Bool

-- The event that a word of a notification stands for. `data & 0x7fffffc0` are the bits 6 to 30.
unfoldable pub event_of : ℕ → Result X1PlugEvent
event_of word =
    if (field word 6 25 /= 0) || ((field word 0 6 /= 2) && (field word 0 6 /= 3))
    then fail eproto
    else done (record { port = field word 0 6; unplug = bit word 31 })

-- The word of an acknowledgement: `(unplug ? 0xc0000000 : 0x80000000) | (port << 8) | 7`.
unfoldable pub ack_word : X1PlugEvent → ℕ
ack_word e = bit_or (bit_or (if e.unplug then 0xc0000000 else 0x80000000) (e.port * 2 ^ 8)) 7

module _ (crc32c : ℕ → List ℕ → ℕ) where
  unfoldable pub event_decoded : List ℕ → (size sof eof : ℕ) → Result X1PlugEvent
  event_decoded wire size sof eof =
      if (size /= 16) || (sof /= 0) || (eof /= 5)
      then fail eproto
      else (if be32 wire 12 /= wire_crc crc32c (take 12 wire)
          then fail ebadmsg
          else (if (be32 wire 0 /= 0x80000000) || (be32 wire 4 /= 0)
              then fail eproto
              else event_of (be32 wire 8)))

  -- `x1_event_decode`.
  unfoldable pub x1_event_decode :
      Option (List ℕ) → (size sof eof : ℕ) → Out X1PlugEvent → Status × Out X1PlugEvent
  x1_event_decode none size sof eof event = (err einval, event)
  x1_event_decode (some w) size sof eof none = (err einval, none)
  x1_event_decode (some w) size sof eof (some old) =
      finish (event_decoded w size sof eof) (some old)

  unfoldable pub ack_wire : X1PlugEvent → List ℕ
  ack_wire e =
      let head = put_be32 0 ++ (put_be32 0 ++ put_be32 (ack_word e)) in
      head ++ put_be32 (wire_crc crc32c head)

  -- `x1_event_ack`.
  unfoldable pub x1_event_ack : Out (List ℕ) → Option X1PlugEvent → Status × Out (List ℕ)
  x1_event_ack none event = (err einval, none)
  x1_event_ack (some w) none = (err einval, some w)
  x1_event_ack (some w) (some e) =
      if (e.port /= 2) && (e.port /= 3)
      then (err einval, some w)
      else (ok, some (overwrite (ack_wire e) w))
