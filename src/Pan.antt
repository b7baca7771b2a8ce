-- ===== src/Pan.antt =====
-- snapshot/kernel/drivers/soc/qcom/yoga_pan_packet.h: the 32-byte PAN message of the Type-C
-- firmware, decoded without interpreting unknown bits.
pub mod Plan
pub mod Wire
mod Tests
use yoga_slim7x_usb.Base.{
  ℕ, ◌+◌, ◌/◌, ◌%◌, List, [], ◌∷◌, Option, none, some, ◌||◌, leb, ◌/=◌, if◌then◌else◌, Status, err,
  einval, ebadmsg, Result, done, fail, Out, finish, byte_at, le16, le32,
}

-- `struct yoga_pan`; `ext` has eight bytes.
pub record Pan : Type 0 where
  pub port : ℕ
  pub orientation_raw : ℕ
  pub mux_raw : ℕ
  pub ext : List ℕ
  pub vid : ℕ
  pub svid_header : ℕ
  pub svid_payload : ℕ

-- The fields of `v`, at their offsets in the message.
abbrev pan_fields : List ℕ → Pan
pan_fields p = record {
  port = byte_at p 12;
  orientation_raw = byte_at p 13;
  mux_raw = byte_at p 14;
  ext =
      byte_at p 20
      ∷ byte_at p 21
      ∷ byte_at p 22
      ∷ byte_at p 23
      ∷ byte_at p 24
      ∷ byte_at p 25
      ∷ byte_at p 26
      ∷ byte_at p 27
      ∷ [];
  vid = le16 p 16;
  svid_header = le32 p 8 / 65536;
  svid_payload = le16 p 18;
}

abbrev pan_decoded : List ℕ → ℕ → Result Pan
pan_decoded p len =
    if len /= 32
    then fail einval
    else (if le32 p 0 /= 32780 || le32 p 4 /= 2 || le32 p 8 % 65536 /= 0x16 || leb 3 (byte_at p 12)
        then fail ebadmsg
        else done (pan_fields p))

-- `yoga_pan_decode`.
unfoldable pub yoga_pan_decode : Option (List ℕ) → ℕ → Out Pan → Status × Out Pan
yoga_pan_decode none len out = (err einval, out)
yoga_pan_decode (some p) len none = (err einval, none)
yoga_pan_decode (some p) len (some v) = finish (pan_decoded p len) (some v)
