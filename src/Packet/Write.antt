-- ===== src/Packet/Write.antt =====
-- snapshot/kernel/drivers/thunderbolt/x1-enum-packet.h: the write gate, write requests and their
-- replies.
pub mod Gate
use yoga_slim7x_usb.Base.{
  ℕ, ◌+◌, ◌-◌, ◌*◌, ◌%◌, ◌^◌, List, [], ◌∷◌, ◌++◌, Option, none, some, Bool, true, false, ◌&&◌,
  ◌||◌, not, ltb, ◌==◌, ◌/=◌, if◌then◌else◌, take, overwrite, byte_at, bit, clear_field, Status, ok,
  err, einval, eperm, eproto, ebadmsg, enolink, Out, be32, put_be32, Result, done, fail, finish,
}
use yoga_slim7x_usb.Packet.Address.{address_bits, without_port, wire_crc, put_be32_words}
use yoga_slim7x_usb.Packet.Plans.{setup_plan}

-- `struct x1_write_spec`; null pointers are `none`.
pub record X1WriteSpec : Type 0 where
  pub port : ℕ
  pub space : ℕ
  pub offset : ℕ
  pub words : ℕ
  pub seq : ℕ
  pub before : Option (List ℕ)
  pub after : Option (List ℕ)
  pub route : ℕ

-- `w[0] == a && w[1] == b && w[2] == c && w[3] == d`.
abbrev pub words_are : List ℕ → (a b c d : ℕ) → Bool
words_are w a b c d =
    (byte_at w 0 == a) && (byte_at w 1 == b) && (byte_at w 2 == c) && (byte_at w 3 == d)

-- `!x1_external_setup_plan(before, &expected) && after == expected`.
abbrev pub setup_agrees : ℕ → ℕ → Bool
setup_agrees before after = elim (setup_plan before) [ done v ↦ after == v | fail e ↦ false ]

-- Where a specification points, as the gate distinguishes it.
abbrev pub at_place : X1WriteSpec → (port space offset words : ℕ) → Bool
at_place s port space offset words =
    (s.port == port) && (s.space == space) && (s.offset == offset) && (s.words == words)

-- The two writes that are admitted to the external router on route 2.
abbrev pub external_write : X1WriteSpec → List ℕ → List ℕ → Bool
external_write s before after =
    if (s.port /= 0) || (s.space /= 2)
    then false
    else (if (s.offset == 1) && (s.words == 4)
        then (words_are before 0x00014120 0 0 0x2000000a
            && words_are after 0x00114120 2 0x80000000 0x200010ff)
        else (if (s.offset == 5) && (s.words == 1)
            then setup_agrees (byte_at before 0) (byte_at after 0)
            else false))

-- The two writes that are admitted to the root router.
abbrev pub root_write : X1WriteSpec → List ℕ → List ℕ → Bool
root_write s before after =
    if at_place s 0 2 1 4
    then (words_are before 0x0101c11c 0 0 0x2000000a
        && words_are after (byte_at before 0) 0 0x80000000 0x200010ff)
    else (if at_place s 2 1 4 1
        then (bit (byte_at before 0) 31 && (byte_at after 0 == clear_field (byte_at before 0) 31 1))
        else false)

-- The gate of `x1_write_address`, once no pointer is null.
unfoldable pub write_gate : X1WriteSpec → List ℕ → List ℕ → Result ℕ
write_gate s before after =
    if ltb 3 s.seq
    then fail einval
    else (if (if s.route == 2
          then external_write s before after
          else (if s.route /= 0 then false else root_write s before after))
        then done (address_bits s.offset s.words s.port s.space s.seq)
        else fail eperm)

-- What `x1_write_address` computes.
unfoldable pub write_address : X1WriteSpec → Result ℕ
write_address s = elim s.before [
  | none ↦ fail einval
  | some b ↦ elim s.after [ none ↦ fail einval | some a ↦ write_gate s b a ]
]

-- `x1_write_address`; a null specification is `none`.
unfoldable pub x1_write_address : Option X1WriteSpec → Out ℕ → Status × Out ℕ
x1_write_address none address = (err einval, address)
x1_write_address (some s) none = (err einval, none)
x1_write_address (some s) (some a) = finish (write_address s) (some a)

-- The words that are sent: the first `s->words` of `s->after`.
abbrev pub sent_words : X1WriteSpec → List ℕ
sent_words s = elim s.after [ none ↦ [] | some a ↦ take s.words a ]

module _ (crc32c : ℕ → List ℕ → ℕ) where
  -- The bytes of a write request.
  unfoldable pub write_wire : (route address : ℕ) → List ℕ → List ℕ
  write_wire route address ws =
      let head = put_be32 0 ++ (put_be32 route ++ (put_be32 address ++ put_be32_words ws)) in
      head ++ put_be32 (wire_crc crc32c head)

  abbrev pub send_write : X1WriteSpec → Result ℕ → Out (List ℕ) → Status × Out (List ℕ)
  send_write s (fail e) wire = (err e, wire)
  send_write s (done address) none = (err einval, none)
  send_write s (done address) (some w) =
      (ok, some (overwrite (write_wire s.route address (sent_words s)) w))

  -- `x1_write_request`.
  unfoldable pub x1_write_request : Out (List ℕ) → X1WriteSpec → Status × Out (List ℕ)
  x1_write_request wire s = send_write s (write_address s) wire

  -- The checks of `x1_write_reply` on a reply to a request at `address`.
  unfoldable pub write_reply : List ℕ → (size sof eof route address : ℕ) → Status
  write_reply wire size sof eof route address =
      if (size /= 16) || (sof /= 0)
      then err eproto
      else (if be32 wire 12 /= wire_crc crc32c (take 12 wire)
          then err ebadmsg
          else (if eof == 3
              then err enolink
              else (if (eof /= 2) || (be32 wire 0 /= 0x80000000) || (be32 wire 4 /= route)
                  then err eproto
                  else (if without_port (be32 wire 8) == without_port address
                      then ok
                      else err eproto))))

  abbrev pub receive_write : Result ℕ → Option (List ℕ) → (size sof eof route : ℕ) → Status
  receive_write (fail e) wire size sof eof route = err e
  receive_write (done address) none size sof eof route = err einval
  receive_write (done address) (some w) size sof eof route =
      write_reply w size sof eof route address

  -- `x1_write_reply`.
  unfoldable pub x1_write_reply : Option (List ℕ) → (size sof eof : ℕ) → X1WriteSpec → Status
  x1_write_reply wire size sof eof s = receive_write (write_address s) wire size sof eof s.route
