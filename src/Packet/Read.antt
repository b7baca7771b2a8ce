-- ===== src/Packet/Read.antt =====
-- snapshot/kernel/drivers/thunderbolt/x1-link-packet.h: bounded read requests and their replies;
-- and x1-diag-packet.h, the fixed request of five router words.
use yoga_slim7x_usb.Base.{
  ℕ, ◌+◌, ◌-◌, ◌*◌, ◌^◌, ◌%◌, bit_or, List, ◌++◌, Option, none, some, Bool, ◌&&◌, ◌||◌, not, ltb,
  leb, ◌==◌, ◌/=◌, if◌then◌else◌, take, drop, overwrite, Status, ok, err, einval, eproto, ebadmsg,
  enolink, Out, be32, put_be32, Result, done, fail, finish,
}
use yoga_slim7x_usb.Packet.Address.{address_bits, without_port, wire_crc, be32_words}

-- `struct x1_read_spec`.
pub record X1ReadSpec : Type 0 where
  pub route : ℕ
  pub port : ℕ
  pub space : ℕ
  pub offset : ℕ
  pub words : ℕ
  pub seq : ℕ

-- The reads of router space that are admitted, for a router port.
abbrev pub router_read : X1ReadSpec → Bool
router_read s =
    ((s.offset == 0) && (s.words == 5))
    || ((s.offset == 5) && (s.words == 4))
    || ((s.route == 2) && ((s.offset == 5) || (s.offset == 6)) && (s.words == 1))
    || (leb 9 s.offset && leb s.words 2)

-- The guard of `x1_read_address`.
abbrev pub read_refused : X1ReadSpec → Bool
read_refused s =
    ((s.route /= 0) && (s.route /= 2))
    || ltb 7 s.port
    || ltb 3 s.seq
    || (s.words == 0)
    || ltb 8 s.words
    || ltb 255 s.offset
    || ltb 256 (s.offset + s.words)
    || ((s.space /= 1) && (s.space /= 2))
    || ((s.space == 2) && ((s.port /= 0) || not (router_read s)))
    || ((s.space == 1) && ((s.port == 0) || ((s.route /= 0) && ltb 5 s.port)))

-- What `x1_read_address` computes; a null specification is `none`.
unfoldable pub read_address : Option X1ReadSpec → Result ℕ
read_address none = fail einval
read_address (some s) =
    if read_refused s
    then fail einval
    else done (address_bits s.offset s.words s.port s.space s.seq)

-- `x1_read_address`.
unfoldable pub x1_read_address : Option X1ReadSpec → Out ℕ → Status × Out ℕ
x1_read_address s none = (err einval, none)
x1_read_address s (some a) = finish (read_address s) (some a)

module _ (crc32c : ℕ → List ℕ → ℕ) where
  -- The 16 bytes of a read request.
  unfoldable pub read_wire : (route address : ℕ) → List ℕ
  read_wire route address =
      let head = put_be32 0 ++ (put_be32 route ++ put_be32 address) in
      head ++ put_be32 (wire_crc crc32c head)

  -- The bytes that a request stores, once its address is known: `if (ret || !wire) ...`.
  abbrev pub send_read : X1ReadSpec → Result ℕ → Out (List ℕ) → Status × Out (List ℕ)
  send_read s (fail e) wire = (err e, wire)
  send_read s (done address) none = (err einval, none)
  send_read s (done address) (some w) = (ok, some (overwrite (read_wire s.route address) w))

  -- `x1_read_request`.
  unfoldable pub x1_read_request : Out (List ℕ) → X1ReadSpec → Status × Out (List ℕ)
  x1_read_request wire s = send_read s (read_address (some s)) wire

  -- The checks of `x1_read_reply` on a reply to a request at `address`, and the words it carries.
  unfoldable pub read_reply : List ℕ → (size sof eof : ℕ) → X1ReadSpec → ℕ → Result (List ℕ)
  read_reply wire size sof eof s address =
      if ltb size 16 || ltb 48 size || (sof /= 0) || (size % 4 /= 0)
      then fail eproto
      else (if be32 wire (size - 4) /= wire_crc crc32c (take (size - 4) wire)
          then fail ebadmsg
          else (if eof == 3
              then (if size /= 16 then fail eproto else fail enolink)
              else (if (eof /= 1)
                    || (size /= 16 + 4 * s.words)
                    || (be32 wire 0 /= 0x80000000)
                    || (be32 wire 4 /= s.route)
                  then fail eproto
                  else (if without_port (be32 wire 8) /= without_port address
                      then fail eproto
                      else done (be32_words s.words (drop 12 wire))))))

  -- A reply, once the address of the request is known: `if (ret || !wire || !words) ...`.
  abbrev pub receive_read :
      Result ℕ
      → Option (List ℕ)
      → (size sof eof : ℕ) → X1ReadSpec
      → Out (List ℕ)
      → Status × Out (List ℕ)
  receive_read (fail e) wire size sof eof s words = (err e, words)
  receive_read (done address) none size sof eof s words = (err einval, words)
  receive_read (done address) (some w) size sof eof s none = (err einval, none)
  receive_read (done address) (some w) size sof eof s (some old) =
      elim (read_reply w size sof eof s address) [
        | fail e ↦ (err e, some old)
        | done got ↦ (ok, some (overwrite got old))
      ]

  -- `x1_read_reply`; the words are stored at the start of the caller's array.
  unfoldable pub x1_read_reply :
      Option (List ℕ) → (size sof eof : ℕ) → X1ReadSpec → Out (List ℕ) → Status × Out (List ℕ)
  x1_read_reply wire size sof eof s words =
      receive_read (read_address (some s)) wire size sof eof s words

  -- `x1_packet_request`: the request of five words of the root router's header.
  unfoldable pub x1_packet_request : (seq : ℕ) → List ℕ
  x1_packet_request seq =
      let head =
        put_be32 0
        ++ (put_be32 0 ++ put_be32 (bit_or (bit_or (5 * 2 ^ 13) (2 * 2 ^ 25)) (seq * 2 ^ 27))) in
      head ++ put_be32 (wire_crc crc32c head)

  -- `x1_packet_reply`.
  unfoldable pub x1_packet_reply : List ℕ → (size sof eof seq : ℕ) → List ℕ → Status × List ℕ
  x1_packet_reply wire size sof eof seq words =
      if (size /= 36) || (sof /= 0) || (eof /= 1) || ltb 1 seq
      then (err eproto, words)
      else (if be32 wire (size - 4) /= wire_crc crc32c (take (size - 4) wire)
          then (err ebadmsg, words)
          else (if (be32 wire 0 /= 0x80000000) || (be32 wire 4 /= 0)
              then (err eproto, words)
              else (if without_port (be32 wire 8)
                    /= bit_or (bit_or (5 * 2 ^ 13) (2 * 2 ^ 25)) (seq * 2 ^ 27)
                  then (err eproto, words)
                  else (ok, overwrite (be32_words 5 (drop 12 wire)) words))))
