-- ===== src/Packet/Address.antt =====
-- The third word of a control packet: offset, length, port, space and sequence number.
use yoga_slim7x_usb.Base.{
  ℕ, zero, suc, ◌+◌, ◌*◌, ◌^◌, ◌<◌, bit_or, ◌≡◌, refl, List, [], ◌∷◌, ◌++◌, arith, clear_field,
  not32, be32, put_be32, drop, length, u32_mod, be32-put_be32, ap₂, All, take, take-length-append,
  be32-append, append-nil,
}
use yoga_slim7x_usb.Base.Bits.{bit_or_fields}

-- `offset | (words << 13) | (port << 19) | (space << 25) | (seq << 27)`.
unfoldable pub address_bits : (offset words port space seq : ℕ) → ℕ
address_bits offset words port space seq =
    bit_or (bit_or (bit_or (bit_or offset (words * 2 ^ 13)) (port * 2 ^ 19)) (space * 2 ^ 25))
      (seq * 2 ^ 27)

-- Fields in their ranges do not overlap.
pub address_bits-eq-sum :
    (offset words port space seq : ℕ)
    → offset < 2 ^ 13
    → words < 2 ^ 6
    → port < 2 ^ 6
    → space < 4
    → address_bits offset words port space seq
      ≡ offset + words * 2 ^ 13 + port * 2 ^ 19 + space * 2 ^ 25 + seq * 2 ^ 27
unfolding address_bits
address_bits-eq-sum o w p s q ho hw hp hs =
    let e1 : bit_or o (w * 2 ^ 13) ≡ o + w * 2 ^ 13 = bit_or_fields 13 w o ho in
    let e2 : bit_or (o + w * 2 ^ 13) (p * 2 ^ 19) ≡ o + w * 2 ^ 13 + p * 2 ^ 19 =
      bit_or_fields 19 p (o + w * 2 ^ 13) (omega arith) in
    let e3 : bit_or (o + w * 2 ^ 13 + p * 2 ^ 19) (s * 2 ^ 25)
        ≡ o + w * 2 ^ 13 + p * 2 ^ 19 + s * 2 ^ 25 =
      bit_or_fields 25 s (o + w * 2 ^ 13 + p * 2 ^ 19) (omega arith) in
    rw (e1, e2, e3) (bit_or_fields 27 q (o + w * 2 ^ 13 + p * 2 ^ 19 + s * 2 ^ 25) (omega arith))

-- `x & ~(0x3fU << 19)`: an address without its port, which a reply fills in otherwise.
abbrev pub without_port : ℕ → ℕ
without_port x = clear_field x 19 6

-- `~crc32c(~0U, wire, size)` over the bytes that stand in front of it.
abbrev pub wire_crc : (ℕ → List ℕ → ℕ) → List ℕ → ℕ
wire_crc crc32c p = not32 (crc32c 0xffffffff p)

-- The words that stand at `wire + 12`, `wire + 16` and so on.
unfoldable pub be32_words : (n : ℕ) → List ℕ → List ℕ
be32_words zero p = []
be32_words (suc n) p = be32 p 0 ∷ be32_words n (drop 4 p)

-- The bytes of a list of words.
unfoldable pub put_be32_words : List ℕ → List ℕ
put_be32_words [] = []
put_be32_words (w ∷ ws) = put_be32 w ++ put_be32_words ws

pub length-put_be32_words : (ws : List ℕ) → length (put_be32_words ws) ≡ 4 * length ws
unfolding put_be32_words put_be32
length-put_be32_words [] = refl
length-put_be32_words (w ∷ ws) = omega (arith, length-put_be32_words ws)

-- Words are read back from their bytes.
pub be32_words-put :
    (ws rest : List ℕ)
    → All (λ w. w < u32_mod) ws
    → be32_words (length ws) (put_be32_words ws ++ rest) ≡ ws
unfolding be32_words put_be32_words put_be32
be32_words-put [] rest h = refl
be32_words-put (w ∷ ws) rest h =
    ap₂ ◌∷◌ (be32-put_be32 w (put_be32_words ws ++ rest) h.0) (be32_words-put ws rest h.1)

-- The first three words of a packet.
pub head_words :
    (a b c : ℕ) (rest : List ℕ)
    → a < u32_mod
    → b < u32_mod
    → c < u32_mod
    → let p = put_be32 a ++ (put_be32 b ++ (put_be32 c ++ rest)) in
      (be32 p 0 ≡ a) × (be32 p 4 ≡ b) × (be32 p 8 ≡ c) × (drop 12 p ≡ rest)
unfolding put_be32 be32
head_words a b c rest ha hb hc = (omega arith, omega arith, omega arith, refl)

pub wire_crc-lt : (crc32c : ℕ → List ℕ → ℕ) (p : List ℕ) → wire_crc crc32c p < u32_mod
wire_crc-lt crc32c p = omega arith

-- A packet that ends in the checksum of what stands in front of it passes the check.
pub crc_checked :
    (crc32c : ℕ → List ℕ → ℕ) (head : List ℕ) (n : ℕ)
    → n ≡ length head
    → let p = head ++ put_be32 (wire_crc crc32c head) in be32 p n ≡ wire_crc crc32c (take n p)
crc_checked crc32c head n e =
    let c : List ℕ = put_be32 (wire_crc crc32c head) in
    rw (e, take-length-append head c, be32-append head c)
      (rw (← append-nil c) (be32-put_be32 (wire_crc crc32c head) [] (wire_crc-lt crc32c head)))
