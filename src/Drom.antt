-- ===== src/Drom.antt =====
-- snapshot/module/qcom-usb4-drom.c and qcom-usb4-x1-drom.c: the descriptor (DROM) of the router,
-- and its X1 variant. `crc32c` of the kernel is a parameter.
pub mod Laws
mod Tests
use yoga_slim7x_usb.Base.{
  ℕ, zero, suc, ◌+◌, ◌*◌, ◌/◌, ◌%◌, ◌^◌, bit_or, bit_xor, List, [], ◌∷◌, ◌++◌, Option, none, some,
  ◌||◌, ltb, if◌then◌else◌, length, take, drop, set, Status, ok, err, positive, einval, Out,
  put_le32, overwrite, put_at, not32, bit,
}

-- `QCOM_USB4_DROM_SIZE`.
abbrev pub drom_size : ℕ
drom_size = 116

-- `qcom_usb4_drom_data`: the bytes behind the checksums.
unfoldable pub drom_data : List ℕ
drom_data =
    0x01 ∷ 0x67 ∷ 0x00 ∷ 0x28 ∷ 0x03 ∷ 0x00 ∷ 0x00 ∷ 0x00 ∷ 0x00 ∷ 0x05 ∷ 0x86 ∷ 0x00 ∷ 0x00 ∷ 0x00
    ∷ 0x05 ∷ 0x87 ∷ 0x00 ∷ 0x00 ∷ 0x00 ∷ 0x1e ∷ 0x01 ∷ 0x51 ∷ 0x75 ∷ 0x61 ∷ 0x6c ∷ 0x63 ∷ 0x6f
    ∷ 0x6d ∷ 0x6d ∷ 0x20 ∷ 0x54 ∷ 0x65 ∷ 0x63 ∷ 0x68 ∷ 0x6e ∷ 0x6f ∷ 0x6c ∷ 0x6f ∷ 0x67 ∷ 0x69
    ∷ 0x65 ∷ 0x73 ∷ 0x2c ∷ 0x20 ∷ 0x49 ∷ 0x6e ∷ 0x63 ∷ 0x2e ∷ 0x00 ∷ 0x11 ∷ 0x02 ∷ 0x53 ∷ 0x6e
    ∷ 0x61 ∷ 0x70 ∷ 0x64 ∷ 0x72 ∷ 0x61 ∷ 0x67 ∷ 0x6f ∷ 0x6e ∷ 0x20 ∷ 0x30 ∷ 0x31 ∷ 0x42 ∷ 0x00
    ∷ 0x0f ∷ 0x09 ∷ 0x10 ∷ 0x04 ∷ 0xc6 ∷ 0x05 ∷ 0x38 ∷ 0x09 ∷ 0x00 ∷ 0x00 ∷ 0xeb ∷ 0x34 ∷ 0x00
    ∷ 0x00 ∷ 0x00 ∷ 0x08 ∷ 0x82 ∷ 0x80 ∷ 0x03 ∷ 0x00 ∷ 0x00 ∷ 0x00 ∷ 0x00 ∷ 0x08 ∷ 0x83 ∷ 0x90
    ∷ 0x02 ∷ 0x00 ∷ 0x00 ∷ 0x00 ∷ 0x00 ∷ 0x03 ∷ 0x84 ∷ 0x00 ∷ 0x03 ∷ 0x08 ∷ 0x06 ∷ []

-- One bit of the checksum: `crc = (crc << 1) ^ ((crc & 0x80) ? 0x07 : 0)` on a byte.
abbrev crc_bit : ℕ → ℕ
crc_bit crc = bit_xor (crc * 2 % 256) (if bit crc 7 then 7 else 0)

abbrev crc_bits : ℕ → ℕ → ℕ
crc_bits zero crc = crc
crc_bits (suc n) crc = crc_bits n (crc_bit crc)

-- The loop of `qcom_usb4_uid_crc` over the bytes that are left.
unfoldable pub uid_crc_from : ℕ → List ℕ → ℕ
uid_crc_from crc [] = crc
uid_crc_from crc (b ∷ bs) = uid_crc_from (crc_bits 8 (bit_xor crc b)) bs

-- `qcom_usb4_uid_crc`.
unfoldable pub uid_crc : List ℕ → ℕ
unfolding uid_crc_from
uid_crc bs = uid_crc_from 0xff (take 8 bs)

-- The eight bytes that `put_unaligned_le64(v, p)` stores.
unfoldable pub put_le64 : ℕ → List ℕ
put_le64 v =
    v % 256
    ∷ v / 2 ^ 8 % 256
    ∷ v / 2 ^ 16 % 256
    ∷ v / 2 ^ 24 % 256
    ∷ v / 2 ^ 32 % 256
    ∷ v / 2 ^ 40 % 256
    ∷ v / 2 ^ 48 % 256
    ∷ v / 2 ^ 56 % 256
    ∷ []

-- `uid`, of a 32-bit serial and a router index.
unfoldable pub uid_of : (serial router : ℕ) → ℕ
uid_of serial router = bit_or (bit_or (0x5c6 * 2 ^ 48) (serial * 2 ^ 4)) router

module _ (crc32c : ℕ → List ℕ → ℕ) where
  -- `~crc32c(~0U, data + 13, ...)` over the bytes behind the checksums.
  unfoldable pub drom_crc : List ℕ → ℕ
  drom_crc bs = not32 (crc32c 0xffffffff bs)

  -- The 116 bytes that `qcom_usb4_drom_build` stores.
  unfoldable pub drom_bytes : (serial router : ℕ) → List ℕ
  drom_bytes serial router =
      let uid = put_le64 (uid_of serial router) in
      uid_crc uid ∷ (uid ++ (put_le32 (drom_crc drom_data) ++ drom_data))

  -- `qcom_usb4_drom_build`.
  unfoldable pub drom_build : Out (List ℕ) → (size serial router : ℕ) → Status × Out (List ℕ)
  drom_build none size serial router = (err einval, none)
  drom_build (some d) size serial router =
      if ltb size drom_size || ltb 2 router
      then (err einval, some d)
      else (ok, some (overwrite (drom_bytes serial router) d))

  -- The bytes that the X1 variant changes: the name, two fields, and the checksum over them.
  unfoldable pub x1_patch : List ℕ → List ℕ
  x1_patch d =
      let named = set (set (set d 0x4d b'A') 0x59 0x33) 0x5a 0x28 in
      put_at 9 (put_le32 (drom_crc (take 103 (drop 13 named)))) named

  -- The rest of `qcom_usb4_x1_drom_build`, after the call of `qcom_usb4_drom_build`.
  abbrev x1_variant : Status × Out (List ℕ) → Status × Out (List ℕ)
  x1_variant (ok, some d) = (ok, some (x1_patch d))
  x1_variant r = r

  -- `qcom_usb4_x1_drom_build`.
  unfoldable pub x1_drom_build : Out (List ℕ) → (size serial router : ℕ) → Status × Out (List ℕ)
  x1_drom_build data' size serial router = x1_variant (drom_build data' size serial router)
