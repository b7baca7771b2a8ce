-- ===== src/Firmware.antt =====
-- snapshot/module/qcom-usb4-fw.c: the validation of a firmware image and its upload word by word
-- through a callback.
pub mod Image
pub mod Validate
pub mod Upload
mod Tests
use yoga_slim7x_usb.Base.{
  ℕ, zero, suc, ◌+◌, ◌-◌, ◌*◌, ◌/◌, ◌%◌, List, [], ◌∷◌, Option, none, some, ◌||◌, ltb, ◌==◌, ◌/=◌,
  if◌then◌else◌, length, drop, Status, ok, err, positive, einval, eoverflow, efbig, proceed, le32,
  u32_mod, is_ok,
}

-- The loop of `qcom_usb4_fw_validate` at `data + pos` with `left = size - pos`. Each round takes
-- at least eight bytes, so the fuel that `fw_validate` gives is never used up.
unfoldable pub validate_loop : (fuel : ℕ) → List ℕ → (left ram_size : ℕ) → Status
validate_loop zero rest left ram_size = if left == 0 then ok else err einval
validate_loop (suc n) rest left ram_size =
    let offset = le32 rest 0 in
    let words = le32 rest 4 in
    let bytes = words * 4 in
    let next = validate_loop n (drop bytes (drop 8 rest)) (left - 8 - bytes) ram_size in
    if left == 0
    then ok
    else (if ltb left 8
        then err einval
        else (if ltb ((left - 8) / 4) words
            then err einval
            else (if offset % 4 /= 0
                then err einval
                else (if ltb (u32_mod - 1 - offset) bytes
                    then err eoverflow
                    else (if ltb ram_size offset || ltb (ram_size - offset) bytes
                        then err efbig
                        else next)))))

-- `qcom_usb4_fw_validate`.
unfoldable pub fw_validate : Option (List ℕ) → (size ram_size : ℕ) → Status
fw_validate none size ram_size = err einval
fw_validate (some data') size ram_size =
    if size == 0 then err einval else validate_loop size data' size ram_size

-- The context and its callback `write_word(context, offset, value)`.
module _ {S : Type 0} (write_word : S → ℕ → ℕ → Status × S) where
  -- `while (words--)`: the words of one record.
  unfoldable pub write_words : (words offset : ℕ) → List ℕ → S → Status × S
  write_words zero offset rest s = (ok, s)
  write_words (suc n) offset rest s =
      proceed (write_word s offset (le32 rest 0))
        (write_words n ((offset + 4) % u32_mod) (drop 4 rest))

  -- The outer loop of `qcom_usb4_fw_upload`, at `data + pos`.
  unfoldable pub upload_loop : (fuel : ℕ) → List ℕ → (left : ℕ) → S → Status × S
  upload_loop zero rest left s = (ok, s)
  upload_loop (suc n) rest left s =
      let offset = le32 rest 0 in
      let words = le32 rest 4 in
      let next =
        proceed (write_words words offset (drop 8 rest) s)
          (upload_loop n (drop (words * 4) (drop 8 rest)) (left - 8 - words * 4)) in
      if left == 0 then (ok, s) else next

-- `qcom_usb4_fw_upload`; a null callback is `none`.
unfoldable pub fw_upload :
    {S : Type 0}
    → Option (List ℕ)
    → (size ram_size : ℕ) → Option (S → ℕ → ℕ → Status × S)
    → S
    → Status × S
fw_upload data' size ram_size none s = (err einval, s)
fw_upload none size ram_size (some write_word) s = (fw_validate none size ram_size, s)
fw_upload (some data') size ram_size (some write_word) s =
    let ret = fw_validate (some data') size ram_size in
    if is_ok ret then upload_loop write_word size data' size s else (ret, s)
