-- ===== src/Firmware/Tests.antt =====
-- Concrete images, good and bad, with a callback that logs its writes.
use yoga_slim7x_usb.Base.{
  ℕ, ◌≡◌, refl, List, [], ◌∷◌, some, Status, ok, err, efbig, length, All, arith, le32,
}
use yoga_slim7x_usb.Firmware.{fw_validate, validate_loop, fw_upload, upload_loop, write_words}
use yoga_slim7x_usb.Firmware.Image.{FwRecord, image_wire, IsByte, IsLoadable}
use yoga_slim7x_usb.Firmware.Validate.{fw_validate_accepts, fw_validate_sound}
use yoga_slim7x_usb.Firmware.Upload.{
  run_writes, image_writes, InRam, fw_upload_writes, fw_upload-InRam,
}

abbrev first : FwRecord
first = record { offset = 0; words = 17 ∷ 18 ∷ [] }

abbrev second : FwRecord
second = record { offset = 16; words = 19 ∷ [] }

first-IsLoadable : IsLoadable 32 first
first-IsLoadable = record {
  aligned = refl;
  in_ram = omega arith;
  no_wrap = omega arith;
  words_fit = (omega arith, (omega arith, tt));
}

second-IsLoadable : IsLoadable 32 second
second-IsLoadable = record {
  aligned = refl;
  in_ram = omega arith;
  no_wrap = omega arith;
  words_fit = (omega arith, tt);
}

-- A callback that keeps its writes, the last one first.
abbrev log_write : List (ℕ × ℕ) → ℕ → ℕ → Status × List (ℕ × ℕ)
log_write log offset value = (ok, (offset, value) ∷ log)

abbrev image_bytes : List ℕ
image_bytes = 0 ∷ 0 ∷ 0 ∷ 0 ∷ 1 ∷ 0 ∷ 0 ∷ 0 ∷ 17 ∷ 0 ∷ 0 ∷ 0 ∷ []

image_valid : fw_validate (some image_bytes) 12 32 ≡ ok
unfolding fw_validate validate_loop le32
image_valid = refl

upload_logs : fw_upload (some image_bytes) 12 32 (some log_write) [] ≡ (ok, (0, 17) ∷ [])
unfolding fw_upload fw_validate validate_loop upload_loop write_words le32
upload_logs = refl

-- The same record in a RAM of two bytes.
image_too_big : fw_validate (some image_bytes) 12 2 ≡ err efbig
unfolding fw_validate validate_loop le32
image_too_big = refl

image_bytes-IsByte : All IsByte image_bytes
image_bytes-IsByte = ground arith

fw_validate_accepts_example :
    fw_validate
      (some (image_wire (first ∷ second ∷ [])))
      (length (image_wire (first ∷ second ∷ [])))
      32
    ≡ ok
fw_validate_accepts_example =
    fw_validate_accepts 32 first (second ∷ []) (first-IsLoadable, (second-IsLoadable, tt))

fw_validate_sound_example :
    (rs : List FwRecord) × (image_wire rs ≡ image_bytes) × All (IsLoadable 32) rs
fw_validate_sound_example = fw_validate_sound 32 image_bytes image_bytes-IsByte image_valid

fw_upload_writes_example :
    let p = image_wire (first ∷ second ∷ []) in
    fw_upload (some p) (length p) 32 (some log_write) []
    ≡ run_writes log_write (image_writes (first ∷ second ∷ [])) []
fw_upload_writes_example =
    fw_upload_writes log_write 32 first (second ∷ []) [] (first-IsLoadable, (second-IsLoadable, tt))

fw_upload-InRam_example :
    (ws : List (ℕ × ℕ)) × (fw_upload (some image_bytes) 12 32 (some log_write) []
      ≡ run_writes log_write ws [])
    × All (InRam 32) ws
fw_upload-InRam_example = fw_upload-InRam log_write 32 image_bytes [] image_bytes-IsByte image_valid
