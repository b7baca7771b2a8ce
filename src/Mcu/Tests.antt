-- ===== src/Mcu/Tests.antt =====
-- Concrete runs on a device whose registers are an association list, the last write first.
use yoga_slim7x_usb.Base.{
  ℕ, ◌+◌, ◌≡◌, refl, List, [], ◌∷◌, some, ok, arith, false, ◌==◌, if◌then◌else◌, is_ok, All,
  replicate, le32,
}
use yoga_slim7x_usb.Firmware.{fw_validate, validate_loop}
use yoga_slim7x_usb.Firmware.Image.{FwRecord, IsByte, IsLoadable, image_wire}
use yoga_slim7x_usb.Firmware.Upload.{InRam, image_writes}
use yoga_slim7x_usb.Mcu.{
  Mcu, McuLayout, Mmio, zeroed_mcu, mcu_init, mcu_of_layout, mcu_placed, mcu_upload, mcu_start,
  mcu_write_drom, mcu_load,
}
use yoga_slim7x_usb.Mcu.Layout.{IsPlaced, mcu_init-IsPlaced, logged, stored, mcu_upload_stores}
use yoga_slim7x_usb.Mcu.Start.{mcu_running_refused}

abbrev register : List (ℕ × ℕ) → ℕ → ℕ
register [] a = 0
register ((b, v) ∷ rest) a = if a == b then v else register rest a

-- A device that is ready as soon as it is polled for it.
abbrev device : Mmio (List (ℕ × ℕ))
device = record {
  readl = λ s a. (register s a, s);
  writel = λ s v a. (a, v) ∷ s;
  readl_poll_timeout = λ s a test us max. (ok, (0, s));
}

abbrev v2_mcu : Mcu
v2_mcu = record {
  base = 4096;
  ram_size = 0x10000;
  ram_offset = 0x1e000;
  control_offset = 0x14000;
  shared_offset_reg = 0x14010;
  drom_offset = 0xff20;
}

v2_placed : mcu_init (some zeroed_mcu) 4096 0x40000 0x10000 McuLayout.v2 ≡ (ok, some v2_mcu)
unfolding mcu_init mcu_of_layout mcu_placed
v2_placed = refl

mcu_init-IsPlaced_example : IsPlaced v2_mcu 4096 0x40000 0x10000
mcu_init-IsPlaced_example =
    mcu_init-IsPlaced zeroed_mcu v2_mcu 4096 0x40000 0x10000 McuLayout.v2 v2_placed

abbrev one_word : List ℕ
one_word = 0 ∷ 0 ∷ 0 ∷ 0 ∷ 1 ∷ 0 ∷ 0 ∷ 0 ∷ 17 ∷ 0 ∷ 0 ∷ 0 ∷ []

one_word-IsByte : All IsByte one_word
one_word-IsByte = ground arith

one_word_valid : fw_validate (some one_word) 12 0x10000 ≡ ok
unfolding fw_validate validate_loop le32
one_word_valid = refl

mcu_upload_stores_example :
    let q = mcu_upload (logged device) (some v2_mcu) one_word 12 ([], []) in
    (rs : List FwRecord) × (image_wire rs ≡ one_word)
    × All (IsLoadable 0x10000) rs
    × All (InRam 0x10000) (image_writes rs)
    × (q.0 ≡ ok)
    × (q.1.1 ≡ stored v2_mcu (image_writes rs) ((0, 4096 + 0x14000) ∷ []))
mcu_upload_stores_example =
    mcu_upload_stores device v2_mcu one_word [] [] (λ h. ground arith) one_word-IsByte
      one_word_valid refl

abbrev plain_crc : ℕ → List ℕ → ℕ
plain_crc crc p = crc

-- The firmware is running.
abbrev running : List (ℕ × ℕ)
running = (4096 + 0x14000, 1) ∷ []

mcu_running_refused_example :
    let upload = mcu_upload (logged device) (some v2_mcu) one_word 12 (running, []) in
    let drom_write =
      mcu_write_drom plain_crc (logged device) (some v2_mcu) (replicate 116 0) 7 0 (running, []) in
    let load =
      mcu_load plain_crc
        (logged device)
        (some v2_mcu)
        one_word
        12
        7
        0
        (replicate 116 0)
        (running, []) in
    let started = mcu_start (logged device) (some v2_mcu) (some 5) (running, []) in
    ((is_ok upload.0 ≡ false) × (upload.1.1 ≡ []))
    × ((is_ok drom_write.0 ≡ false) × (drom_write.1.1 ≡ []))
    × ((is_ok load.0 ≡ false) × (load.1.1 ≡ []))
    × ((is_ok started.0 ≡ false) × (started.1.1.1 ≡ []))
mcu_running_refused_example =
    mcu_running_refused plain_crc device v2_mcu one_word (replicate 116 0) 12 7 0 5 running [] refl
