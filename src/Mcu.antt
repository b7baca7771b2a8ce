-- ===== src/Mcu.antt =====
-- snapshot/module/qcom-usb4-mcu.c: the microcontroller of the USB4 router, its registers and its
-- RAM. The register accessors of the kernel are parameters and act on a state of any type.
pub mod Layout
pub mod Start
mod Tests
use yoga_slim7x_usb.Base.{
  ℕ, zero, suc, ◌+◌, ◌-◌, ◌%◌, ◌^◌, bit_and, bit_or, List, Option, none, some, Bool, ◌&&◌, ◌||◌,
  not, ltb, leb, ◌==◌, ◌/=◌, if◌then◌else◌, bit, not32, le32, Status, ok, err, einval, efbig, ebusy,
  eagain, eproto, ehostdown, is_ok, checked, Out,
}
use yoga_slim7x_usb.Firmware.{fw_validate, fw_upload}
use yoga_slim7x_usb.Drom.{drom_build}

-- `enum qcom_usb4_mcu_layout`, and any other value of it.
pub data McuLayout : Type 0 where
  legacy v2 unknown : McuLayout

-- `struct qcom_usb4_mcu`; a null base is 0.
pub record Mcu : Type 0 where
  pub base : ℕ
  pub ram_size : ℕ
  pub ram_offset : ℕ
  pub control_offset : ℕ
  pub shared_offset_reg : ℕ
  pub drom_offset : ℕ

-- `readl`, `writel` and `readl_poll_timeout` of the kernel, on the device and what is behind it.
-- The poll gets the test on the value, the pause and the timeout, and returns the last value.
pub record Mmio (S : Type 0) : Type 0 where
  pub readl : S → (address : ℕ) → ℕ × S
  pub writel : S → (value address : ℕ) → S
  pub readl_poll_timeout :
      S → (address : ℕ) → (ℕ → Bool) → (sleep_us timeout_us : ℕ) → Status × (ℕ × S)

-- `a - b` of `size_t`.
abbrev pub size_sub : ℕ → ℕ → ℕ
size_sub a b = (a + 2 ^ 64 - b) % 2 ^ 64

abbrev pub zeroed_mcu : Mcu
zeroed_mcu = record {
  base = 0;
  ram_size = 0;
  ram_offset = 0;
  control_offset = 0;
  shared_offset_reg = 0;
  drom_offset = 0;
}

-- The end of `qcom_usb4_mcu_init`, from the offsets of a layout.
unfoldable pub mcu_placed : (base mapping_size ram_size ram control shared drom : ℕ) → Status × Mcu
mcu_placed base mapping_size ram_size ram control shared drom =
    if ltb mapping_size (shared + 4)
      || ltb mapping_size ram
      || ltb (mapping_size - ram) ram_size
      || (leb ram control && ltb (control - ram) ram_size)
    then (err einval, zeroed_mcu)
    else (
      ok,
      record {
        base = base;
        ram_size = ram_size;
        ram_offset = ram;
        control_offset = control;
        shared_offset_reg = shared;
        drom_offset = drom;
      },
    )

-- `switch (layout)`.
unfoldable pub mcu_of_layout : (base mapping_size ram_size : ℕ) → McuLayout → Status × Mcu
unfolding mcu_placed
mcu_of_layout base mapping_size ram_size McuLayout.legacy =
    mcu_placed base mapping_size ram_size 0x13000 0x22000 0x22010 0xdf20
mcu_of_layout base mapping_size ram_size McuLayout.v2 =
    mcu_placed base mapping_size ram_size 0x1e000 0x14000 0x14010 0xff20
mcu_of_layout base mapping_size ram_size McuLayout.unknown = (err einval, zeroed_mcu)

-- `qcom_usb4_mcu_init`; `some` is what `mcu` points to.
unfoldable pub mcu_init :
    Option Mcu → (base mapping_size ram_size : ℕ) → McuLayout → Status × Option Mcu
mcu_init none base mapping_size ram_size layout = (err einval, none)
mcu_init (some m) base mapping_size ram_size layout =
    if (base == 0) || (base % 4 /= 0) || ltb ram_size 12
    then (err einval, some zeroed_mcu)
    else (let (ret, placed) = mcu_of_layout base mapping_size ram_size layout in (ret, some placed))

-- A call on `mcu`, after `if (!mcu || !mcu->base) return -EINVAL;`.
abbrev pub on_mcu : {A : Type 0} → Option Mcu → A → (Mcu → Status × A) → Status × A
on_mcu none s f = (err einval, s)
on_mcu (some m) s f = if m.base == 0 then (err einval, s) else f m

module _ {S : Type 0} (io : Mmio S) where
  -- `qcom_usb4_mcu_write_word`.
  unfoldable pub mcu_write_word : Mcu → S → (offset value : ℕ) → Status × S
  mcu_write_word m s offset value = (ok, io.writel s value (m.base + m.ram_offset + offset))

  -- `readl(mcu->base + mcu->control_offset) & QCOM_USB4_MCU_RUN` before a call that runs on.
  abbrev pub if_running : {A : Type 0} → Mcu → S → (S → A) → (S → A) → A
  if_running m s running stopped =
      let (control, t) = io.readl s (m.base + m.control_offset) in
      if bit control 0 then running t else stopped t

  -- The writes of `qcom_usb4_mcu_upload`, once the image is valid and the firmware stopped.
  unfoldable pub mcu_upload_stopped : Mcu → List ℕ → (size : ℕ) → S → Status × S
  mcu_upload_stopped m data' size s =
      checked
        (fw_upload (some data') size m.ram_size (some (mcu_write_word m))
          (io.writel s 0 (m.base + m.control_offset)))
        (λ t. (ok, (io.readl t (m.base + m.control_offset)).1)) (λ ret t. (ret, t))

  -- `qcom_usb4_mcu_upload` of an image that is not null.
  unfoldable pub mcu_upload : Option Mcu → List ℕ → (size : ℕ) → S → Status × S
  mcu_upload mcu data' size s = on_mcu mcu s (λ m.
      let ret = fw_validate (some data') size m.ram_size in
      if not (is_ok ret)
      then (ret, s)
      else if_running m s (λ t. (err ebusy, t)) (λ t. mcu_upload_stopped m data' size t))

  -- `qcom_usb4_mcu_update`.
  unfoldable pub mcu_update : Mcu → (offset mask value : ℕ) → S → S
  mcu_update m offset mask value s =
      let (reg, t) = io.readl s (m.base + offset) in
      io.writel t (bit_or (bit_and reg (not32 mask)) (bit_and value mask)) (m.base + offset)

  -- `qcom_usb4_mcu_stop`.
  unfoldable pub mcu_stop : Mcu → S → S
  mcu_stop m s =
      let t = mcu_update m m.control_offset 1 0 s in
      let u = mcu_update m 0x8018 (2 ^ 24) 0 t in (io.readl u (m.base + 0x8018)).1

  -- The label `stop` of `qcom_usb4_mcu_start`; the shared offset is still 0.
  abbrev pub stopped_with : Mcu → Status → S → Status × (ℕ × S)
  stopped_with m ret s = (ret, (0, mcu_stop m s))

  -- The check of the shared offset.
  unfoldable pub shared_checked : Mcu → S → Status × (ℕ × S)
  shared_checked m s =
      let (offset, t) = io.readl s (m.base + m.shared_offset_reg) in
      if (offset % 4 /= 0) || ltb (size_sub m.ram_size 12) offset
      then stopped_with m (err eproto) t
      else (ok, (offset, t))

  -- The start of firmware that is stopped.
  unfoldable pub mcu_start_stopped : Mcu → S → Status × (ℕ × S)
  mcu_start_stopped m s =
      let t = mcu_update m 0x8018 (2 ^ 24) 0 s in
      let u = mcu_update m m.control_offset 1 1 t in
      checked (io.readl_poll_timeout u (m.base + 0x18) (λ status. bit status 24) 5000 1000000)
        (λ (p : ℕ × S). shared_checked m p.1) (λ ret p. stopped_with m ret p.1)

  -- `qcom_usb4_mcu_start`, whose result is stored at `shared_offset` where that is not null.
  unfoldable pub mcu_start : Option Mcu → Out ℕ → S → Status × (Out ℕ × S)
  mcu_start mcu none s = (err einval, (none, s))
  mcu_start mcu (some old) s =
      let (ret, (offset, t)) =
        on_mcu mcu (0, s)
          (λ m. if_running m s (λ t. (err ebusy, (0, t))) (λ t. mcu_start_stopped m t)) in
      (ret, (some offset, t))

  -- `qcom_usb4_mcu_command`, once its arguments are checked.
  unfoldable pub mcu_submit : Mcu → (command timeout_us : ℕ) → S → Status × S
  mcu_submit m command timeout_us s =
      let mailbox = m.base + m.control_offset + 0xc in
      let (status, t) = io.readl s (m.base + 0x18) in
      let (pending, u) = io.readl t mailbox in
      if not (bit status 24)
      then (err eagain, t)
      else (if pending /= 0
          then (err ebusy, u)
          else (let (ret, p) =
                io.readl_poll_timeout (io.writel u command mailbox) mailbox (λ value. value == 0) 1
                  timeout_us in
              (ret, p.1)))

  -- `qcom_usb4_mcu_command`.
  unfoldable pub mcu_command : Option Mcu → (command timeout_us : ℕ) → S → Status × S
  mcu_command mcu command timeout_us s = on_mcu mcu s (λ m.
      if (command == 0) || (timeout_us == 0) || ltb 1000000 timeout_us
      then (err einval, s)
      else if_running m s (λ t. mcu_submit m command timeout_us t) (λ t. (err ehostdown, t)))

  -- The loop of `qcom_usb4_mcu_store_drom`, with the words that are left.
  unfoldable pub store_words : (left i : ℕ) → Mcu → List ℕ → S → S
  store_words zero i m drom s = s
  store_words (suc left) i m drom s =
      store_words left (i + 4) m drom (mcu_write_word m s (m.drom_offset + i) (le32 drom i)).1

  -- `qcom_usb4_mcu_store_drom`.
  unfoldable pub mcu_store_drom : Mcu → List ℕ → S → S
  mcu_store_drom m drom s =
      let t = io.writel s (le32 drom 5) (m.base + 0x801c) in
      let u = io.writel t (le32 drom 1) (m.base + 0x8020) in
      (io.readl (store_words 29 0 m drom u) (m.base + m.control_offset)).1

module _ (crc32c : ℕ → List ℕ → ℕ) {S : Type 0} (io : Mmio S) where
  -- `qcom_usb4_mcu_prepare_drom`, which touches no hardware; `drom` is the caller's array.
  unfoldable pub mcu_prepare_drom :
      Option Mcu → List ℕ → (serial router : ℕ) → Status × Out (List ℕ)
  mcu_prepare_drom mcu drom serial router = on_mcu mcu (some drom) (λ m.
      if ltb m.ram_size m.drom_offset || ltb (m.ram_size - m.drom_offset) 116
      then (err efbig, some drom)
      else drom_build crc32c (some drom) 116 serial router)

  abbrev pub store_prepared : Option Mcu → Out (List ℕ) → S → S
  store_prepared (some m) (some drom) s = mcu_store_drom io m drom s
  store_prepared mcu drom s = s

  -- `qcom_usb4_mcu_write_drom`; `drom` is what its own array holds before.
  unfoldable pub mcu_write_drom : Option Mcu → List ℕ → (serial router : ℕ) → S → Status × S
  mcu_write_drom mcu drom serial router s =
      checked (mcu_prepare_drom mcu drom serial router)
        (λ d.
          on_mcu mcu s
            (λ m. if_running io m s (λ t. (err ebusy, t)) (λ t. (ok, store_prepared mcu d t))))
        (λ ret d. (ret, s))

  -- `qcom_usb4_mcu_load`.
  unfoldable pub mcu_load :
      Option Mcu → List ℕ → (size serial router : ℕ) → (drom : List ℕ) → S → Status × S
  mcu_load mcu data' size serial router drom s =
      checked (mcu_prepare_drom mcu drom serial router)
        (λ d.
          checked (mcu_upload io mcu data' size s) (λ t. (ok, store_prepared mcu d t))
            (λ ret t. (ret, t)))
        (λ ret d. (ret, s))
