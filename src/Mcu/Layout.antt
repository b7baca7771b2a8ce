-- ===== src/Mcu/Layout.antt =====
-- Where the microcontroller's RAM lies, and what an upload writes there.
use yoga_slim7x_usb.Base.{
  ℕ, ◌+◌, ◌%◌, ◌≤◌, ◌≡◌, ◌≢◌, refl, ap, ◌∙◌, ◌⊎◌, List, [], ◌∷◌, some, Status, ok, err, positive,
  arith, ◌==◌, length, All, bit, false, checked,
}
use yoga_slim7x_usb.Firmware.{fw_validate, fw_upload}
use yoga_slim7x_usb.Firmware.Image.{IsByte, FwRecord, image_wire, IsLoadable}
use yoga_slim7x_usb.Firmware.Upload.{run_writes, InRam, fw_upload-image, image_writes}
use yoga_slim7x_usb.Mcu.{
  Mcu, McuLayout, Mmio, mcu_placed, mcu_of_layout, mcu_init, mcu_write_word, mcu_upload,
  mcu_upload_stopped,
}

-- What `mcu` describes after it has been initialised for a mapping.
pub record IsPlaced (m : Mcu) (base mapping_size ram_size : ℕ) : Type 0 where
  pub at_base : (m.base ≡ base) × (base ≢ 0) × (base % 4 ≡ 0)
  pub of_size : (m.ram_size ≡ ram_size) × (12 ≤ ram_size)
  pub ram_mapped : (m.ram_offset % 4 ≡ 0) × (m.ram_offset + ram_size ≤ mapping_size)
  pub registers_aligned : (m.control_offset % 4 ≡ 0) × (m.shared_offset_reg % 4 ≡ 0)
  pub registers_ordered : m.control_offset + 16 ≡ m.shared_offset_reg
  pub registers_mapped : m.shared_offset_reg + 4 ≤ mapping_size
  pub ram_apart :
      (m.ram_offset + ram_size ≤ m.control_offset) ⊎ (m.shared_offset_reg + 4 ≤ m.ram_offset)

mcu_of_layout-IsPlaced :
    (base mapping_size ram_size : ℕ) (layout : McuLayout) (m : Mcu)
    → base ≢ 0
    → base % 4 ≡ 0
    → 12 ≤ ram_size
    → mcu_of_layout base mapping_size ram_size layout ≡ (ok, m)
    → IsPlaced m base mapping_size ram_size
unfolding mcu_of_layout mcu_placed
mcu_of_layout-IsPlaced base mapping ram McuLayout.legacy m hb ha hr h = ground arith
mcu_of_layout-IsPlaced base mapping ram McuLayout.v2 m hb ha hr h = ground arith
mcu_of_layout-IsPlaced base mapping ram McuLayout.unknown m hb ha hr h = ground arith

-- An initialised microcontroller has its RAM, of at least 12 bytes, and its control registers inside
-- the mapping, aligned, and apart from each other, in both layouts: the registers are the 20 bytes
-- from the control register to the end of that of the shared offset.
pub mcu_init-IsPlaced :
    (before m : Mcu) (base mapping_size ram_size : ℕ) (layout : McuLayout)
    → mcu_init (some before) base mapping_size ram_size layout ≡ (ok, some m)
    → IsPlaced m base mapping_size ram_size
unfolding mcu_init
mcu_init-IsPlaced before m base mapping ram layout h =
    let k = mcu_of_layout-IsPlaced base mapping ram layout m in ground arith

-- Accessors that keep the writes, a value and its address, beside what they do, the last one first.
abbrev pub logged : {S : Type 0} → Mmio S → Mmio (S × List (ℕ × ℕ))
logged io = record {
  readl = λ s a. let (v, t) = io.readl s.0 a in (v, (t, s.1));
  writel = λ s v a. (io.writel s.0 v a, (v, a) ∷ s.1);
  readl_poll_timeout = λ s a test us max.
      let (ret, (v, t)) = io.readl_poll_timeout s.0 a test us max in (ret, (v, (t, s.1)));
}

-- The log after the words of an image have been stored, the last one first.
unfoldable pub stored : Mcu → List (ℕ × ℕ) → List (ℕ × ℕ) → List (ℕ × ℕ)
stored m [] log = log
stored m ((offset, value) ∷ ws) log = stored m ws ((value, m.base + m.ram_offset + offset) ∷ log)

run_writes-stored :
    {S : Type 0} (io : Mmio S) (m : Mcu) (ws : List (ℕ × ℕ)) (s : S × List (ℕ × ℕ))
    → let q = run_writes (mcu_write_word (logged io) m) ws s in
      (q.0 ≡ ok) × (q.1.1 ≡ stored m ws s.1)
unfolding run_writes mcu_write_word stored
run_writes-stored io m [] s = (refl, refl)
run_writes-stored io m ((o, v) ∷ ws) s =
    run_writes-stored io m ws
      (io.writel s.0 v (m.base + m.ram_offset + o), (v, m.base + m.ram_offset + o) ∷ s.1)

-- The readback that flushes the writes.
flushed :
    {S : Type 0} (io : Mmio S) (address : ℕ) (r : Status × (S × List (ℕ × ℕ)))
    → r.0 ≡ ok
    → let q : Status × (S × List (ℕ × ℕ)) =
        checked r (λ t. (ok, ((logged io).readl t address).1)) (λ ret t. (ret, t)) in
      (q.0 ≡ ok) × (q.1.1 ≡ r.1.1)
flushed io address (ok, t) h = (refl, refl)
flushed io address (err e, t) h = absurd cc
flushed io address (positive n, t) h = absurd cc

upload_stopped-stored :
    {S : Type 0} (io : Mmio S) (m : Mcu) (p : List ℕ) (s : S × List (ℕ × ℕ))
    → All IsByte p
    → fw_validate (some p) (length p) m.ram_size ≡ ok
    → let q = mcu_upload_stopped (logged io) m p (length p) s in
      (rs : List FwRecord) × (image_wire rs ≡ p)
      × All (IsLoadable m.ram_size) rs
      × All (InRam m.ram_size) (image_writes rs)
      × (q.0 ≡ ok)
      × (q.1.1 ≡ stored m (image_writes rs) ((0, m.base + m.control_offset) ∷ s.1))
unfolding mcu_upload_stopped
upload_stopped-stored io m p s b v =
    let t = (logged io).writel s 0 (m.base + m.control_offset) in
    let (rs, wire, loadable, e, good) =
      fw_upload-image (mcu_write_word (logged io) m) m.ram_size p t b v in
    let (fine, log) = run_writes-stored io m (image_writes rs) t in
    let done' =
      flushed io (m.base + m.control_offset)
        (fw_upload (some p) (length p) m.ram_size (some (mcu_write_word (logged io) m)) t)
        (ap (λ q. q.0) e ∙ fine) in
    (rs, wire, loadable, good, done'.0, done'.1 ∙ ap (λ q. q.1.1) e ∙ log)

-- Uploading a valid image to stopped firmware succeeds: the image is that of a list of loadable
-- records, and the writes are 0 to the control register and then exactly the words of these records,
-- each at its own address, in the order of the image; they are 32-bit words at aligned addresses of
-- the RAM.
pub mcu_upload_stores :
    {S : Type 0} (io : Mmio S) (m : Mcu) (p : List ℕ) (s : S) (log : List (ℕ × ℕ))
    → m.base ≢ 0
    → All IsByte p
    → fw_validate (some p) (length p) m.ram_size ≡ ok
    → bit (io.readl s (m.base + m.control_offset)).0 0 ≡ false
    → let q = mcu_upload (logged io) (some m) p (length p) (s, log) in
      (rs : List FwRecord) × (image_wire rs ≡ p)
      × All (IsLoadable m.ram_size) rs
      × All (InRam m.ram_size) (image_writes rs)
      × (q.0 ≡ ok)
      × (q.1.1 ≡ stored m (image_writes rs) ((0, m.base + m.control_offset) ∷ log))
unfolding mcu_upload
mcu_upload_stores io m p s log hb b v h =
    let given : (m.base == 0) ≡ false = ground arith in
    rw (given, v, h)
      (upload_stopped-stored io m p ((io.readl s (m.base + m.control_offset)).1, log) b v)
