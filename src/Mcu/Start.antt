-- ===== src/Mcu/Start.antt =====
-- How a start ends, and that running firmware is left alone.
use yoga_slim7x_usb.Base.{
  ℕ, ◌+◌, ◌%◌, ◌^◌, ◌≤◌, ◌<◌, ◌≡◌, refl, ap, ◌⊎◌, inl, inr, List, some, Status, ok, arith, true,
  false, bit, ◌==◌, checked-cases, is_ok, Bool-cases,
}
use yoga_slim7x_usb.Mcu.{
  Mcu, Mmio, mcu_start, mcu_start_stopped, shared_checked, stopped_with, mcu_update, mcu_upload,
  mcu_write_drom, mcu_load,
}
use yoga_slim7x_usb.Mcu.Layout.{logged}

-- A good end with a usable offset of the shared memory, or an error with the offset 0.
Ends : {S : Type 0} → Mcu → Status × (ℕ × S) → Type 0
Ends m (ret, (offset, t)) =
    ((ret ≡ ok) × (offset % 4 ≡ 0) × (offset + 12 ≤ m.ram_size))
    ⊎ ((is_ok ret ≡ false) × (offset ≡ 0))

shared_checked-Ends :
    {S : Type 0} (io : Mmio S) (m : Mcu) (s : S)
    → 12 ≤ m.ram_size
    → m.ram_size < 2 ^ 64
    → Ends m (shared_checked io m s)
unfolding shared_checked Ends
shared_checked-Ends io m s lo hi = ground arith

mcu_start_stopped-Ends :
    {S : Type 0} (io : Mmio S) (m : Mcu) (s : S)
    → 12 ≤ m.ram_size
    → m.ram_size < 2 ^ 64
    → Ends m (mcu_start_stopped io m s)
unfolding mcu_start_stopped Ends
mcu_start_stopped-Ends {S = S} io m s lo hi =
    let t = mcu_update io m m.control_offset 1 1 (mcu_update io m 0x8018 (2 ^ 24) 0 s) in
    checked-cases (Ends {S = S} m)
      (io.readl_poll_timeout t (m.base + 0x18) (λ status. bit status 24) 5000 1000000)
      (λ (p : ℕ × S). shared_checked io m p.1) (λ ret p. stopped_with io m ret p.1)
      (λ p e. shared_checked-Ends io m p.1 lo hi) (λ ret p e n. inr (n, refl))

-- A start either succeeds with an aligned offset that leaves 12 bytes of shared memory inside the
-- RAM, or returns an error and stores 0.
pub mcu_start_lem :
    {S : Type 0} (io : Mmio S) (m : Mcu) (old : ℕ) (s : S)
    → 12 ≤ m.ram_size
    → m.ram_size < 2 ^ 64
    → let q = mcu_start io (some m) (some old) s in
      ((q.0 ≡ ok)
        × (offset : ℕ) × (q.1.0 ≡ some offset)
        × (offset % 4 ≡ 0)
        × (offset + 12 ≤ m.ram_size))
      ⊎ ((is_ok q.0 ≡ false) × (q.1.0 ≡ some 0))
unfolding mcu_start Ends
mcu_start_lem io m old s lo hi =
    let k = mcu_start_stopped-Ends io m (io.readl s (m.base + m.control_offset)).1 lo hi in
    elim (Bool-cases (m.base == 0)) [
      | inl z ↦ rw z (inr (refl, refl))
      | inr z ↦ elim (Bool-cases (bit (io.readl s (m.base + m.control_offset)).0 0)) [
        | inl r ↦ rw (z, r) (inr (refl, refl))
        | inr r ↦
            rw (z, r)
              (elim k [ inl (e, a, f) ↦ inl (e, _, refl, a, f) | inr (n, e) ↦ inr (n, ap some e) ])
      ]
    ]

-- Running firmware is left alone: an upload, a descriptor, both together and a start write nothing
-- and fail, whatever the image and the descriptor are.
pub mcu_running_refused :
    (crc32c : ℕ → List ℕ → ℕ) {S : Type 0} (io : Mmio S) (m : Mcu) (p drom : List ℕ)
    (size serial router old : ℕ) (s : S) (log : List (ℕ × ℕ))
    → bit (io.readl s (m.base + m.control_offset)).0 0 ≡ true
    → let upload = mcu_upload (logged io) (some m) p size (s, log) in
      let drom_write = mcu_write_drom crc32c (logged io) (some m) drom serial router (s, log) in
      let load = mcu_load crc32c (logged io) (some m) p size serial router drom (s, log) in
      let started = mcu_start (logged io) (some m) (some old) (s, log) in
      ((is_ok upload.0 ≡ false) × (upload.1.1 ≡ log))
      × ((is_ok drom_write.0 ≡ false) × (drom_write.1.1 ≡ log))
      × ((is_ok load.0 ≡ false) × (load.1.1 ≡ log))
      × ((is_ok started.0 ≡ false) × (started.1.1.1 ≡ log))
unfolding mcu_upload mcu_write_drom mcu_load mcu_start
mcu_running_refused crc32c io m p drom size serial router old s log h = ground arith
