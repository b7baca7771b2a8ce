-- ===== src/Bridge.antt =====
-- snapshot/kernel/drivers/thunderbolt/x1-pcie-init.h: the bounded initialisation of the PCIe root
-- port. The callbacks of `struct x1_pci0_io` act on a context of any type.
pub mod Tables
pub mod Trace
pub mod Plans
pub mod Alone
pub mod Costs
pub mod Bounds
pub mod Places
pub mod Train
pub mod Gate
pub mod Windows
mod Tests
use yoga_slim7x_usb.Base.{
  ℕ, zero, suc, ◌+◌, ◌/◌, ◌%◌, ◌^◌, List, [], ◌∷◌, Bool, true, false, ◌&&◌, ◌||◌, not, ltb, ◌==◌,
  ◌/=◌, if◌then◌else◌, bit_and, bit_or, not32, Status, ok, err, eio, ebusy, enodev, etimedout,
  is_ok, proceed, Step, ◌>>>◌, act, return, each,
}
use yoga_slim7x_usb.Bridge.Tables.{
  X1Pci0Region, x1_root, x1_parf, x1_router, setup_parf, setup_dbi_before, setup_dbi_after,
  windows_root, windows_parf,
}

-- `struct x1_pci0_io`, without its context.
pub record X1Pci0Io (S : Type 0) : Type 0 where
  pub read : S → X1Pci0Region → (offset : ℕ) → ℕ × S
  pub write : S → X1Pci0Region → (offset value : ℕ) → S
  pub reset : S → Bool → Status × S
  pub delay : S → (ms : ℕ) → S

module _ {S : Type 0} (io : X1Pci0Io S) where
  -- `x1_pr` where the value is not used.
  unfoldable pub x1_pr_unused : X1Pci0Region → (off : ℕ) → Step S
  x1_pr_unused r off s = let (v, t) = io.read s r off in (ok, t)

  -- `x1_pw`.
  unfoldable pub x1_pw : X1Pci0Region → (off v : ℕ) → Step S
  x1_pw r off v = act (λ s. io.write s r off v)

  unfoldable pub pause : (ms : ℕ) → Step S
  pause ms = act (λ s. io.delay s ms)

  -- `if (!p(x1_pr(io, r, off))) return ret;`
  unfoldable pub require : X1Pci0Region → (off : ℕ) → (ℕ → Bool) → Status → Step S
  require r off p ret s = let (v, t) = io.read s r off in (if p v then ok else ret, t)

  -- `x1_pm`.
  unfoldable pub x1_pm : X1Pci0Region → (off mask v : ℕ) → Step S
  x1_pm r off mask v s =
      let (old, t) = io.read s r off in
      if old == 0xffffffff
      then (err eio, t)
      else require r off (λ new. bit_and new mask == v) (err eio)
          (io.write t r off (bit_or (bit_and old (not32 mask)) v))

  -- `x1_pv`.
  unfoldable pub x1_pv : X1Pci0Region → (off v : ℕ) → Step S
  x1_pv r off v = x1_pw r off v >>> require r off (λ new. new == v) (err eio)

  -- A round of `x1_pp` on the value that it has read: `again` is the rest.
  unfoldable pub poll_round : (mask expected v : ℕ) → Step S → Step S
  poll_round mask expected v again s =
      if v == 0xffffffff
      then (err eio, s)
      else (if bit_and v mask == expected then (ok, s) else again s)

  -- `x1_pp`, with the rounds that are left after this one.
  unfoldable pub x1_pp : X1Pci0Region → (off mask expected ms : ℕ) → Step S
  x1_pp r off mask expected zero s =
      let (v, t) = io.read s r off in poll_round mask expected v (return (err etimedout)) t
  x1_pp r off mask expected (suc ms) s =
      let (v, t) = io.read s r off in
      poll_round mask expected v (pause 1 >>> x1_pp r off mask expected ms) t

  -- The quiescent signature of the root port.
  unfoldable pub quiescent : Step S
  quiescent =
      require x1_root 0 (λ v. v == 0x011117cb) (err enodev)
      >>> require x1_root 4 (λ v. v == 0x00100000) (err enodev)
      >>> require x1_root 8 (λ v. v == 0xff000001) (err enodev)
      >>> require x1_root 12 (λ v. v == 0) (err enodev)

  -- `ret = io->reset(io->ctx, ...); if (ret) return ret;` with the delay behind it.
  unfoldable pub reset_edge : Bool → Step S
  reset_edge b = (λ s. io.reset s b) >>> pause 5

  -- `x1_pci0_mode`.
  unfoldable pub x1_pci0_mode : Step S
  x1_pci0_mode =
      quiescent
      >>> require x1_router 0x82000 (λ gate. not (ltb 1 gate)) (err ebusy)
      >>> x1_pm x1_parf 0x1b0 0x100 0
      >>> x1_pv x1_router 0x82000 1
      >>> reset_edge true
      >>> reset_edge false
      >>> x1_pm x1_parf 0x1000 0xf 4
      >>> x1_pv x1_router 0x82000 0
      >>> pause 5
      >>> require x1_root 0 (λ v. v == 0x011117cb) (err enodev)
      >>> require x1_root 12 (λ v. v / 2 ^ 16 % 2 ^ 8 == 1) (err enodev)

  unfoldable pub set_values : X1Pci0Region → List (ℕ × ℕ) → Step S
  set_values r = each (λ w. x1_pv r w.0 w.1)

  unfoldable pub set_masked : X1Pci0Region → List (ℕ × ℕ × ℕ) → Step S
  set_masked r = each (λ w. x1_pm r w.0 w.1 w.2)

  -- `if (close()) return -EIO; if (ret) return ret;`
  abbrev pub closed_by : Step S → Status × S → Status × S
  closed_by close (ret, s) = let (closed, t) = close s in (if is_ok closed then ret else err eio, t)

  -- What is written while the gate of the DBI is open.
  unfoldable pub protected_fields : Step S
  protected_fields = x1_pm x1_root 8 0xffff0000 0x06040000 >>> x1_pm x1_root 0x84 0x60 0x60

  unfoldable pub gated : Step S
  gated s = closed_by (x1_pm x1_root 0x8bc 1 0) (protected_fields s)

  -- `x1_pci0_setup`.
  unfoldable pub setup_before : Step S
  setup_before =
      x1_pm x1_parf 0x1b4 0xfff 0xf40
      >>> x1_pm x1_parf 0x20 0x20 0
      >>> set_values x1_parf setup_parf
      >>> x1_pr_unused x1_parf 0x35c
      >>> set_masked x1_root setup_dbi_before

  unfoldable pub setup_after : Step S
  setup_after =
      set_masked x1_root setup_dbi_after
      >>> x1_pm x1_root 0xfe4 1 1
      >>> x1_pw x1_root 0x10 0
      >>> x1_pw x1_root 0x14 0
      >>> x1_pr_unused x1_root 0x14
      >>> x1_pm x1_root 0xfe4 1 0
      >>> x1_pm x1_root 4 6 6

  unfoldable pub x1_pci0_setup : Step S
  x1_pci0_setup = setup_before >>> x1_pm x1_root 0x8bc 1 1 >>> gated >>> setup_after

  -- `x1_pci0_reset_request`.
  unfoldable pub x1_pci0_reset_request : (bit : ℕ) → Step S
  x1_pci0_reset_request bit s =
      let (old, t) = io.read s x1_router 0xe008 in
      if (bit_and old 3 /= 0) || ((bit /= 1) && (bit /= 2))
      then (err ebusy, t)
      else x1_pp x1_router 0xe008 bit 0 10 (io.write t x1_router 0xe008 (bit_or old bit))

  -- The start of the link and the wait for it.
  unfoldable pub train_link : Step S
  train_link = x1_pm x1_parf 0x1b0 0x100 0x100 >>> x1_pp x1_root 0xf48 0x400 0x400 150

  -- A step after which 0 is written to the PARF register 0x494, whatever its result.
  abbrev pub cleared_after : Step S → Step S
  cleared_after f s = let (ret, t) = f s in (ret, io.write t x1_parf 0x494 0)

  -- `x1_pci0_train`.
  unfoldable pub x1_pci0_train : Step S
  x1_pci0_train =
      x1_pci0_reset_request 1
      >>> pause 1
      >>> x1_pci0_reset_request 2
      >>> pause 20
      >>> x1_pw x1_parf 0x494 0
      >>> x1_pw x1_parf 0x494 2
      >>> x1_pw x1_parf 0x494 0
      >>> x1_pw x1_parf 0x494 5
      >>> cleared_after train_link
      >>> x1_pp x1_parf 0x1b0 0x3f 0x11 150

  -- `x1_pci0_windows`.
  unfoldable pub x1_pci0_windows : Step S
  x1_pci0_windows =
      set_values x1_root windows_root
      >>> set_values x1_parf windows_parf
      >>> require x1_root 0x1004 (λ v. bit_and v 0x90000000 == 0x90000000) (err eio)
      >>> require x1_root 0x1204 (λ v. bit_and v 0x90000000 == 0x90000000) (err eio)
      >>> x1_pm x1_parf 0 0x44000000 0x44000000
