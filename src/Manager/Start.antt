-- ===== src/Manager/Start.antt =====
-- `x1_native_start`.
use yoga_slim7x_usb.Base.{
  ℕ, zero, suc, ◌+◌, Option, none, some, Bool, true, ◌||◌, not, ◌==◌, if◌then◌else◌, Status, ok,
  err, eperm, ealready, enomem, enodev, ebusy, is_null, is_ok, checked, Step, ◌>>>◌, demand, on_own,
  on_rest,
}
use yoga_slim7x_usb.Manager.{X1Native, new_native, ManagerKernel}

module _ {S : Type 0} (k : ManagerKernel S) where
  -- `if (readl(nhi->iobase + REG_CAPS) != 3)`.
  unfoldable pub caps_admitted : Step S
  caps_admitted s = let (v, t) = k.read_caps s in demand (v == 3) (err enodev) t

  -- The loop over the rings, from the ring `i` on.
  unfoldable pub rings_idle : (left i : ℕ) → Step S
  rings_idle zero i s = (ok, s)
  rings_idle (suc left) i s =
      let (enabled, t) = k.ring_enabled s i in
      let rest = rings_idle left (i + 1) t in if enabled then (err ebusy, t) else rest

  unfoldable pub allocated : (S → Bool × S) → Step S
  allocated f s = let (got, t) = f s in demand got (err enomem) t

  -- The part whose errors leave the interrupts as they are.
  unfoldable pub hardware_checked : Step S
  hardware_checked = caps_admitted >>> rings_idle 3 0 >>> allocated k.alloc_rings >>> k.prepare

  -- The part that ends at `mask` with its error.
  unfoldable pub domain_started : Step (X1Native × S)
  domain_started =
      on_rest k.init_interrupts
      >>> on_rest (allocated k.tb_probe)
      >>> on_own (λ n. record n { tb = true })
      >>> on_rest k.domain_add
      >>> on_own (λ n. record n { live = true })
      >>> on_rest (λ s. (ok, k.schedule_watchdog s))

  abbrev pub masked : Status × (X1Native × S) → Status × (X1Native × S)
  masked (ret, (n, s)) = (ret, (n, (if is_ok ret then s else k.disable_interrupts s)))

  unfoldable pub owner_started : S → Status × (X1Native × S)
  owner_started s =
      checked (hardware_checked s) (λ t. masked (domain_started (new_native, t)))
        (λ ret t. (ret, (new_native, t)))

  abbrev pub owned : Status × (X1Native × S) → Status × (Option X1Native × S)
  owned (ret, (n, s)) = (ret, (some n, s))

  -- `x1_native_start`; `dev` and `router` are whether the pointers are not null, an interrupt that is
  -- not positive is 0, and `enabled` is the property of the device tree.
  unfoldable pub x1_native_start :
      (dev router : Bool) → (irq : ℕ) → (enabled : Bool) → Step (Option X1Native × S)
  x1_native_start dev router irq enabled (o, s) =
      if not dev || not router || (irq == 0) || not enabled
      then (err eperm, (o, s))
      else (if not (is_null o)
          then (err ealready, (o, s))
          else (let (got, t) = k.alloc_owner s in
              if not got then (err enomem, (none, t)) else owned (owner_started t)))
