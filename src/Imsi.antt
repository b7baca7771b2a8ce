-- ===== src/Imsi.antt =====
-- experiments/el1-pci0/kernel/drivers/thunderbolt/x1-imsi-policy.c: the one-attempt policies of the
-- test of interrupt messages. What the kernel says of the devices, of the interrupt line and of the
-- registers is a parameter.
pub mod Receipts
pub mod Attempt
pub mod Global
pub mod Target
mod Tests
use yoga_slim7x_usb.Base.{
  demand, ℕ, zero, suc, ◌+◌, ◌-◌, ◌*◌, ◌%◌, ◌^◌, List, [], ◌∷◌, Option, none, some, Bool, true,
  false, ◌&&◌, ◌||◌, not, ltb, leb, ◌==◌, ◌/=◌, if◌then◌else◌, bit_and, bit_or, not32, Status, ok,
  err, einval, eio, ebusy, enodev, erange, ealready, ehostdown, positive, positive_as, Step, ◌>>>◌,
  act,
}

-- `X1_POLICY_STATUS`, `X1_POLICY_MASK`, `X1_POLICY_BANKS` and `X1_POLICY_LINK_UP`.
abbrev pub policy_status : ℕ
policy_status = 0x224

abbrev pub policy_mask : ℕ
policy_mask = 0x22c

abbrev pub policy_banks : ℕ
policy_banks = 0x7f800000

abbrev pub policy_link_up : ℕ
policy_link_up = 0x2000

abbrev pub u32_max : ℕ
u32_max = 0xffffffff

abbrev pub u64_max : ℕ
u64_max = 2 ^ 64 - 1

-- What the kernel knows of the global interrupt line.
pub record IrqLine : Type 0 where
  pub in_domain : Bool
  pub hwirq : ℕ
  pub level_high : Bool
  pub disabled : Bool
  pub has_action : Bool
  pub has_handler_data : Bool

-- A resource window of the bridge.
pub data ResourceType : Type 0 where
  bus_resource memory_resource other_resource : ResourceType

pub record ResourceWindow : Type 0 where
  pub type : ResourceType
  pub start : ℕ
  pub end : ℕ
  pub offset : ℕ

-- The devices of `struct x1_imsi_policy` and the kernel around them: `all_set` says that no pointer
-- is null, and an interrupt number that is not positive is 0.
pub record PolicyIo (S : Type 0) : Type 0 where
  pub all_set : Bool
  pub check_live : S → Status × S
  pub runtime_active : S → Bool
  pub board_admitted : S → Bool
  pub host_admitted : S → Bool
  pub owner_admitted : S → Bool
  pub parf_resource : S → Option (ℕ × ℕ)
  pub global_irq : S → ℕ
  pub irq_line : S → IrqLine
  pub readl : S → (offset : ℕ) → ℕ × S
  pub writel : S → (offset value : ℕ) → S
  pub windows : S → List (Option ResourceWindow)

-- The receipts of `struct x1_imsi_policy`.
pub record ImsiPolicy : Type 0 where
  pub global_attempted : Bool
  pub global_ready : Bool
  pub target_attempted : Bool
  pub target_ready : Bool
  pub mask_write_issued : Bool
  pub mask_write_returned : Bool
  pub mask_before : ℕ
  pub mask_after : ℕ
  pub status_before : ℕ
  pub status_after : ℕ
  pub target : ℕ
  pub memory_windows : ℕ
  pub global_error : Status
  pub target_error : Status

abbrev pub PolicyState : Type 0 → Type 0
PolicyState S = ImsiPolicy × S

-- What the values of the registers must be.
abbrev pub status_verdict : ImsiPolicy → ℕ → Status
status_verdict p v = if bit_and v (not32 policy_link_up) /= 0 then err ebusy else ok

abbrev pub mask_verdict : ImsiPolicy → ℕ → Status
mask_verdict p v =
    if v == u32_max then err eio else (if bit_or v policy_banks == u32_max then err eio else ok)

-- `desired`.
abbrev pub desired_mask : ImsiPolicy → ℕ
desired_mask p = bit_or p.mask_before policy_banks

abbrev pub is_parf : Option (ℕ × ℕ) → Bool
is_parf none = false
is_parf (some (start, size)) = (start == 0x1c28000) && (size == 0x8000)

-- The state of the line that is required.
abbrev pub line_idle : IrqLine → Bool
line_idle l =
    l.in_domain
    && (l.hwirq == 167 + 32)
    && l.level_high
    && l.disabled
    && not l.has_action
    && not l.has_handler_data

module _ {S : Type 0} (io : PolicyIo S) where
  -- `x1_policy_live`.
  unfoldable pub x1_policy_live : Step S
  x1_policy_live = (λ s. let (ret, t) = io.check_live s in (positive_as eio ret, t)) >>> λ s.
      demand (io.runtime_active s) (err ehostdown) s

  -- `x1_policy_admit`.
  unfoldable pub x1_policy_admit : Step S
  x1_policy_admit =
      demand io.all_set (err einval)
      >>> (λ s. demand (io.board_admitted s) (err enodev) s)
      >>> (λ s. demand (io.host_admitted s) (err enodev) s)
      >>> (λ s. demand (io.owner_admitted s) (err enodev) s)
      >>> (λ s. demand (is_parf (io.parf_resource s)) (err enodev) s)
      >>> x1_policy_live

  -- `x1_policy_global_idle`.
  unfoldable pub x1_policy_global_idle : (irq : ℕ) → Step S
  x1_policy_global_idle irq =
      x1_policy_live
      >>> (λ s. demand (not ((irq == 0) || (io.global_irq s /= irq))) (err einval) s)
      >>> λ s. demand (line_idle (io.irq_line s)) (err ebusy) s

  -- A step on the context alone.
  unfoldable pub on_device : Step S → Step (PolicyState S)
  on_device f (p, s) = let (ret, t) = f s in (ret, (p, t))

  -- A read of a register, kept in a receipt, and what its value must be.
  unfoldable pub read_receipt :
      (offset : ℕ)
      → (ℕ → ImsiPolicy → ImsiPolicy)
      → (ImsiPolicy → ℕ → Status)
      → Step (PolicyState S)
  read_receipt offset keep verdict (p, s) =
      let (v, t) = io.readl s offset in (verdict p v, (keep v p, t))

  -- The sole possible write.
  unfoldable pub write_mask : Step (PolicyState S)
  write_mask (p, s) =
      if desired_mask p /= p.mask_before
      then (
        ok,
        (
          record p { mask_write_issued = true; mask_write_returned = true },
          io.writel s policy_mask (desired_mask p),
        ),
      )
      else (ok, (p, s))

  -- `x1_imsi_policy_global` up to the label `out`.
  unfoldable pub global_steps : (irq : ℕ) → Step (PolicyState S)
  global_steps irq =
      on_device x1_policy_admit
      >>> on_device (x1_policy_global_idle irq)
      >>> read_receipt policy_status (λ v p. record p { status_before = v }) status_verdict
      >>> on_device (x1_policy_global_idle irq)
      >>> read_receipt policy_mask (λ v p. record p { mask_before = v }) mask_verdict
      >>> on_device (x1_policy_global_idle irq)
      >>> write_mask
      >>> read_receipt policy_mask (λ v p. record p { mask_after = v })
          (λ p v. if v /= desired_mask p then err eio else ok)
      >>> on_device (x1_policy_global_idle irq)
      >>> read_receipt policy_status (λ v p. record p { status_after = v }) status_verdict
      >>> on_device (x1_policy_global_idle irq)
      >>> act (λ t. (record t.0 { global_ready = true }, t.1))

  -- `x1_imsi_policy_global`; a null policy is `none`.
  unfoldable pub x1_imsi_policy_global :
      Option ImsiPolicy → (irq : ℕ) → S → Status × (Option ImsiPolicy × S)
  x1_imsi_policy_global none irq s = (err einval, (none, s))
  x1_imsi_policy_global (some p) irq s =
      if p.global_attempted
      then (err ealready, (some p, s))
      else (let (ret, (q, t)) = global_steps irq (record p { global_attempted = true }, s) in
          (ret, (some (record q { global_error = ret }), t)))

-- Two ranges that meet.
abbrev pub ranges_meet : (start end start' end' : ℕ) → Bool
ranges_meet s e s' e' = leb s e' && leb s' e

-- A window of the loop: its result, and how much it adds to the number of memory windows.
unfoldable pub check_memory : (target : ℕ) → ResourceWindow → Status × ℕ
check_memory target w =
    if ltb w.end w.start || ltb w.start w.offset
    then (err einval, 0)
    else (if ranges_meet target (target + 7) (w.start - w.offset) (w.end - w.offset)
          || ranges_meet target (target + 7) w.start w.end
        then (err erange, 1)
        else (ok, 1))

unfoldable pub check_window : (target : ℕ) → ResourceType → ResourceWindow → Status × ℕ
check_window target bus_resource w = (ok, 0)
check_window target memory_resource w = check_memory target w
check_window target other_resource w = (err einval, 0)

-- The next window is looked at if this one is admitted.
abbrev pub after_window : (counted : ℕ) → Status × ℕ → (ℕ → Status × ℕ) → Status × ℕ
after_window counted (ok, n) again = again (counted + n)
after_window counted (err e, n) again = (err e, counted + n)
after_window counted (positive c, n) again = (positive c, counted + n)

-- The loop over the windows, with the entries and the memory windows counted so far. A window
-- without a resource is `none`.
unfoldable pub check_windows :
    (target entries counted : ℕ) → List (Option ResourceWindow) → Status × ℕ
check_windows target entries counted [] = (ok, counted)
check_windows target entries counted (none ∷ rest) = (err einval, counted)
check_windows target entries counted (some w ∷ rest) =
    if ltb 16 (entries + 1)
    then (err einval, counted)
    else after_window counted (check_window target w.type w)
        (λ n. check_windows target (entries + 1) n rest)

module _ {S : Type 0} (io : PolicyIo S) where
  -- The loop, which counts in `memory_windows`.
  unfoldable pub exclude_windows : (target : ℕ) → Step (PolicyState S)
  exclude_windows target (p, s) =
      let (ret, n) = check_windows target 0 p.memory_windows (io.windows s) in
      (ret, (record p { memory_windows = n }, s))

  -- `x1_imsi_policy_target` up to the label `out`.
  unfoldable pub target_steps : (target : ℕ) → Step (PolicyState S)
  target_steps target =
      on_device io (x1_policy_admit io)
      >>> demand (not ((target % 8 /= 0) || ltb (u64_max - 7) target)) (err einval)
      >>> exclude_windows target
      >>> (λ t. demand (not (t.0.memory_windows == 0)) (err enodev) t)
      >>> on_device io (x1_policy_live io)
      >>> act (λ t. (record t.0 { target_ready = true }, t.1))

  -- `x1_imsi_policy_target`.
  unfoldable pub x1_imsi_policy_target :
      Option ImsiPolicy → (target : ℕ) → S → Status × (Option ImsiPolicy × S)
  x1_imsi_policy_target none target s = (err einval, (none, s))
  x1_imsi_policy_target (some p) target s =
      if p.target_attempted
      then (err ealready, (some p, s))
      else (let (ret, (q, t)) =
            target_steps target (record p { target_attempted = true; target = target }, s) in
          (ret, (some (record q { target_error = ret }), t)))
