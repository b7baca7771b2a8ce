-- ===== src/Startup.antt =====
-- snapshot/module/qcom-usb4-x1-startup.c: the guarded, one-attempt cold start of the X1 router. Its
-- callbacks act on a context of any type.
pub mod Steps
pub mod Outcome
pub mod Clear
mod Tests
use yoga_slim7x_usb.Base.{
  ℕ, zero, suc, List, [], ◌∷◌, Option, none, some, Bool, true, false, ◌||◌, not, ◌==◌, ◌/=◌,
  if◌then◌else◌, replicate, Status, ok, err, positive, einval, ebusy, ealready, eproto, etimedout,
  positive_as, proceed, is_ok, bit, ◌^◌,
}
use yoga_slim7x_usb.Drom.{x1_drom_build}
use yoga_slim7x_usb.Firmware.{fw_validate}
use Steps.{XStep, none_yet, validate, owner, Kind, Operation, operations}

-- `struct x1_config`; a null firmware pointer is `none`.
pub record X1Config : Type 0 where
  pub firmware : Option (List ℕ)
  pub firmware_size : ℕ
  pub serial : ℕ
  pub router : ℕ
  pub phy_rx_eq : ℕ
  pub mcu_preset : ℕ
  pub reset_release_us : ℕ

-- `enum x1_phase`.
pub data X1Phase : Type 0 where
  new running failed complete : X1Phase

-- `struct x1_state`.
pub record X1State : Type 0 where
  pub phase : X1Phase
  pub active : XStep
  pub completed : XStep
  pub error : Status

-- `struct x1_ops`; `all_set` says that no callback is a null pointer.
pub record X1Ops (S : Type 0) : Type 0 where
  pub all_set : Bool
  pub take_ownership : S → X1Config → Status × S
  pub perform : S → XStep → X1Config → Status × S
  pub read : S → ℕ → Status × ℕ × S
  pub update : S → (offset mask value : ℕ) → Status × S
  pub delay_us : S → ℕ → S

module _ (crc32c : ℕ → List ℕ → ℕ) where
  -- `validate` of a configuration and callbacks that are both given.
  unfoldable pub validate_config : {S : Type 0} → X1Config → X1Ops S → Status
  validate_config cfg ops =
      if not ops.all_set
      then err einval
      else (if (cfg.serial == 0)
            || (cfg.router /= 0)
            || (cfg.phy_rx_eq /= 0x6f)
            || (cfg.mcu_preset /= 0x0c63)
            || (cfg.reset_release_us /= 100)
          then err einval
          else (let ret = (x1_drom_build crc32c (some (replicate 116 0)) 116 cfg.serial 0).0 in
              if not (is_ok ret) then ret else fw_validate cfg.firmware cfg.firmware_size 0xf000))

module _ {S : Type 0} (ops : X1Ops S) where
  -- What the loop of `clear_1200c` does with the value that it has read.
  abbrev pub after_read : Status × ℕ × S → (S → Status × S) → Status × S
  after_read (ok, value, s) again = if not (bit value 31) then (ok, s) else again s
  after_read (err e, value, s) again = (err e, s)
  after_read (positive n, value, s) again = (positive n, s)

  -- The loop of `clear_1200c`, with `left` attempts before the timeout.
  unfoldable pub clear_loop : (left : ℕ) → S → Status × S
  clear_loop zero s = after_read (ops.read s 0x1200c) (λ t. (err etimedout, t))
  clear_loop (suc left) s =
      after_read (ops.read s 0x1200c)
        (λ t. proceed (ops.update t 0x1200c (2 ^ 31) 0) (λ u. clear_loop left (ops.delay_us u 1)))

  -- `clear_1200c`.
  unfoldable pub clear_1200c : S → Status × S
  clear_1200c s = proceed (clear_loop 11 s) (λ t. (ok, ops.delay_us t 10000))

  -- The switch of `execute`.
  unfoldable pub execute_kind : Kind → Operation → X1Config → S → Status × S
  execute_kind Kind.provider op cfg s = ops.perform s op.step cfg
  execute_kind Kind.update op cfg s = ops.update s op.offset op.mask op.value
  execute_kind Kind.delay op cfg s = (ok, ops.delay_us s op.value)
  execute_kind Kind.release_delay op cfg s = (ok, ops.delay_us s cfg.reset_release_us)
  execute_kind Kind.clear_1200c op cfg s = clear_1200c s

  -- `execute`.
  unfoldable pub execute : Operation → X1Config → S → Status × S
  execute op cfg s = execute_kind op.kind op cfg s

  -- The label `fail`.
  abbrev pub failed_with : X1State → Status → S → Status × X1State × S
  failed_with st ret s =
      let error = positive_as eproto ret in
      (error, record st { error = error; phase = X1Phase.failed }, s)

  -- What follows a call: `if (ret) goto fail; state->completed = state->active;` and the rest.
  abbrev pub or_fail :
      X1State → Status × S → (X1State → S → Status × X1State × S) → Status × X1State × S
  or_fail st (ok, s) next = next (record st { completed = st.active }) s
  or_fail st (err e, s) next = failed_with st (err e) s
  or_fail st (positive n, s) next = failed_with st (positive n) s

  -- The loop over the table, and the end of a run that completes it.
  unfoldable pub run_operations : List Operation → X1Config → X1State → S → Status × X1State × S
  run_operations [] cfg st s = (ok, record st { active = none_yet; phase = X1Phase.complete }, s)
  run_operations (op ∷ rest) cfg st s =
      or_fail (record st { active = op.step }) (execute op cfg s)
        (λ st' t. run_operations rest cfg st' t)

-- The state while the configuration is validated.
abbrev pub validating : X1State
validating = record { phase = X1Phase.running; active = validate; completed = none_yet; error = ok }

module _ (crc32c : ℕ → List ℕ → ℕ) {S : Type 0} where
  -- A run of a state that has not been used.
  unfoldable pub run_new : Option X1Config → Option (X1Ops S) → S → Status × X1State × S
  run_new (some cfg) (some ops) s =
      or_fail ops validating (validate_config crc32c cfg ops, s)
        (λ st t.
          or_fail ops (record st { active = owner }) (ops.take_ownership t cfg)
            (λ st' u. run_operations ops operations cfg st' u))
  -- `validate` refuses a null configuration and null callbacks.
  run_new cfg ops s =
      (err einval, record validating { error = err einval; phase = X1Phase.failed }, s)

  -- The test of `state->phase`.
  unfoldable pub run_phase :
      X1Phase → X1State → Option X1Config → Option (X1Ops S) → S → Status × Option X1State × S
  run_phase X1Phase.new st cfg ops s = let (ret, st', t) = run_new cfg ops s in (ret, some st', t)
  run_phase X1Phase.running st cfg ops s = (err ebusy, some st, s)
  run_phase _ st cfg ops s = (err ealready, some st, s)

  -- `x1_startup_run`; the state that `state` points to, or null.
  unfoldable pub x1_startup_run :
      Option X1State → Option X1Config → Option (X1Ops S) → S → Status × Option X1State × S
  x1_startup_run none cfg ops s = (err einval, none, s)
  x1_startup_run (some st) cfg ops s = run_phase st.phase st cfg ops s
