-- ===== src/Receiver.antt =====
-- experiments/el1-pci0/kernel/drivers/thunderbolt/x1-imsi.c: how the receiver of interrupt messages
-- is stopped, released and retired. The registers and the interrupt and domain structures of the
-- kernel act on a context of any type.
pub mod Accesses
pub mod Receipts
pub mod Order
mod Tests
use yoga_slim7x_usb.Base.{
  ℕ, zero, suc, ◌+◌, ◌*◌, List, [], ◌∷◌, Option, none, some, Bool, true, false, ◌&&◌, ◌||◌, not,
  ◌==◌, ◌/=◌, if◌then◌else◌, Errno, Status, ok, err, positive, einval, eio, eperm, ealready, enoent,
  is_ok, proceed, Step, ◌>>>◌,
}

-- `struct x1_imsi_stop`.
pub record ImsiStop : Type 0 where
  pub attempted : Bool
  pub finished : Bool
  pub banks_disabled : ℕ
  pub parents_detached : ℕ
  pub error : Status

-- `struct x1_imsi_receipt`, as far as these calls use it, and the fields of `struct x1_imsi`: a
-- pointer is kept as whether it is set.
pub record X1Imsi : Type 0 where
  pub retained : Bool
  pub domain_ready : Bool
  pub target_reserved : Bool
  pub associated : Bool
  pub ready : Bool
  pub banks : ℕ
  pub error : Status
  pub stop : ImsiStop
  pub release_attempted : Bool
  pub released : Bool
  pub release_error : Status
  pub irq_domain : Bool
  pub use_imsi_rx : Bool
  pub num_vectors : ℕ
  pub parents : List ℕ
  pub msi_irq : List ℕ
  pub msi_data : ℕ
  pub target_group : Bool
  pub target_group_closed : Bool
  pub dbi_kept : Bool

-- What the calls use of the kernel. The offsets of the registers are those of DesignWare's header.
pub record ImsiIo (S : Type 0) : Type 0 where
  pub mask_offset : ℕ
  pub enable_offset : ℕ
  pub block_size : ℕ
  pub readl : S → (offset : ℕ) → ℕ × S
  pub writel : S → (offset value : ℕ) → S
  pub keep_irq_mask : S → (bank value : ℕ) → S
  pub vectors_in_use : S → Bool
  pub has_handler_data : S → (irq : ℕ) → Bool
  pub owns_handler_data : S → (irq : ℕ) → Bool
  pub has_action : S → (irq : ℕ) → Bool
  pub disable_irq : S → (irq : ℕ) → S
  pub detach : S → (irq : ℕ) → S
  pub bridge_present : S → Bool
  pub bridge_bus : S → Bool
  pub bridge_registered : S → Bool
  pub bridge_domain_kept : S → Bool
  pub bridge_msi_domain : S → Bool
  pub leave_domain : S → S
  pub free_msi : S → S
  pub release_group : S → Status × S

abbrev pub State : Type 0 → Type 0
State S = X1Imsi × S

-- `r->parents[i] > 0 && pp->msi_irq[i] == r->parents[i] && p(r->parents[i])` for every parent.
unfoldable pub all_parents : (p : ℕ → Bool) → (parents msi_irq : List ℕ) → Bool
all_parents p [] _ = true
all_parents p (irq ∷ rest) [] = false
all_parents p (irq ∷ rest) (own ∷ others) =
    (irq /= 0) && (own == irq) && p irq && all_parents p rest others

-- The same for the parents alone.
unfoldable pub each_parent : (p : ℕ → Bool) → (parents : List ℕ) → Bool
each_parent p [] = true
each_parent p (irq ∷ rest) = (irq /= 0) && p irq && each_parent p rest

module _ {S : Type 0} (io : ImsiIo S) where
  -- `x1_imsi_write_checked`.
  unfoldable pub x1_imsi_write_checked : (offset value : ℕ) → Step S
  x1_imsi_write_checked offset value s =
      let (v, t) = io.readl (io.writel s offset value) offset in
      (if v == value then ok else err eio, t)

  -- One bank is masked and disabled.
  unfoldable pub disable_bank : (bank : ℕ) → Step S
  disable_bank i s =
      (x1_imsi_write_checked (io.mask_offset + i * io.block_size) 0xffffffff
          >>> x1_imsi_write_checked (io.enable_offset + i * io.block_size) 0)
        (io.keep_irq_mask s i 0xffffffff)

  -- The loop over the banks, with those that are left, up to the first that fails; and how many
  -- were disabled.
  abbrev pub counted_bank : Status × S → (S → Status × (ℕ × S)) → Status × (ℕ × S)
  counted_bank (ok, s) again = let (ret, (n, t)) = again s in (ret, (n + 1, t))
  counted_bank (err e, s) again = (err e, (0, s))
  counted_bank (positive c, s) again = (positive c, (0, s))

  unfoldable pub disable_banks : (left bank : ℕ) → S → Status × (ℕ × S)
  disable_banks zero i s = (ok, (0, s))
  disable_banks (suc left) i s = counted_bank (disable_bank i s) (disable_banks left (i + 1))

  -- The loop over the parents, with the result so far; and how many were detached.
  unfoldable pub detach_parents : List ℕ → Status → S → Status × (ℕ × S)
  detach_parents [] ret s = (ret, (0, s))
  detach_parents (irq ∷ rest) ret s =
      let t = io.detach (io.disable_irq s irq) irq in
      let kept = io.has_handler_data t irq in
      let (ret', (n, u)) = detach_parents rest (if kept then err eio else ret) t in
      (ret', ((if kept then n else n + 1), u))

  -- The condition for a stop.
  unfoldable pub stop_admitted : X1Imsi → S → Bool
  stop_admitted r s =
      r.ready
      && is_ok r.error
      && r.retained
      && r.associated
      && r.domain_ready
      && r.target_reserved
      && r.irq_domain
      && r.use_imsi_rx
      && (r.num_vectors == 256)
      && (r.banks == 8)
      && r.dbi_kept
      && all_parents (io.owns_handler_data s) r.parents r.msi_irq
      && not (io.vectors_in_use s)

  -- The body of a stop that is admitted.
  unfoldable pub stop_now : X1Imsi → S → Status × State S
  stop_now r s =
      let (disabled, (banks, t)) = disable_banks 8 0 s in
      let (ret, (parents, u)) = detach_parents r.parents disabled t in
      (
        ret,
        (
          record r {
            stop = record {
              attempted = true;
              finished = is_ok ret;
              banks_disabled = r.stop.banks_disabled + banks;
              parents_detached = r.stop.parents_detached + parents;
              error = ret;
            };
          },
          u,
        ),
      )

  -- `x1_imsi_stop_retained`, of a receiver.
  unfoldable pub x1_imsi_stop_retained : Step (State S)
  x1_imsi_stop_retained (r, s) =
      if r.stop.attempted
      then (err ealready, (r, s))
      else (if not (stop_admitted r s) then (err eperm, (r, s)) else stop_now r s)

  -- The condition for a release.
  unfoldable pub release_admitted : X1Imsi → S → Bool
  release_admitted r s =
      r.ready
      && is_ok r.error
      && r.retained
      && r.associated
      && r.domain_ready
      && r.target_reserved
      && r.stop.attempted
      && r.stop.finished
      && is_ok r.stop.error
      && (r.stop.banks_disabled == 8)
      && (r.stop.parents_detached == 8)
      && r.target_group
      && r.target_group_closed
      && r.irq_domain
      && (r.num_vectors == 256)
      && not (io.vectors_in_use s)
      && io.bridge_present s
      && not (io.bridge_bus s)
      && not (io.bridge_registered s)
      && io.bridge_domain_kept s
      && io.bridge_msi_domain s
      && all_parents (λ irq. not (io.has_handler_data s irq || io.has_action s irq)) r.parents
          r.msi_irq

  -- The receiver once its domain is removed.
  abbrev pub without_domain : X1Imsi → X1Imsi
  without_domain r = record r {
    release_attempted = true;
    associated = false;
    irq_domain = false;
    use_imsi_rx = false;
    domain_ready = false;
    ready = false;
  }

  -- The end of a release: `devres_release_group` returns how many resources it has released.
  unfoldable pub group_released : X1Imsi → Status × S → Status × State S
  group_released r (ok, s) = (err enoent, (record r { release_error = err enoent }, s))
  group_released r (err e, s) = (err e, (record r { release_error = err e }, s))
  group_released r (positive n, s) = (
    ok,
    (record r { target_group = false; msi_data = 0; target_reserved = false; released = true }, s),
  )

  unfoldable pub release_now : Step (State S)
  release_now (r, s) =
      group_released (without_domain r) (io.release_group (io.free_msi (io.leave_domain s)))

  -- `x1_imsi_release_stopped`, of a receiver and a callback.
  unfoldable pub x1_imsi_release_stopped : (check_stopped : Step S) → Step (State S)
  x1_imsi_release_stopped check_stopped (r, s) =
      if r.release_attempted
      then (err ealready, (r, s))
      else (if not (release_admitted r s)
          then (err eperm, (r, s))
          else (let (ret, t) = check_stopped s in proceed (ret, (r, t)) release_now))

  -- The condition for a retirement, of the active receiver.
  unfoldable pub retire_admitted : X1Imsi → S → Bool
  retire_admitted r s =
      r.released
      && is_ok r.release_error
      && r.stop.finished
      && is_ok r.stop.error
      && not r.ready
      && not r.associated
      && not r.domain_ready
      && not r.target_reserved
      && not r.irq_domain
      && not r.target_group
      && not (io.bridge_bus s)
      && not (io.bridge_registered s)
      && each_parent (λ irq. not (io.has_handler_data s irq || io.has_action s irq)) r.parents

  -- `x1_imsi_retire_context`; the first component says whether the receiver is the active one.
  unfoldable pub x1_imsi_retire_context :
      (check_stopped : Step S) → (active : Bool) → State S → Status × (Bool × State S)
  x1_imsi_retire_context check_stopped active (r, s) =
      if not (active && retire_admitted r s)
      then (err eperm, (active, (r, s)))
      else (let (ret, t) = check_stopped s in (ret, (active && not (is_ok ret), (r, t))))
