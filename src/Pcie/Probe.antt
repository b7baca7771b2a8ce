-- ===== src/Pcie/Probe.antt =====
-- `x1_bridge_probe` and `x1_bridge_init_resources`. What the kernel finds and does is a parameter.
use yoga_slim7x_usb.Base.{
  ℕ, zero, suc, ◌+◌, List, ◌++◌, Option, none, some, Bool, true, false, ◌&&◌, not, ◌==◌,
  if◌then◌else◌, Status, ok, err, positive, eperm, einval, ebusy, enodev, enomem, Result, done,
  fail, proceed, Step, ◌>>>◌, demand, on_own, on_rest,
}
use yoga_slim7x_usb.Bridge.{X1Pci0Io, x1_pci0_mode, x1_pci0_setup}
use yoga_slim7x_usb.Pcie.{X1Bridge, no_bridge, PciDevice, fixup_all}
use yoga_slim7x_usb.Pcie.Root.{x1_root_validate}

-- A phandle with its arguments: whether its node is the clock controller, how many arguments it has
-- and the first.
pub record Specifier : Type 0 where
  pub is_gcc : Bool
  pub args_count : ℕ
  pub arg : ℕ

-- What the device tree and the other drivers say. A resource is its start and size; what cannot be
-- read is `none`. `pipe_clock` and `tunnel_reset` are numbers of the clock controller's binding.
pub record Platform : Type 0 where
  pub hyp_mode : Bool
  pub board_allowed : Bool
  pub nhi_complete : Bool
  pub is_test : Bool
  pub is_init : Bool
  pub pcie6_disabled : Bool
  pub pcie5_disabled : Bool
  pub ecam_resource : Option (ℕ × ℕ)
  pub parf_resource : Option (ℕ × ℕ)
  pub domain : Option ℕ
  pub smmu_reserved : Bool
  pub usb4_clock_index : Option ℕ
  pub clock_count : Option ℕ
  pub clock : Result Specifier
  pub reset : Result Specifier
  pub reset_count : Option ℕ
  pub pipe_clock : ℕ
  pub tunnel_reset : ℕ

-- The calls of the kernel. An interconnect path is `false` where it is null; the probe of the host
-- bridge and the rescan have the devices that they found; `bound` is whether a device has a driver.
pub record PcieKernel (S : Type 0) : Type 0 where
  pub platform : S → Platform
  pub io : X1Pci0Io S
  pub alloc_owner : S → Bool × S
  pub map_parf : Step S
  pub get_reset : Step S
  pub get_clock : ℕ → Step S
  pub get_mem_path : S → Result Bool × S
  pub get_cfg_path : S → Result Bool × S
  pub resume : Step S
  pub forbid : S → S
  pub enable_clock : ℕ → Step S
  pub set_mem_bandwidth : Step S
  pub set_cfg_bandwidth : Step S
  pub alloc_host : S → Bool × S
  pub ecam_create : Step S
  pub host_probe : S → Status × (List PciDevice × S)
  pub driver_register : S → Status × (Bool × S)
  pub rescan : S → List PciDevice × S
  pub bound : S → (identity : ℕ) → Bool

-- `ARRAY_SIZE(clock_names)`.
abbrev pub clock_names : ℕ
clock_names = 8

-- The conditions that `x1_pcie_start` and `x1_bridge_probe` share.
unfoldable pub gates_open : Platform → Bool
gates_open p =
    not p.hyp_mode
    && p.board_allowed
    && p.nhi_complete
    && p.is_test
    && p.is_init
    && p.pcie6_disabled
    && p.pcie5_disabled

abbrev pub resource_is : Option (ℕ × ℕ) → (start size : ℕ) → Bool
resource_is none start size = false
resource_is (some (a, n)) start size = (a == start) && (n == size)

abbrev pub number_is : Option ℕ → ℕ → Bool
number_is none n = false
number_is (some m) n = m == n

-- `if (ret) return ret;` and `if (!valid) return -EPERM;` on a phandle.
unfoldable pub specifier_verdict : Result Specifier → (arg : ℕ) → (single : Bool) → Status
specifier_verdict (fail e) arg single = err e
specifier_verdict (done c) arg single =
    if c.is_gcc && (c.args_count == 1) && (c.arg == arg) && single then ok else err eperm

-- The checks of `x1_bridge_init_resources`.
unfoldable pub resources_admitted : (router : Bool) → Platform → Bool
resources_admitted router p = router && resource_is p.parf_resource 0x1c28000 0x8000 && p.is_init

unfoldable pub clocks_admitted : Platform → Bool
clocks_admitted p = number_is p.usb4_clock_index 0 && number_is p.clock_count clock_names

-- The first checks of `x1_bridge_probe`.
unfoldable pub address_admitted : Platform → Bool
address_admitted p = resource_is p.ecam_resource 0x400000000 0x10000000 && number_is p.domain 0

-- The owner with the devices that the PCI core has found, and the rest.
abbrev pub Owned : Type 0 → Type 0
Owned S = X1Bridge × (List PciDevice × S)

module _ {S : Type 0} (k : PcieKernel S) where
  -- `return ret` of a verdict on the platform of the moment.
  unfoldable pub demand_status : (Platform → Status) → Step S
  demand_status verdict s = (verdict (k.platform s), s)

  unfoldable pub demand_platform : (Platform → Bool) → Status → Step S
  demand_platform test ret s = demand (test (k.platform s)) ret s

  -- `x1_bridge_init_resources`.
  unfoldable pub x1_bridge_init_resources : (router : Bool) → Step S
  x1_bridge_init_resources router =
      demand_platform (resources_admitted router) (err eperm)
      >>> demand_platform clocks_admitted (err eperm)
      >>> demand_status (λ p. specifier_verdict p.clock p.pipe_clock true)
      >>> demand_status (λ p. specifier_verdict p.reset p.tunnel_reset (number_is p.reset_count 1))
      >>> k.map_parf
      >>> k.get_reset

  -- The loop of `devm_clk_get`, from the clock `i` on.
  unfoldable pub get_clocks : (left i : ℕ) → Step S
  get_clocks zero i s = (ok, s)
  get_clocks (suc left) i s = proceed (k.get_clock i s) (get_clocks left (i + 1))

  -- The two paths of the interconnect; a null path is refused once both are there.
  abbrev pub path_verdict : Result Bool → Status
  path_verdict (fail e) = err e
  path_verdict (done present) = ok

  abbrev pub present_path : Result Bool → Bool
  present_path (fail e) = false
  present_path (done present) = present

  unfoldable pub get_paths : Step S
  get_paths s =
      let (mem, t) = k.get_mem_path s in
      proceed (path_verdict mem, t)
        (λ u.
          let (cfg, v) = k.get_cfg_path u in
          proceed (path_verdict cfg, v)
            (demand (present_path mem && present_path cfg) (err enodev)))

  abbrev pub allocate : (S → Bool × S) → Step S
  allocate f s = let (got, t) = f s in (if got then ok else err enomem, t)

  -- `x1_bridge_probe` up to the moment in which the owner is set.
  unfoldable pub probe_admit : (window router owned : Bool) → Step S
  probe_admit window router owned =
      demand_platform (λ p. window && gates_open p) (err eperm)
      >>> demand_platform address_admitted (err einval)
      >>> demand_platform (λ p. p.smmu_reserved) (err eperm)
      >>> demand (not owned) (err ebusy)
      >>> allocate k.alloc_owner
      >>> x1_bridge_init_resources router
      >>> get_clocks clock_names 0
      >>> get_paths

  -- `if (ret < 0) goto failed;`
  abbrev pub negative_only : Status × S → Status × S
  negative_only (ok, s) = (ok, s)
  negative_only (err e, s) = (err e, s)
  negative_only (positive n, s) = (ok, s)

  -- A call that does not change the owner.
  unfoldable pub outside : Step S → Step (Owned S)
  outside f = on_rest (on_rest f)

  -- The clocks, of which those that are enabled are counted.
  unfoldable pub enable_clocks : (left i : ℕ) → Step (Owned S)
  enable_clocks zero i t = (ok, t)
  enable_clocks (suc left) i t =
      (outside (k.enable_clock i)
          >>> on_own (λ b. record b { enabled = b.enabled + 1 })
          >>> enable_clocks left (i + 1))
        t

  -- A validation between the calls on the owner and the rest.
  unfoldable pub validate : Step (Owned S)
  validate (b, (ds, s)) = let (ret, (c, t)) = x1_root_validate k.io (b, s) in (ret, (c, (ds, t)))

  -- `pci_host_probe`, with the fixups of the devices.
  unfoldable pub host_probe : Step (Owned S)
  host_probe (b, (ds, s)) =
      let (ret, (found, t)) = k.host_probe s in
      let (fixed, c) = fixup_all found b in (ret, (c, (ds ++ fixed, t)))

  unfoldable pub fixup_verdict : Step (Owned S)
  fixup_verdict t = demand t.0.root_fixup_done (err enodev) t

  -- The part that ends at `failed` with its error.
  unfoldable pub power_up : Step (Owned S)
  power_up =
      outside (λ s. negative_only (k.resume s))
      >>> outside (λ s. (ok, k.forbid s))
      >>> enable_clocks clock_names 0
      >>> outside k.set_mem_bandwidth
      >>> outside k.set_cfg_bandwidth
      >>> on_own (λ b. record b { powered = true })

  unfoldable pub bring_up : Step (Owned S)
  bring_up =
      power_up
      >>> outside (allocate k.alloc_host)
      >>> outside k.ecam_create
      >>> outside (x1_pci0_mode k.io)
      >>> validate
      >>> outside (x1_pci0_setup k.io)
      >>> validate
      >>> host_probe
      >>> fixup_verdict
      >>> on_own (λ b. record b { ready = true })

  -- `failed: b->error = ret; return 0;`
  abbrev pub kept_error : Status × Owned S → Owned S
  kept_error (ok, t) = t
  kept_error (err e, (b, t)) = (record b { error = err e }, t)
  kept_error (positive n, (b, t)) = (record b { error = positive n }, t)

  -- The owner after `bridge_owner = b;`, whatever comes of it.
  unfoldable pub owned_probe : List PciDevice × S → Owned S
  owned_probe r = kept_error (bring_up (record no_bridge { attempted = true }, r))
