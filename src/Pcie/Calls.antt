-- ===== src/Pcie/Calls.antt =====
-- The calls of the connection manager: `x1_pcie_start`, `x1_pcie_train` and `x1_pcie_scan`, over the
-- statics of the file; and the nine reads of x1-pcie-msi-audit.h.
use yoga_slim7x_usb.Base.{
  ℕ, List, [], ◌∷◌, ◌++◌, map, Option, none, some, Bool, true, false, ◌&&◌, not, ◌==◌,
  if◌then◌else◌, Status, ok, err, eperm, enodev, ealready, is_ok, checked, is_null, Step, ◌>>>◌,
  each,
}
use yoga_slim7x_usb.Bridge.{x1_pr_unused, x1_pci0_train, x1_pci0_windows}
use yoga_slim7x_usb.Bridge.Tables.{X1Pci0Region, x1_root, x1_parf}
use yoga_slim7x_usb.Pcie.{X1Bridge, PciDevice, EndpointScan, fixup_all, find_endpoints}
use yoga_slim7x_usb.Pcie.Probe.{PcieKernel, Owned, gates_open, probe_admit, owned_probe}

-- The statics, with the devices that the PCI core has found and the rest of the machine.
-- `registration_router` is kept as whether it is set.
pub record PcieState (S : Type 0) : Type 0 where
  pub owner : Option X1Bridge
  pub registered : Bool
  pub window : Bool
  pub router : Bool
  pub devices : List PciDevice
  pub rest : S

-- Before the first call.
abbrev pub cold_state : {S : Type 0} → S → PcieState S
cold_state s = record {
  owner = none;
  registered = false;
  window = false;
  router = false;
  devices = [];
  rest = s;
}

-- The registers of the audit.
abbrev pub audit_registers : List (X1Pci0Region × ℕ)
audit_registers =
    (x1_root, 0x820)
    ∷ (x1_root, 0x824)
    ∷ (x1_root, 0x828)
    ∷ (x1_root, 0x82c)
    ∷ (x1_root, 0x830)
    ∷ (x1_parf, 0x1a8)
    ∷ (x1_parf, 0x234)
    ∷ (x1_parf, 0x24c)
    ∷ (x1_parf, 0x2c00)
    ∷ []

-- The error of the owner, which `x1_pcie_start` returns unless the owner is ready.
abbrev pub owner_verdict : Option X1Bridge → Status
owner_verdict none = err enodev
owner_verdict (some b) = if b.ready then ok else b.error

unfoldable pub train_admitted : X1Bridge → Bool
train_admitted b = b.ready && is_ok b.error && not b.train_attempted && not b.downstream

unfoldable pub scan_admitted : X1Bridge → Bool
scan_admitted b = b.ready && b.trained && is_ok b.error && not b.downstream

-- `scan.nvmes == 1 && !scan.other ? 0 : -ENODEV`.
abbrev pub scan_verdict : EndpointScan → Status
scan_verdict f = if (f.nvmes == 1) && (f.others == 0) then ok else err enodev

module _ {S : Type 0} (k : PcieKernel S) where
  -- `x1_pci0_msi_audit`, whose words are printed only.
  unfoldable pub x1_pci0_msi_audit : Step S
  x1_pci0_msi_audit = each (λ r. x1_pr_unused k.io r.0 r.1) audit_registers

  -- `x1_bridge_probe`, whose result the registration does not return.
  abbrev pub with_owner : PcieState S → Owned S → PcieState S
  with_owner m (b, (ds, s)) = record m { owner = some b; devices = ds; rest = s }

  unfoldable pub x1_bridge_probe : PcieState S → PcieState S
  x1_bridge_probe m =
      checked (probe_admit k m.window m.router (not (is_null m.owner)) m.rest)
        (λ s. with_owner m (owned_probe k (m.devices, s))) (λ ret s. record m { rest = s })

  -- `platform_driver_register`, which probes the device if there is one.
  abbrev pub probed : Bool → PcieState S → PcieState S
  probed found m = if found then x1_bridge_probe m else m

  unfoldable pub register_driver : PcieState S → Status × PcieState S
  register_driver m =
      let (ret, (found, s)) = k.driver_register m.rest in
      (ret, probed found (record m { rest = s }))

  abbrev pub started : Status × PcieState S → Status × PcieState S
  started (ret, m) =
      ((if is_ok ret then owner_verdict m.owner else ret), record m { window = false })

  -- `x1_pcie_start`; `router` is whether the pointer is not null.
  unfoldable pub x1_pcie_start : (router : Bool) → Step (PcieState S)
  x1_pcie_start router m =
      if not (router && gates_open (k.platform m.rest))
      then (err eperm, m)
      else (if m.registered
          then (err ealready, m)
          else started
              (register_driver (record m { registered = true; router = router; window = true })))

  -- `if (!b) { ret = -EPERM; goto out; }`
  abbrev pub on_owner :
      PcieState S → (X1Bridge → Status × PcieState S) → Option X1Bridge → Status × PcieState S
  on_owner m f none = (err eperm, m)
  on_owner m f (some b) = f b

  -- `x1_pcie_train` on the owner.
  abbrev pub train_ended : PcieState S → X1Bridge → Status × S → Status × PcieState S
  train_ended m b (ret, s) = (
    ret,
    record m {
      owner = some (if is_ok ret then record b { trained = true } else record b { error = ret });
      rest = s;
    },
  )

  abbrev pub train_owner : PcieState S → X1Bridge → Status × PcieState S
  train_owner m b =
      if not (train_admitted b)
      then (err eperm, m)
      else train_ended m (record b { train_attempted = true })
          ((x1_pci0_train k.io >>> x1_pci0_windows k.io) m.rest)

  unfoldable pub x1_pcie_train : Step (PcieState S)
  x1_pcie_train m = on_owner m (train_owner m) m.owner

  -- The devices that were known before the rescan, with the driver that each has at the walk.
  unfoldable pub as_bound : S → List PciDevice → List PciDevice
  as_bound s known = map (λ (d : PciDevice). record d { driver = k.bound s d.identity }) known

  -- The inventory of `x1_pcie_scan`: the owner with the devices after the rescan.
  unfoldable pub inventory :
      X1Bridge → List PciDevice → List PciDevice → S → List PciDevice × EndpointScan
  inventory b known found s =
      let (fixed, c) = fixup_all found b in
      let all = as_bound s known ++ fixed in
      (all, find_endpoints all (record { owner = c; nvmes = 0; others = 0 }))

  abbrev pub scan_ended : PcieState S → S → List PciDevice × EndpointScan → Status × PcieState S
  scan_ended m s (ds, f) =
      if is_ok (scan_verdict f)
      then (
        ok,
        record m {
          owner = some (record f.owner { endpoint_validated = true });
          devices = ds;
          rest = (x1_pci0_msi_audit s).1;
        },
      )
      else (
        scan_verdict f,
        record m {
          owner = some (record f.owner { error = scan_verdict f });
          devices = ds;
          rest = s;
        },
      )

  -- `x1_pcie_scan` on the owner.
  abbrev pub scan_owner : PcieState S → X1Bridge → Status × PcieState S
  scan_owner m b =
      if not (scan_admitted b)
      then (err eperm, m)
      else (let (found, s) = k.rescan m.rest in
          scan_ended m s (inventory (record b { downstream = true }) m.devices found s))

  unfoldable pub x1_pcie_scan : Step (PcieState S)
  x1_pcie_scan m = on_owner m (scan_owner m) m.owner
