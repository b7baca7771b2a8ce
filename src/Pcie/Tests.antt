-- ===== src/Pcie/Tests.antt =====
-- The root port of the tests of its initialisation, with a capability list, from the start to the
-- scan of one NVMe device.
use yoga_slim7x_usb.Base.{
  ℕ, ◌≡◌, ◌≢◌, ◌↔◌, refl, some, true, ok, demand, on_rest, on_own, ◌>>>◌, each, arith,
}
use yoga_slim7x_usb.Bridge.{
  x1_pw, x1_pv, x1_pm, x1_pp, poll_round, pause, require, quiescent, reset_edge, set_values,
  set_masked, x1_pr_unused, protected_fields, gated, setup_before, setup_after,
  x1_pci0_reset_request, train_link, x1_pci0_mode, x1_pci0_setup, x1_pci0_train, x1_pci0_windows,
}
use yoga_slim7x_usb.Pcie.{
  X1Bridge, no_bridge, fixup_admitted, x1_root_fixup_class, fixup_all, x1_native_nvme_allowed,
  ecam_admitted, find_endpoint, find_endpoints,
}
use yoga_slim7x_usb.Pcie.Root.{
  root_header_admitted, bad_pointer, bad_express, header_words, walk_word, walk_round, root_walk,
  x1_root_validate,
}
use yoga_slim7x_usb.Pcie.Probe.{
  gates_open, specifier_verdict, resources_admitted, clocks_admitted, address_admitted,
  demand_status, demand_platform, x1_bridge_init_resources, get_clocks, get_paths, probe_admit,
  outside, enable_clocks, validate, host_probe, fixup_verdict, power_up, bring_up, owned_probe,
}
use yoga_slim7x_usb.Pcie.Calls.{
  cold_state, train_admitted, scan_admitted, x1_pci0_msi_audit, x1_bridge_probe, register_driver,
  x1_pcie_start, x1_pcie_train, as_bound, inventory, x1_pcie_scan,
}
use yoga_slim7x_usb.Pcie.Endpoint.{IsOnly}
use yoga_slim7x_usb.Pcie.Ready.{IsPrepared}
use yoga_slim7x_usb.Pcie.Stages.{StateAt, absent, start_call, Steps, pcie_call}
use yoga_slim7x_usb.Pcie.Order.{pcie_call-Steps}
use yoga_slim7x_usb.Pcie.Admission.{pcie_calls, WasTrained, pcie_calls-IsOnly, pcie_calls-beyond}
use yoga_slim7x_usb.Pcie.Sample.{root_words, powered_off, disk, granting, all_calls}
use yoga_slim7x_usb.Pcie.Capabilities.{steady, IsRootPort, x1_root_validate_iff}

started_ok : (x1_pcie_start granting true (cold_state powered_off)).0 ≡ ok
unfolding x1_pcie_start register_driver x1_bridge_probe probe_admit gates_open demand_platform
    demand_status address_admitted resources_admitted clocks_admitted specifier_verdict
    x1_bridge_init_resources get_clocks get_paths demand owned_probe bring_up power_up outside
    on_rest on_own enable_clocks validate host_probe fixup_verdict fixup_all x1_root_fixup_class
    fixup_admitted x1_root_validate root_header_admitted header_words root_walk walk_round walk_word
    bad_pointer bad_express x1_pci0_mode quiescent require x1_pm x1_pv x1_pw reset_edge pause
    x1_pci0_setup setup_before setup_after gated protected_fields x1_pr_unused set_values set_masked
    each ◌>>>◌
started_ok = refl

-- The owner after all calls.
whole_run :
    (x1_native_nvme_allowed (pcie_calls granting all_calls (cold_state powered_off)).owner disk
      ≡ true)
    × (ecam_admitted (pcie_calls granting all_calls (cold_state powered_off)).owner 0 1 0 (some 16)
        ≡ true)
unfolding pcie_calls pcie_call x1_native_nvme_allowed ecam_admitted x1_pcie_train x1_pcie_scan
    train_admitted scan_admitted inventory as_bound find_endpoint find_endpoints x1_pci0_msi_audit
    x1_pci0_train train_link x1_pci0_reset_request x1_pp poll_round x1_pci0_windows x1_pcie_start
    register_driver x1_bridge_probe probe_admit gates_open demand_platform demand_status
    address_admitted resources_admitted clocks_admitted specifier_verdict x1_bridge_init_resources
    get_clocks get_paths demand owned_probe bring_up power_up outside on_rest on_own enable_clocks
    validate host_probe fixup_verdict fixup_all x1_root_fixup_class fixup_admitted x1_root_validate
    root_header_admitted header_words root_walk walk_round walk_word bad_pointer bad_express
    x1_pci0_mode quiescent require x1_pm x1_pv x1_pw reset_edge pause x1_pci0_setup setup_before
    setup_after gated protected_fields x1_pr_unused set_values set_masked each ◌>>>◌
whole_run = (refl, refl)

pcie_calls-IsOnly_example :
    IsOnly 7 (pcie_calls granting all_calls (cold_state powered_off)).devices
pcie_calls-IsOnly_example = pcie_calls-IsOnly granting all_calls powered_off disk whole_run.0

second_bus : ◌≢◌ {A = ℕ} 1 0
second_bus = λ h. ground arith

pcie_calls-beyond_example :
    ((b : X1Bridge) × ((pcie_calls granting all_calls (cold_state powered_off)).owner ≡ some b)
      × IsPrepared b
      × (b.ready ≡ true)
      × (b.trained ≡ true))
    × WasTrained granting all_calls (cold_state powered_off)
pcie_calls-beyond_example =
    pcie_calls-beyond granting all_calls powered_off 0 1 0 (some 16) second_bus whole_run.1

cold-StateAt : StateAt absent (cold_state powered_off)
cold-StateAt = record { closed = refl; unregistered = λ _. refl; stage = refl }

pcie_call-Steps_example :
    Steps (start_call true) absent (pcie_call granting (start_call true) (cold_state powered_off))
pcie_call-Steps_example =
    pcie_call-Steps granting (start_call true) absent (cold_state powered_off) cold-StateAt

x1_root_validate_iff_example :
    ((x1_root_validate (steady root_words) (no_bridge, tt)).0 ≡ ok) ↔ IsRootPort root_words
x1_root_validate_iff_example = x1_root_validate_iff root_words no_bridge
