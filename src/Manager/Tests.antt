-- ===== src/Manager/Tests.antt =====
-- A connection that succeeds over the root port of the bridge's tests, and one that times out.
use yoga_slim7x_usb.Base.{
  ℕ, ◌-◌, ◌≡◌, refl, List, [], ◌∷◌, Option, some, none, Bool, true, false, ltb, is_null, ok, demand,
  on_rest, on_own, ◌>>>◌, each, arith,
}
use yoga_slim7x_usb.Bridge.{
  x1_pw, x1_pv, x1_pm, x1_pp, poll_round, pause, require, quiescent, reset_edge, set_values,
  set_masked, x1_pr_unused, protected_fields, gated, setup_before, setup_after,
  x1_pci0_reset_request, train_link, x1_pci0_mode, x1_pci0_setup, x1_pci0_train, x1_pci0_windows,
}
use yoga_slim7x_usb.Bridge.Windows.{Registers}
use yoga_slim7x_usb.Native.{x1_native_uid_allowed, x1_native_connect_word_allowed}
use yoga_slim7x_usb.Pcie.{
  fixup_admitted, x1_root_fixup_class, fixup_all, find_endpoint, find_endpoints,
}
use yoga_slim7x_usb.Pcie.Root.{
  root_header_admitted, bad_pointer, bad_express, header_words, walk_word, walk_round, root_walk,
  x1_root_validate,
}
use yoga_slim7x_usb.Pcie.Probe.{
  gates_open, specifier_verdict, resources_admitted, clocks_admitted, address_admitted,
  demand_status, demand_platform, x1_bridge_init_resources, get_clocks, get_paths, probe_admit,
  outside, enable_clocks, validate, host_probe, fixup_verdict, power_up, bring_up, owned_probe,
}
use yoga_slim7x_usb.Pcie.Calls.{
  cold_state, train_admitted, scan_admitted, x1_pci0_msi_audit, x1_bridge_probe, register_driver,
  x1_pcie_start, x1_pcie_train, as_bound, inventory, x1_pcie_scan,
}
use yoga_slim7x_usb.Pcie.Stages.{Stage, absent, admitted, StateAt}
use yoga_slim7x_usb.Pcie.Sample.{powered_off, granting}
use yoga_slim7x_usb.Manager.{
  X1Native, new_native, Switch, ManagerKernel, PcieCalls, is_terminal, scan_results,
  x1_native_pcie_authorizing,
}
use yoga_slim7x_usb.Manager.Storage.{
  check_live, approve_switch, tunnel_to, open_tunnel, x1_native_prepare_storage,
}
use yoga_slim7x_usb.Manager.Connect.{
  switch_verdict, round_locked, connect_round, next_round, connect_loop, storage_after,
  command_ended, connect_owner, connect_admitted, x1_native_connect,
}
use yoga_slim7x_usb.Manager.Log.{logged, logged_calls}
use yoga_slim7x_usb.Manager.Once.{
  ManagerCall, start_call, register_call, connect_call, stop_call, manager_calls, OwnerAsks,
  manager_calls-OwnerAsks,
}
use yoga_slim7x_usb.Manager.Deadline.{IsClock, x1_native_connect_returns}
use yoga_slim7x_usb.Manager.Joined.{on_bridge, bridge_calls}
use yoga_slim7x_usb.Manager.Admission.{x1_native_connect-Says}

-- A storage device that is found at once.
abbrev lacie : Switch
lacie = record {
  uid = 0x1234;
  is_unplugged = false;
  link_usb4 = true;
  authorized = false;
  has_pcie_up = true;
}

-- A core and callbacks that grant everything, on any machine; `found` is the router, and `tick` and
-- `before` are the clock.
abbrev core : {S : Type 0} → Option Switch → (S → S) → (S → S) → (S → ℕ → Bool) → ManagerKernel S
core found deadline tick before = record {
  lacie_uid = 0x1234;
  is_test = λ s. true;
  read_uid = λ s r. (ok, (0x1234 ∷ 0 ∷ [], s));
  alloc_owner = λ s. (true, s);
  read_caps = λ s. (3, s);
  ring_enabled = λ s i. (false, s);
  alloc_rings = λ s. (true, s);
  prepare = λ s. (ok, s);
  prepared = λ s. true;
  init_interrupts = λ s. (ok, s);
  disable_interrupts = λ s. s;
  tb_probe = λ s. (true, s);
  domain_add = λ s. (ok, s);
  schedule_watchdog = λ s. s;
  ctl_stop = λ s. s;
  valid = λ s. (true, s);
  connect = λ s w. (ok, ([], s));
  set_deadline = deadline;
  before = before;
  try_lock = λ s. (true, s);
  find_switch = λ s. (found, s);
  rescan = λ s. (ok, ([], s));
  sleep = λ s. ([], tick s);
  approve = λ s w a. (ok, s);
  set_authorized = λ s. s;
}

abbrev connecting : ManagerKernel Registers
connecting = core (some lacie) (λ s. s) (λ s. s) (λ s ms. false)

abbrev live_owner : X1Native
live_owner = record new_native { tb = true; connect = true; live = true }

connected_ok :
    (x1_native_connect
      (on_bridge connecting)
      (bridge_calls granting)
      1
      0x2501
      true
      (some live_owner, cold_state powered_off)).0
    ≡ some ok
unfolding on_bridge x1_native_connect x1_native_connect_word_allowed connect_admitted connect_owner
    command_ended storage_after connect_loop next_round connect_round round_locked switch_verdict
    is_terminal scan_results x1_native_uid_allowed x1_native_prepare_storage check_live
    approve_switch tunnel_to open_tunnel x1_native_pcie_authorizing x1_pcie_train x1_pcie_scan
    train_admitted scan_admitted inventory as_bound find_endpoint find_endpoints x1_pci0_msi_audit
    x1_pci0_train train_link x1_pci0_reset_request x1_pp poll_round x1_pci0_windows x1_pcie_start
    register_driver x1_bridge_probe probe_admit gates_open demand_platform demand_status
    address_admitted resources_admitted clocks_admitted specifier_verdict x1_bridge_init_resources
    get_clocks get_paths demand owned_probe bring_up power_up outside on_rest on_own enable_clocks
    validate host_probe fixup_verdict fixup_all x1_root_fixup_class fixup_admitted x1_root_validate
    root_header_admitted header_words root_walk walk_round walk_word bad_pointer bad_express
    x1_pci0_mode quiescent require x1_pm x1_pv x1_pw reset_edge pause x1_pci0_setup setup_before
    setup_after gated protected_fields x1_pr_unused set_values set_masked each ◌>>>◌
connected_ok = refl

cold-StateAt : StateAt absent (cold_state powered_off)
cold-StateAt = record { closed = refl; unregistered = λ _. refl; stage = refl }

x1_native_connect-Says_example :
    let q =
      x1_native_connect
        (on_bridge connecting)
        (bridge_calls granting)
        1
        0x2501
        true
        (some live_owner, cold_state powered_off) in
    ((q.0 ≡ some ok) → StateAt admitted q.1.1) × ((end : Stage) × StateAt end q.1.1)
x1_native_connect-Says_example =
    x1_native_connect-Says connecting granting absent 1 0x2501 true
      (some live_owner, cold_state powered_off) cold-StateAt

-- Nothing is found, and the machine is the time that remains.
abbrev waiting_core : ManagerKernel ℕ
waiting_core = core none (λ s. 20000) (λ s. s - 20) (λ s ms. ltb ms s)

abbrev no_calls : PcieCalls ℕ
no_calls = record { start = λ r s. (ok, s); train = λ s. (ok, s); scan = λ s. (ok, s) }

waiting-IsClock : IsClock waiting_core (λ s. s)
waiting-IsClock = record {
  set = λ s. omega arith;
  valid = λ s. omega arith;
  try_lock = λ s. omega arith;
  find_switch = λ s. omega arith;
  rescan = λ s. omega arith;
  sleep = λ s. omega arith;
  before = λ s e. ground arith;
}

x1_native_connect_returns_example :
    is_null (x1_native_connect waiting_core no_calls 1000 0x2701 true (some live_owner, 0)).0
    ≡ false
x1_native_connect_returns_example =
    x1_native_connect_returns waiting_core no_calls (λ s. s) waiting-IsClock 0x2701 true
      (some live_owner, 0)

abbrev one_session : List ManagerCall
one_session =
    start_call true true 5 true
    ∷ register_call true true
    ∷ connect_call 3 0x2501 true
    ∷ connect_call 3 0x2501 true
    ∷ stop_call
    ∷ []

manager_calls-OwnerAsks_example :
    let t =
      manager_calls (logged waiting_core) (logged_calls no_calls) one_session (none, (7, [])) in
    OwnerAsks 0x1234 t.0 t.1.1 × (x1_native_pcie_authorizing t.0 true ≡ false)
manager_calls-OwnerAsks_example = manager_calls-OwnerAsks waiting_core no_calls one_session 7
