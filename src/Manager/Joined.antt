-- ===== src/Manager/Joined.antt =====
-- The connection manager over the PCIe bridge of qcom-x1-pcie.c: the callbacks act on the rest of the
-- machine only, the calls of the bridge on its statics too.
use yoga_slim7x_usb.Base.{ℕ, zero, suc, Option, none, some, Bool, ◌&&◌, not, if_cases, Status}
use yoga_slim7x_usb.Native.{x1_native_rescan_allowed}
use yoga_slim7x_usb.Pcie.Probe.{PcieKernel}
use yoga_slim7x_usb.Pcie.Calls.{PcieState, x1_pcie_start, x1_pcie_train, x1_pcie_scan}
use yoga_slim7x_usb.Pcie.Stages.{Stage, StateAt}
use yoga_slim7x_usb.Manager.{Switch, ManagerKernel, PcieCalls, Managed, is_terminal, scan_results}
use yoga_slim7x_usb.Manager.Connect.{
  Round, finished, again, rescan_now, round_absent, round_found, round_locked, connect_round,
  next_round, connect_loop,
}

-- A callback on the rest of the machine.
abbrev pub beside : {S A : Type 0} → (S → A × S) → PcieState S → A × PcieState S
beside f m = let (a, s) = f m.rest in (a, record m { rest = s })

abbrev pub beside_value : {S A B : Type 0} → (S → A × (B × S)) → PcieState S → A × (B × PcieState S)
beside_value f m = let (a, (b, s)) = f m.rest in (a, (b, record m { rest = s }))

unfoldable pub on_bridge : {S : Type 0} → ManagerKernel S → ManagerKernel (PcieState S)
on_bridge k = record {
  lacie_uid = k.lacie_uid;
  is_test = λ m. k.is_test m.rest;
  read_uid = λ m r. beside_value (λ s. k.read_uid s r) m;
  alloc_owner = beside k.alloc_owner;
  read_caps = beside k.read_caps;
  ring_enabled = λ m i. beside (λ s. k.ring_enabled s i) m;
  alloc_rings = beside k.alloc_rings;
  prepare = beside k.prepare;
  prepared = λ m. k.prepared m.rest;
  init_interrupts = beside k.init_interrupts;
  disable_interrupts = λ m. record m { rest = k.disable_interrupts m.rest };
  tb_probe = beside k.tb_probe;
  domain_add = beside k.domain_add;
  schedule_watchdog = λ m. record m { rest = k.schedule_watchdog m.rest };
  ctl_stop = λ m. record m { rest = k.ctl_stop m.rest };
  valid = beside k.valid;
  connect = λ m w. beside_value (λ s. k.connect s w) m;
  set_deadline = λ m. record m { rest = k.set_deadline m.rest };
  before = λ m ms. k.before m.rest ms;
  try_lock = beside k.try_lock;
  find_switch = beside k.find_switch;
  rescan = beside_value k.rescan;
  sleep = beside k.sleep;
  approve = λ m w a. beside (λ s. k.approve s w a) m;
  set_authorized = λ m. record m { rest = k.set_authorized m.rest };
}

abbrev pub bridge_calls : {S : Type 0} → PcieKernel S → PcieCalls (PcieState S)
bridge_calls b = record { start = x1_pcie_start b; train = x1_pcie_train b; scan = x1_pcie_scan b }

-- The stage of the bridge beside the owner.
abbrev pub At : {S : Type 0} → Stage → Managed (PcieState S) → Type 0
At st t = StateAt st t.1

-- What the rest of the machine does not change.
pub StateAt-rest :
    {S : Type 0} (st : Stage) (m : PcieState S) (s : S)
    → StateAt st m
    → StateAt st (record m { rest = s })
StateAt-rest st m s h = record { closed = h.closed; unregistered = h.unregistered; stage = h.stage }

module _ {S : Type 0} (k : ManagerKernel S) (b : PcieKernel S) where
  rescan_now-At :
      (st : Stage) (t : Managed (PcieState S))
      → At st t
      → At st (rescan_now (on_bridge k) (bridge_calls b) t).1
  unfolding rescan_now on_bridge
  rescan_now-At st t h =
      let (v, u) = k.valid t.1.rest in
      if_cases (λ (q : Round × Managed (PcieState S)). At st q.1) v _ _
        (λ _. StateAt-rest st t.1 (k.rescan u).1.1 h) (λ _. StateAt-rest st t.1 u h)

  round_absent-At :
      (st : Stage) (r : Bool) (t : Managed (PcieState S))
      → At st t
      → At st (round_absent (on_bridge k) (bridge_calls b) r t).1
  unfolding round_absent
  round_absent-At st r t h =
      let P = λ (q : Round × Managed (PcieState S)). At st q.1 in
      if_cases P (is_terminal t.0) _ _ (λ _. h)
        (λ _.
          if_cases P
            (x1_native_rescan_allowed r t.0.scan_preconfig t.0.scan_error
              && (on_bridge k).before t.1 8000)
            _ _ (λ _. rescan_now-At st t h) (λ _. h))

  round_found-At :
      (st : Stage) (r : Bool) (o : Option Switch) (t : Managed (PcieState S))
      → At st t
      → At st (round_found (on_bridge k) (bridge_calls b) r o t).1
  round_found-At st r none t h = round_absent-At st r t h
  round_found-At st r (some w) t h = h

  connect_round-At :
      (st : Stage) (r : Bool) (t : Managed (PcieState S))
      → At st t
      → At st (connect_round (on_bridge k) (bridge_calls b) r t).1
  unfolding connect_round round_locked on_bridge
  connect_round-At st r t h =
      let P = λ (q : Round × Managed (PcieState S)). At st q.1 in
      let (v, u) = k.valid t.1.rest in
      let (l, x) = k.try_lock u in
      let (o, y) = k.find_switch x in
      if_cases P (not v) _ _ (λ _. StateAt-rest st t.1 u h)
        (λ _.
          if_cases P l _ _
            (λ _.
              if_cases P (is_terminal t.0) _ _ (λ _. StateAt-rest st t.1 x h)
                (λ _.
                  round_found-At st r o (t.0, record t.1 { rest = y }) (StateAt-rest st t.1 y h)))
            (λ _. StateAt-rest st t.1 x h))

  next_round-At :
      (st : Stage) (q : Round × Managed (PcieState S))
      (more : Bool → Managed (PcieState S) → Option Status × Managed (PcieState S))
      → At st q.1
      → ((r : Bool) (t : Managed (PcieState S)) → At st t → At st (more r t).1)
      → At st (next_round (on_bridge k) (bridge_calls b) q more).1
  unfolding next_round on_bridge
  next_round-At st (finished ret, t) more h f = h
  next_round-At st (again r, t) more h f =
      let (rs, u) = k.sleep t.1.rest in
      let a = StateAt-rest st t.1 u h in
      if_cases (λ (q : Option Status × Managed (PcieState S)). At st q.1) (k.before u 0) _ _
        (λ _. f r (scan_results rs t.0, record t.1 { rest = u }) a) (λ _. a)

  pub connect_loop-At :
      (st : Stage) (left : ℕ) (r : Bool) (t : Managed (PcieState S))
      → At st t
      → At st (connect_loop (on_bridge k) (bridge_calls b) left r t).1
  unfolding connect_loop
  connect_loop-At st zero r t h = h
  connect_loop-At st (suc left) r t h =
      next_round-At st (connect_round (on_bridge k) (bridge_calls b) r t) _
        (connect_round-At st r t h) (connect_loop-At st left)
