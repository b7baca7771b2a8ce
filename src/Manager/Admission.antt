-- ===== src/Manager/Admission.antt =====
-- A connection that succeeds has admitted the one NVMe device.
use yoga_slim7x_usb.Base.{
  ℕ, ◌≡◌, ◌≢◌, refl, subst, Option, none, some, Bool, true, false, ◌&&◌, not, if_cases, Status, ok,
  err, eperm, einval, enotconn, positive, is_ok, arith, Step, on_rest, demand, Ended, always-Ended,
  Leads, ◌then_leads◌,
}
use yoga_slim7x_usb.Native.{x1_native_uid_allowed, x1_native_connect_word_allowed}
use yoga_slim7x_usb.Pcie.Probe.{PcieKernel}
use yoga_slim7x_usb.Pcie.Calls.{PcieState}
use yoga_slim7x_usb.Pcie.Stages.{
  Stage, ready, trained, admitted, StateAt, PcieCall, start_call, train_call, scan_call, pcie_call,
  Next, call_refused, start_failed, start_ready, train_failed, train_done, scan_refused,
  scan_admitted_one,
}
use yoga_slim7x_usb.Pcie.Order.{pcie_call-Steps}
use yoga_slim7x_usb.Manager.{
  X1Native, Switch, ManagerKernel, Managed, ManagerState, scan_results, x1_native_pcie_authorizing,
}
use yoga_slim7x_usb.Manager.Storage.{
  is_reachable, check_live, approve_switch, tunnel_to, open_tunnel, x1_native_prepare_storage,
}
use yoga_slim7x_usb.Manager.Connect.{
  connect_loop, storage_after, command_ended, connect_owner, connect_admitted, connect_static,
  x1_native_connect,
}
use yoga_slim7x_usb.Manager.Joined.{on_bridge, bridge_calls, At, StateAt-rest, connect_loop-At}

-- A call that returns 0 has gone to its stage.
start-ready :
    (r : Bool) (st end : Stage) (ret : Status)
    → Next (start_call r) st ret end
    → ret ≡ ok
    → end ≡ ready
start-ready r st end ret (call_refused c s e h) q = ground arith
start-ready r st end ret (start_failed x e h) q = ground arith
start-ready r st end ret (start_ready x e) q = refl

train-trained :
    (st end : Stage) (ret : Status) → Next train_call st ret end → ret ≡ ok → end ≡ trained
train-trained st end ret (call_refused c s e h) q = ground arith
train-trained st end ret (train_failed e h) q = ground arith
train-trained st end ret train_done q = refl

scan-admitted :
    (st end : Stage) (ret : Status) → Next scan_call st ret end → ret ≡ ok → end ≡ admitted
scan-admitted st end ret (call_refused c s e h) q = ground arith
scan-admitted st end ret scan_refused q = ground arith
scan-admitted st end ret scan_admitted_one q = refl

module _ {S : Type 0} (k : ManagerKernel S) (b : PcieKernel S) where
  abbrev Joined : Type 0
  Joined = Managed (PcieState S)

  -- Some stage.
  abbrev Some : Joined → Type 0
  Some t = (st : Stage) × At st t

  ended_lem :
      (Q : Joined → Type 0) (q : Status × Joined) → (q.0 ≡ ok → Q q.1) → Some q.1 → Ended Q Some q
  ended_lem Q (ok, t) f g = f refl
  ended_lem Q (err e, t) f g = g
  ended_lem Q (positive n, t) f g = g

  -- A call of the bridge.
  call-Leads :
      (c : PcieCall) (goal : Stage)
      → ((st end : Stage) (ret : Status) → Next c st ret end → ret ≡ ok → end ≡ goal)
      → Leads Some (on_rest (pcie_call b c)) (At goal) Some
  unfolding on_rest
  call-Leads c goal f = record {
    runs = λ t h.
        let q = pcie_call-Steps b c h.0 t.1 h.1 in
        ended_lem (At goal) (on_rest (pcie_call b c) t)
          (λ e.
            subst (λ (x : Stage). At x (on_rest (pcie_call b c) t).1) (f h.0 q.stage _ q.next e)
              q.at)
          (q.stage, q.at);
  }

  check_live-Leads :
      (P : Joined → Type 0)
      → ((t : Joined) (s : S) → P t → P (t.0, record t.1 { rest = s }))
      → ((t : Joined) → P t → Some t)
      → Leads P (on_rest (check_live (on_bridge k) (bridge_calls b))) P Some
  unfolding on_rest check_live demand on_bridge
  check_live-Leads P f w = record {
    runs = λ t h.
        always-Ended P P Some (on_rest (check_live (on_bridge k) (bridge_calls b)) t)
          (f t (k.valid t.1.rest).1 h) (λ u x. x) w;
  }

  stage_rest : (st : Stage) (t : Joined) (s : S) → At st t → At st (t.0, record t.1 { rest = s })
  stage_rest st t s h = StateAt-rest st t.1 s h

  Some-rest : (t : Joined) (s : S) → Some t → Some (t.0, record t.1 { rest = s })
  Some-rest t s h = (h.0, StateAt-rest h.0 t.1 s h.1)

  approve_switch-At :
      (st : Stage) (w : Switch) (t : Joined)
      → At st t
      → At st (approve_switch (on_bridge k) (bridge_calls b) w t).1
  unfolding approve_switch on_bridge
  approve_switch-At st w t h =
      let n = record t.0 { allow_pcie = true } in
      let (ret, s) = k.approve t.1.rest w (x1_native_pcie_authorizing (some n) true) in
      if_cases (λ (m : PcieState S). StateAt st m) (is_ok ret) _ _
        (λ _. StateAt-rest st t.1 (k.set_authorized s) h) (λ _. StateAt-rest st t.1 s h)

  tunnel_to-At :
      (st : Stage) (o : Option Switch) (t : Joined)
      → At st t
      → At st (tunnel_to (on_bridge k) (bridge_calls b) o t).1
  unfolding tunnel_to on_bridge
  tunnel_to-At st none t h = h
  tunnel_to-At st (some w) t h =
      let (v, u) = k.valid t.1.rest in
      let P = λ (q : Status × Joined). At st q.1 in
      let a = StateAt-rest st t.1 u h in
      if_cases P (not (is_ok (x1_native_uid_allowed k.lacie_uid 2 w.uid))) _ _ (λ _. h)
        (λ _.
          if_cases P (not (v && is_reachable w && not w.authorized)) _ _ (λ _. a)
            (λ _. approve_switch-At st w (t.0, record t.1 { rest = u }) a))

  open_tunnel-Leads :
      (st : Stage) → Leads (At st) (open_tunnel (on_bridge k) (bridge_calls b)) (At st) Some
  unfolding open_tunnel on_bridge
  open_tunnel-Leads st = record {
    runs = λ t h.
        let (o, u) = k.find_switch t.1.rest in
        let a = StateAt-rest st t.1 u h in
        let x : Joined = (t.0, record t.1 { rest = u }) in
        always-Ended (At st) (At st) Some (tunnel_to (on_bridge k) (bridge_calls b) o x)
          (tunnel_to-At st o x a) (λ y q. q) (λ y q. (st, q));
  }

  from_stage :
      (st : Stage) (f : Step Joined) (Q : Joined → Type 0)
      → Leads Some f Q Some
      → Leads (At st) f Q Some
  from_stage st f Q h = record { runs = λ t x. h.runs t (st, x) }

  storage-Leads :
      Leads Some (x1_native_prepare_storage (on_bridge k) (bridge_calls b)) (At admitted) Some
  unfolding x1_native_prepare_storage pcie_call
  storage-Leads =
      check_live-Leads Some Some-rest (λ t h. h)
      then_leads call-Leads (start_call true) ready (start-ready true)
      then_leads open_tunnel-Leads ready
      then_leads check_live-Leads (At ready) (stage_rest ready) (λ t h. (ready, h))
      then_leads from_stage ready _ _ (call-Leads train_call trained train-trained)
      then_leads check_live-Leads (At trained) (stage_rest trained) (λ t h. (trained, h))
      then_leads from_stage trained _ _ (call-Leads scan_call admitted scan-admitted)
      then_leads check_live-Leads (At admitted) (stage_rest admitted) (λ t h. (admitted, h))

  -- A result with what it says of the bridge.
  abbrev Says : Option Status → PcieState S → Type 0
  Says ret m = ((ret ≡ some ok) → StateAt admitted m) × ((st : Stage) × StateAt st m)

  Ended-Says : (q : Status × Joined) → Ended (At admitted) Some q → Says (some q.0) q.1.1
  Ended-Says (ok, t) h = (λ _. h, (admitted, h))
  Ended-Says (err e, t) h = (λ q. ground arith, h)
  Ended-Says (positive n, t) h = (λ q. ground arith, h)

  -- A result before the storage, which is not 0.
  early_lem :
      (ret : Option Status) (st : Stage) (m : PcieState S)
      → ret ≢ some ok
      → StateAt st m
      → Says ret m
  early_lem ret st m n h = (λ q. absurd (n q), (st, h))

  storage_after-Says :
      (st : Stage) (q : Option Status × Joined)
      → At st q.1
      → let r = storage_after (on_bridge k) (bridge_calls b) q in Says r.0 r.1.1
  unfolding storage_after
  storage_after-Says st (none, t) h = early_lem none st t.1 (λ q. ground arith) h
  storage_after-Says st (some ok, t) h = Ended-Says _ (storage-Leads.runs t (st, h))
  storage_after-Says st (some (err e), t) h = early_lem _ st t.1 (λ q. ground arith) h
  storage_after-Says st (some (positive n), t) h = early_lem _ st t.1 (λ q. ground arith) h

  abbrev SaysAll : {B : Type 0} → Option Status × (B × PcieState S) → Type 0
  SaysAll q = Says q.0 q.1.1

  connect_owner-Says :
      (st : Stage) (left w : ℕ) (t : Joined)
      → At st t
      → SaysAll (connect_owner (on_bridge k) (bridge_calls b) left w t)
  unfolding connect_owner command_ended on_bridge
  connect_owner-Says st left w t h =
      let (v, u) = k.valid t.1.rest in
      let (ret, (rs, s)) = k.connect u w in
      let a = StateAt-rest st t.1 s h in
      let x : Joined = (scan_results rs t.0, record t.1 { rest = k.set_deadline s }) in
      if_cases SaysAll (not v) _ _
        (λ _.
          early_lem (some (err enotconn)) st (record t.1 { rest = u }) (λ q. ground arith)
            (StateAt-rest st t.1 u h))
        (λ _.
          if_cases SaysAll (not (is_ok ret)) _ _
            (λ e. early_lem (some ret) st (record t.1 { rest = s }) (λ q. ground arith) a)
            (λ _.
              storage_after-Says st (connect_loop (on_bridge k) (bridge_calls b) left false x)
                (connect_loop-At k b st left false x (StateAt-rest st t.1 (k.set_deadline s) h))))

  connect_static-Says :
      (st : Stage) (left w : ℕ) (o : Option X1Native) (m : PcieState S)
      → StateAt st m
      → SaysAll (connect_static (on_bridge k) (bridge_calls b) left w o m)
  connect_static-Says st left w none m h = early_lem (some (err eperm)) st m (λ q. ground arith) h
  connect_static-Says st left w (some n) m h =
      if_cases SaysAll (not (connect_admitted n)) _ _
        (λ _. early_lem (some (err eperm)) st m (λ q. ground arith) h)
        (λ _. connect_owner-Says st left w (record n { attempted = true }, m) h)

  -- Over the bridge, whatever the core, the kernel and the callbacks answer, a call to connect keeps
  -- the bridge at a stage, and one that returns 0 has left it with the one NVMe device admitted.
  pub x1_native_connect-Says :
      (st : Stage) (left w : ℕ) (valid : Bool) (t : ManagerState (PcieState S))
      → StateAt st t.1
      → let q = x1_native_connect (on_bridge k) (bridge_calls b) left w valid t in
        ((q.0 ≡ some ok) → StateAt admitted q.1.1) × ((end : Stage) × StateAt end q.1.1)
  unfolding x1_native_connect
  x1_native_connect-Says st left w valid (o, m) h =
      if_cases SaysAll (not (is_ok (x1_native_connect_word_allowed w))) _ _
        (λ e. early_lem (some (x1_native_connect_word_allowed w)) st m (λ q. ground arith) h)
        (λ _.
          if_cases SaysAll (not valid) _ _
            (λ _. early_lem (some (err einval)) st m (λ q. ground arith) h)
            (λ _. connect_static-Says st left w o m h))
