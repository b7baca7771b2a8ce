-- ===== src/Pcie/Started.antt =====
-- A start leaves the owner absent, failed or ready.
use yoga_slim7x_usb.Base.{
  ◌≡◌, refl, sym, subst, inl, inr, none, Bool, true, false, ◌&&◌, not, if_cases, Status, err, eperm,
  ealready, is_ok, is_null, checked-cases, arith,
}
use yoga_slim7x_usb.Pcie.Probe.{PcieKernel, gates_open, probe_admit}
use yoga_slim7x_usb.Pcie.Calls.{
  PcieState, x1_bridge_probe, probed, register_driver, started, x1_pcie_start,
}
use yoga_slim7x_usb.Pcie.Ready.{owned_probe-lem}
use yoga_slim7x_usb.Pcie.Stages.{
  Stage, absent, failed, ready, OwnerAt, StateAt, PcieCall, start_call, call_refused, start_failed,
  start_ready, Steps, ProbeAt, failed_verdict, absent-none,
}

module _ {S : Type 0} (k : PcieKernel S) where
  pub from_stage :
      (c : PcieCall) (st st' : Stage) {r : Status × PcieState S}
      → st ≡ st'
      → Steps c st' r
      → Steps c st r
  from_stage c st st' {r = r} p h = subst (λ (x : Stage). Steps c x r) (sym p) h

  pub stay :
      (c : PcieCall) (st : Stage) (m : PcieState S) (ret : Status)
      → StateAt st m
      → is_ok ret ≡ false
      → Steps c st (ret, m)
  stay c st m ret h e = record { stage = st; next = call_refused c st ret e; at = h }

  x1_bridge_probe-ProbeAt :
      (m : PcieState S) → m.registered ≡ true → m.owner ≡ none → ProbeAt (x1_bridge_probe k m)
  unfolding x1_bridge_probe
  x1_bridge_probe-ProbeAt m g e =
      checked-cases ProbeAt (probe_admit k m.window m.router (not (is_null m.owner)) m.rest) _ _
        (λ s _. record {
          registered = g;
          outcome = inr (_, refl, owned_probe-lem k (m.devices, s));
        })
        (λ ret s _ n. record { registered = g; outcome = inl e })

  probed-ProbeAt :
      (b : Bool) (m : PcieState S) → m.registered ≡ true → m.owner ≡ none → ProbeAt (probed k b m)
  probed-ProbeAt true m g e = x1_bridge_probe-ProbeAt m g e
  probed-ProbeAt false m g e = record { registered = g; outcome = inl e }

  -- The end of a start, with the result of the registration.
  started-Steps :
      (r : Bool) (q : Status × PcieState S)
      → ProbeAt q.1
      → Steps (start_call r) absent (started k q)
  started-Steps r (ret, m) h = elim h.outcome [
    | inl e ↦ record {
      stage = absent;
      next = call_refused _ absent _ (ground arith);
      at = record { closed = refl; unregistered = λ u. refl; stage = rw e refl };
    }
    | inr (b, e, inl y) ↦ record {
      stage = ready;
      next = start_ready r _;
      at = record { closed = refl; unregistered = λ u. ground arith; stage = rw e y };
    }
    | inr (b, e, inr f) ↦ record {
      stage = failed;
      next = start_failed r _ (failed_verdict ret m.owner b e f);
      at = record { closed = refl; unregistered = λ u. ground arith; stage = rw e f };
    }
  ]

  register_driver-ProbeAt :
      (m : PcieState S) → m.registered ≡ true → m.owner ≡ none → ProbeAt (register_driver k m).1
  unfolding register_driver
  register_driver-ProbeAt m g e =
      let (found, s) = (k.driver_register m.rest).1 in
      probed-ProbeAt found (record m { rest = s }) g e

  pub x1_pcie_start-Steps :
      (r : Bool) (st : Stage) (m : PcieState S)
      → StateAt st m
      → Steps (start_call r) st (x1_pcie_start k r m)
  unfolding x1_pcie_start
  x1_pcie_start-Steps r st m h =
      if_cases (Steps (start_call r) st) (not (r && gates_open (k.platform m.rest))) _ _
        (λ _. stay (start_call r) st m (err eperm) h refl)
        (λ _.
          if_cases (Steps (start_call r) st) m.registered _ _
            (λ _. stay (start_call r) st m (err ealready) h refl)
            (λ e.
              let o =
                absent-none m.owner m.devices
                  (subst (λ (x : Stage). OwnerAt x m.owner m.devices) (h.unregistered e) h.stage) in
              let m' = record m { registered = true; router = r; window = true } in
              subst (λ (x : Stage). Steps (start_call r) x (started k (register_driver k m')))
                (sym (h.unregistered e))
                (started-Steps r (register_driver k m') (register_driver-ProbeAt m' refl o))))
