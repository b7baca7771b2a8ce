-- ===== src/Pcie/Order.antt =====
-- The three calls take only the steps between the stages of the owner.
use yoga_slim7x_usb.Base.{
  ◌≡◌, refl, ap, List, ◌++◌, Option, none, some, Bool, true, false, not, if_cases, Status, ok, err,
  positive, eperm, is_ok, arith, ◌>>>◌,
}
use yoga_slim7x_usb.Bridge.{x1_pci0_train, x1_pci0_windows}
use yoga_slim7x_usb.Pcie.{X1Bridge, PciDevice, EndpointScan, fixup_all, find_endpoints}
use yoga_slim7x_usb.Pcie.Probe.{PcieKernel}
use yoga_slim7x_usb.Pcie.Calls.{
  PcieState, on_owner, train_admitted, scan_admitted, scan_verdict, train_ended, train_owner,
  x1_pcie_train, as_bound, inventory, scan_ended, scan_owner, x1_pcie_scan,
}
use yoga_slim7x_usb.Pcie.Endpoint.{fixup_all-Marks, find_endpoints-owner, find_endpoints-IsOnly}
use yoga_slim7x_usb.Pcie.Ready.{Late, late, IsReady}
use yoga_slim7x_usb.Pcie.Stages.{
  Stage, ready, untrained, trained, refused, admitted, IsAt, OwnerAt, StateAt, PcieCall, start_call,
  train_call, scan_call, pcie_call, train_failed, train_done, scan_refused, scan_admitted_one,
  Steps, train_admitted-ready, IsTrained, scan_admitted-trained, registered_lem,
  downstream-IsScanned, Marks-IsScanned, endpoint-IsScanned, verdict-counts, verdict-enodev,
}
use yoga_slim7x_usb.Pcie.Started.{from_stage, stay, x1_pcie_start-Steps}

module _ {S : Type 0} (k : PcieKernel S) where
  train_ended-Steps :
      (m : PcieState S) (b : X1Bridge) (r : Status × S)
      → m.registered ≡ true
      → m.window ≡ false
      → IsReady b
      → Steps train_call ready (train_ended k m (record b { train_attempted = true }) r)
  train_ended-Steps m b r g c h = split r
    where
      tried :
          (t : Bool)
          → late (record b { train_attempted = true; trained = t })
            ≡ (true, true, t, false, none, false)
      tried t = ap (λ (l : Late). (l.0, true, t, l.3, l.4, l.5)) h.idle

      split :
          (r : Status × S)
          → Steps train_call ready (train_ended k m (record b { train_attempted = true }) r)
      split (ok, s) = record {
        stage = trained;
        next = train_done;
        at = record {
          closed = c;
          unregistered = λ u. ground arith;
          stage = (h.prepared, tried true, h.sound);
        };
      }
      split (err e, s) = record {
        stage = untrained;
        next = train_failed (err e) refl;
        at = record {
          closed = c;
          unregistered = λ u. ground arith;
          stage = (h.prepared, ap (λ (l : Late). (l.0, true, l.2, l.3, l.4, l.5)) h.idle, refl);
        };
      }
      split (positive n, s) = record {
        stage = untrained;
        next = train_failed (positive n) refl;
        at = record {
          closed = c;
          unregistered = λ u. ground arith;
          stage = (h.prepared, ap (λ (l : Late). (l.0, true, l.2, l.3, l.4, l.5)) h.idle, refl);
        };
      }

  train_owner-Steps :
      (st : Stage) (m : PcieState S) (b : X1Bridge)
      → m.owner ≡ some b
      → StateAt st m
      → IsAt st b m.devices
      → Steps train_call st (train_owner k m b)
  train_owner-Steps st m b q h at =
      if_cases (Steps train_call st) (not (train_admitted b)) _ _
        (λ _. stay k train_call st m (err eperm) h refl)
        (λ e.
          let (p, y) = train_admitted-ready st b m.devices at (ground arith) in
          let g = registered_lem st m h (λ a. ground arith) in
          from_stage k train_call st ready p (
            train_ended-Steps m b ((x1_pci0_train k.io >>> x1_pci0_windows k.io) m.rest) g h.closed
              y))

  -- The end of a scan, whatever devices were found.
  scan_ended-Steps :
      (m : PcieState S) (b : X1Bridge) (found : List PciDevice) (s : S)
      → m.registered ≡ true
      → m.window ≡ false
      → IsTrained b
      → Steps scan_call trained
          (scan_ended k m s (inventory k (record b { downstream = true }) m.devices found s))
  unfolding inventory
  scan_ended-Steps m b found s g c h =
      let d = downstream-IsScanned b h in
      let b' = record b { downstream = true } in
      let (fixed, o) = fixup_all found b' in
      let all = as_bound k s m.devices ++ fixed in
      let z = Marks-IsScanned b' o d (fixup_all-Marks found b' d.0.4) in
      let start : EndpointScan = record { owner = o; nvmes = 0; others = 0 } in
      let f = find_endpoints all start in
      let (e, q) = find_endpoints-owner all start in
      let n = endpoint-IsScanned o f.owner e z q in
      if_cases (Steps scan_call trained) (is_ok (scan_verdict f)) _ _
        (λ v.
          let (i, j) = verdict-counts f v in
          record {
            stage = admitted;
            next = scan_admitted_one;
            at = record {
              closed = c;
              unregistered = λ u. ground arith;
              stage = (
                n.0,
                ap (λ (l : Late). (l.0, l.1, l.2, l.3, l.4, true)) n.1,
                n.2,
                find_endpoints-IsOnly all start (ap (λ (l : Late). l.4) z.1) i j,
              );
            };
          })
        (λ v. record {
          stage = refused;
          next = rw (verdict-enodev f v) scan_refused;
          at = record { closed = c; unregistered = λ u. ground arith; stage = (n.0, n.1, v) };
        })

  scan_owner-Steps :
      (st : Stage) (m : PcieState S) (b : X1Bridge)
      → m.owner ≡ some b
      → StateAt st m
      → IsAt st b m.devices
      → Steps scan_call st (scan_owner k m b)
  scan_owner-Steps st m b q h at =
      if_cases (Steps scan_call st) (not (scan_admitted b)) _ _
        (λ _. stay k scan_call st m (err eperm) h refl)
        (λ e.
          let (p, y) = scan_admitted-trained st b m.devices at (ground arith) in
          let g = registered_lem st m h (λ a. ground arith) in
          let (found, s) = k.rescan m.rest in
          from_stage k scan_call st trained p (scan_ended-Steps m b found s g h.closed y))

  owner-Steps :
      (c : PcieCall) (st : Stage) (m : PcieState S) (f : X1Bridge → Status × PcieState S)
      → StateAt st m
      → ((b : X1Bridge) → m.owner ≡ some b → IsAt st b m.devices → Steps c st (f b))
      → Steps c st (on_owner k m f m.owner)
  owner-Steps c st m f h g = split m.owner refl h.stage
    where
      split :
          (o : Option X1Bridge)
          → m.owner ≡ o
          → OwnerAt st o m.devices
          → Steps c st (on_owner k m f o)
      split none q at = stay k c st m (err eperm) h refl
      split (some b) q at = g b q at

  x1_pcie_train-Steps :
      (st : Stage) (m : PcieState S) → StateAt st m → Steps train_call st (x1_pcie_train k m)
  unfolding x1_pcie_train
  x1_pcie_train-Steps st m h =
      owner-Steps train_call st m (train_owner k m) h (λ b q at. train_owner-Steps st m b q h at)

  x1_pcie_scan-Steps :
      (st : Stage) (m : PcieState S) → StateAt st m → Steps scan_call st (x1_pcie_scan k m)
  unfolding x1_pcie_scan
  x1_pcie_scan-Steps st m h =
      owner-Steps scan_call st m (scan_owner k m) h (λ b q at. scan_owner-Steps st m b q h at)

  -- Whatever the kernel, the device tree and the port answer, a call at a stage returns what the
  -- stage allows and goes to a stage that it may reach: only a start that has made the owner ready
  -- is followed by one training, and only a training that has succeeded by one scan.
  pub pcie_call-Steps :
      (c : PcieCall) (st : Stage) (m : PcieState S) → StateAt st m → Steps c st (pcie_call k c m)
  unfolding pcie_call
  pcie_call-Steps (start_call r) st m h = x1_pcie_start-Steps k r st m h
  pcie_call-Steps train_call st m h = x1_pcie_train-Steps st m h
  pcie_call-Steps scan_call st m h = x1_pcie_scan-Steps st m h
