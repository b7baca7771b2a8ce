-- ===== src/Manager/Wait.antt =====
-- The wait for the router asks for one rescan at most.
use yoga_slim7x_usb.Base.{
  ℕ, zero, suc, ◌≡◌, refl, subst, List, ◌∷◌, Option, none, some, Bool, true, false, ◌&&◌, not,
  if_cases, if◌then◌else◌, Status, ok, err, positive, is_ok, arith,
}
use yoga_slim7x_usb.Native.{x1_native_rescan_allowed}
use yoga_slim7x_usb.Manager.{
  Switch, ScanReport, ManagerKernel, PcieCalls, is_terminal, scan_results,
}
use yoga_slim7x_usb.Manager.Connect.{
  Round, finished, again, rescan_now, round_absent, round_found, round_locked, connect_round,
  next_round, connect_loop,
}
use yoga_slim7x_usb.Manager.Log.{
  Held, Waits, WaitsSome, LoopEnds, Act, rescan_act, logged, logged_calls, IsWaiting, commanded,
  rescanned, scan_results-latch,
}

module _ {S : Type 0} (k : ManagerKernel S) (p : PcieCalls S) where
  abbrev RoundEnds : Round × Held S → Type 0
  RoundEnds (finished ret, t) = WaitsSome t
  RoundEnds (again r, t) = Waits r t

  rescanned-lem : (log : List Act) → IsWaiting false log → IsWaiting true (rescan_act ∷ log)
  rescanned-lem log (commanded w h) = rescanned w h

  rescan_now-RoundEnds :
      (t : Held S) → Waits false t → RoundEnds (rescan_now (logged k) (logged_calls p) t)
  unfolding rescan_now logged
  rescan_now-RoundEnds t h =
      let (v, u) = k.valid t.1.0 in
      if_cases RoundEnds v _ _ (λ _. end t.1.1 (k.rescan u) (rescanned-lem t.1.1 h.1))
        (λ _. (false, h))
    where
      end :
          (log : List Act) (q : Status × (List ScanReport × S))
          → IsWaiting true (rescan_act ∷ log)
          → RoundEnds (
            (if is_ok q.0 then again true else finished q.0),
            (scan_results q.1.0 t.0, (q.1.1, rescan_act ∷ log)),
          )
      end log (ok, (rs, s)) w = (scan_results-latch rs t.0 h.0, w)
      end log (err e, (rs, s)) w = (true, (scan_results-latch rs t.0 h.0, w))
      end log (positive n, (rs, s)) w = (true, (scan_results-latch rs t.0 h.0, w))

  unused-lem :
      (r b : Bool) (e : Status) (c : Bool)
      → (x1_native_rescan_allowed r b e && c) ≡ true
      → r ≡ false
  unfolding x1_native_rescan_allowed
  unused-lem true b e c h = ground arith
  unused-lem false b e c h = refl

  round_absent-RoundEnds :
      (r : Bool) (t : Held S) → Waits r t → RoundEnds (round_absent (logged k) (logged_calls p) r t)
  unfolding round_absent
  round_absent-RoundEnds r t h =
      if_cases RoundEnds (is_terminal t.0) _ _ (λ _. (r, h))
        (λ _.
          if_cases RoundEnds
            (x1_native_rescan_allowed r t.0.scan_preconfig t.0.scan_error
              && (logged k).before t.1 8000)
            _ _
            (λ e. rescan_now-RoundEnds t (
              subst (λ (x : Bool). Waits x t)
                (unused-lem r t.0.scan_preconfig t.0.scan_error ((logged k).before t.1 8000) e) h))
            (λ _. h))

  round_found-RoundEnds :
      (r : Bool) (o : Option Switch) (t : Held S)
      → Waits r t
      → RoundEnds (round_found (logged k) (logged_calls p) r o t)
  round_found-RoundEnds r none t h = round_absent-RoundEnds r t h
  round_found-RoundEnds r (some w) t h = (r, h)

  round_locked-RoundEnds :
      (r : Bool) (t : Held S) → Waits r t → RoundEnds (round_locked (logged k) (logged_calls p) r t)
  unfolding round_locked logged
  round_locked-RoundEnds r t h =
      if_cases RoundEnds (is_terminal t.0) _ _ (λ _. (r, h))
        (λ _.
          round_found-RoundEnds r (k.find_switch t.1.0).0 (t.0, ((k.find_switch t.1.0).1, t.1.1)) h)

  connect_round-RoundEnds :
      (r : Bool) (t : Held S)
      → Waits r t
      → RoundEnds (connect_round (logged k) (logged_calls p) r t)
  unfolding connect_round logged
  connect_round-RoundEnds r t h =
      let (v, u) = k.valid t.1.0 in
      let (l, x) = k.try_lock u in
      if_cases RoundEnds (not v) _ _ (λ _. (r, h))
        (λ _. if_cases RoundEnds l _ _ (λ _. round_locked-RoundEnds r (t.0, (x, t.1.1)) h) (λ _. h))

  next_round-LoopEnds :
      (q : Round × Held S) (more : Bool → Held S → Option Status × Held S)
      → RoundEnds q
      → ((r : Bool) (t : Held S) → Waits r t → LoopEnds (more r t))
      → LoopEnds (next_round (logged k) (logged_calls p) q more)
  unfolding next_round logged
  next_round-LoopEnds (finished ret, t) more h f = h
  next_round-LoopEnds (again r, t) more h f =
      let (rs, u) = k.sleep t.1.0 in
      let a = scan_results-latch rs t.0 h.0 in
      if_cases LoopEnds (k.before u 0) _ _ (λ _. f r _ (a, h.1)) (λ _. (r, (a, h.1)))

  pub connect_loop-LoopEnds :
      (left : ℕ) (r : Bool) (t : Held S)
      → Waits r t
      → LoopEnds (connect_loop (logged k) (logged_calls p) left r t)
  unfolding connect_loop
  connect_loop-LoopEnds zero r t h = (r, h)
  connect_loop-LoopEnds (suc left) r t h =
      next_round-LoopEnds _ _ (connect_round-RoundEnds r t h) (connect_loop-LoopEnds left)
