-- ===== src/Manager/Deadline.antt =====
-- The wait of `x1_native_connect` ends: 1000 rounds are enough for its deadline of 20 seconds.
use yoga_slim7x_usb.Base.{
  ℕ, zero, suc, ◌+◌, ◌-◌, ◌*◌, ◌≤◌, ◌<◌, ◌≡◌, refl, Option, none, some, Bool, true, false, ◌&&◌,
  not, if_cases, Status, ok, err, positive, is_ok, is_null, arith,
}
use yoga_slim7x_usb.Native.{x1_native_connect_word_allowed, x1_native_rescan_allowed}
use yoga_slim7x_usb.Manager.{
  X1Native, Switch, ManagerKernel, PcieCalls, Managed, ManagerState, is_terminal, scan_results,
}
use yoga_slim7x_usb.Manager.Connect.{
  Round, finished, again, rescan_now, round_absent, round_found, round_locked, connect_round,
  next_round, connect_loop, storage_after, command_ended, connect_owner, connect_admitted,
  connect_static, x1_native_connect,
}

-- A clock of the kernel: `remaining` is the time in milliseconds up to the deadline. No callback
-- gives time back, and a sleep takes 20 milliseconds at least.
pub record IsClock {S : Type 0} (k : ManagerKernel S) (remaining : S → ℕ) : Type 0 where
  pub set : (s : S) → remaining (k.set_deadline s) ≤ 20000
  pub valid : (s : S) → remaining (k.valid s).1 ≤ remaining s
  pub try_lock : (s : S) → remaining (k.try_lock s).1 ≤ remaining s
  pub find_switch : (s : S) → remaining (k.find_switch s).1 ≤ remaining s
  pub rescan : (s : S) → remaining (k.rescan s).1.1 ≤ remaining s
  pub sleep : (s : S) → remaining (k.sleep s).1 ≤ remaining s - 20
  pub before : (s : S) → k.before s 0 ≡ true → 0 < remaining s

module _ {S : Type 0} (k : ManagerKernel S) (p : PcieCalls S) (remaining : S → ℕ)
    (c : IsClock k remaining) where
  -- The time after a round is that before it or less.
  abbrev Later : S → Round × Managed S → Type 0
  Later s q = remaining q.1.1 ≤ remaining s

  rescan_now-Later : (t : Managed S) → Later t.1 (rescan_now k p t)
  unfolding rescan_now
  rescan_now-Later t =
      let a = c.valid t.1 in
      let b = c.rescan (k.valid t.1).1 in
      if_cases (Later t.1) (k.valid t.1).0 _ _ (λ _. omega (arith, a, b)) (λ _. a)

  round_absent-Later : (r : Bool) (t : Managed S) → Later t.1 (round_absent k p r t)
  unfolding round_absent
  round_absent-Later r t =
      if_cases (Later t.1) (is_terminal t.0) _ _ (λ _. omega arith)
        (λ _.
          if_cases (Later t.1)
            (x1_native_rescan_allowed r t.0.scan_preconfig t.0.scan_error && k.before t.1 8000) _ _
            (λ _. rescan_now-Later t) (λ _. omega arith))

  round_found-Later :
      (r : Bool) (o : Option Switch) (t : Managed S) → Later t.1 (round_found k p r o t)
  round_found-Later r none t = round_absent-Later r t
  round_found-Later r (some w) t = omega arith

  round_locked-Later : (r : Bool) (t : Managed S) → Later t.1 (round_locked k p r t)
  unfolding round_locked
  round_locked-Later r t =
      let a = c.find_switch t.1 in
      let b = round_found-Later r (k.find_switch t.1).0 (t.0, (k.find_switch t.1).1) in
      if_cases (Later t.1) (is_terminal t.0) _ _ (λ _. omega arith) (λ _. omega (arith, a, b))

  connect_round-Later : (r : Bool) (t : Managed S) → Later t.1 (connect_round k p r t)
  unfolding connect_round
  connect_round-Later r t =
      let (v, u) = k.valid t.1 in
      let (l, x) = k.try_lock u in
      let a = c.valid t.1 in
      let b = c.try_lock u in
      let d = round_locked-Later r (t.0, x) in
      if_cases (Later t.1) (not v) _ _ (λ _. a)
        (λ _. if_cases (Later t.1) l _ _ (λ _. omega (arith, a, b, d)) (λ _. omega (arith, a, b)))

  abbrev HasResult : {B : Type 0} → Option Status × B → Type 0
  HasResult q = is_null q.0 ≡ false

  next_round-HasResult :
      (left : ℕ) (q : Round × Managed S) (more : Bool → Managed S → Option Status × Managed S)
      → remaining q.1.1 ≤ 20 * (left + 1)
      → ((r : Bool) (t : Managed S)
          → 0 < remaining t.1
          → remaining t.1 ≤ 20 * left
          → HasResult (more r t))
      → HasResult (next_round k p q more)
  unfolding next_round
  next_round-HasResult left (finished ret, t) more h f = refl
  next_round-HasResult left (again r, (n, s)) more h f =
      let (rs, u) = k.sleep s in
      let a = c.sleep s in
      if_cases HasResult (k.before u 0) _ _
        (λ e. f r (scan_results rs n, u) (c.before u e) (omega (arith, a, h))) (λ _. refl)

  connect_loop-HasResult :
      (left : ℕ) (r : Bool) (t : Managed S)
      → remaining t.1 ≤ 20 * (left + 1)
      → HasResult (connect_loop k p (suc left) r t)
  unfolding connect_loop
  connect_loop-HasResult zero r t h =
      let a = connect_round-Later r t in
      next_round-HasResult 0 (connect_round k p r t) _ (omega (arith, a, h))
        (λ r u x y. ground arith)
  connect_loop-HasResult (suc left) r t h =
      let a = connect_round-Later r t in
      next_round-HasResult (suc left) (connect_round k p r t) _ (omega (arith, a, h))
        (λ r u x y. connect_loop-HasResult left r u (omega (arith, y)))

  storage_after-HasResult :
      (q : Option Status × Managed S) → HasResult q → HasResult (storage_after k p q)
  unfolding storage_after
  storage_after-HasResult (none, t) h = h
  storage_after-HasResult (some ok, t) h = refl
  storage_after-HasResult (some (err e), t) h = refl
  storage_after-HasResult (some (positive n), t) h = refl

  connect_owner-HasResult : (w : ℕ) (t : Managed S) → HasResult (connect_owner k p 1000 w t)
  unfolding connect_owner command_ended
  connect_owner-HasResult w t =
      let (v, u) = k.valid t.1 in
      let (ret, (rs, s)) = k.connect u w in
      if_cases HasResult (not v) _ _ (λ _. refl)
        (λ _.
          if_cases HasResult (not (is_ok ret)) _ _ (λ _. refl)
            (λ _.
              storage_after-HasResult _ (
                connect_loop-HasResult 999 false (scan_results rs t.0, k.set_deadline s)
                  (c.set s))))

  connect_static-HasResult :
      (w : ℕ) (o : Option X1Native) (s : S) → HasResult (connect_static k p 1000 w o s)
  connect_static-HasResult w none s = refl
  connect_static-HasResult w (some n) s =
      if_cases HasResult (not (connect_admitted n)) _ _ (λ _. refl)
        (λ _. connect_owner-HasResult w (record n { attempted = true }, s))

  -- With a clock, a call to connect returns after 1000 rounds of its wait at most, whatever is
  -- reported and answered.
  pub x1_native_connect_returns :
      (w : ℕ) (valid : Bool) (t : ManagerState S)
      → is_null (x1_native_connect k p 1000 w valid t).0 ≡ false
  unfolding x1_native_connect
  x1_native_connect_returns w valid (o, s) =
      if_cases HasResult (not (is_ok (x1_native_connect_word_allowed w))) _ _ (λ _. refl)
        (λ _. if_cases HasResult (not valid) _ _ (λ _. refl) (λ _. connect_static-HasResult w o s))
