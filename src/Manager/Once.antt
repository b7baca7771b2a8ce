-- ===== src/Manager/Once.antt =====
-- What is asked of the hardware between power-on and power-off, whatever calls are made.
use yoga_slim7x_usb.Base.{
  ℕ, ◌≡◌, refl, sym, ap, ◌∙◌, subst, ◌⊎◌, inl, inr, List, [], ◌∷◌, Option, none, some, Bool, true,
  false, ◌||◌, not, ◌==◌, if_cases, Status, is_ok, is_null, arith,
}
use yoga_slim7x_usb.Native.{x1_native_connect_word_allowed}
use yoga_slim7x_usb.Manager.{
  X1Native, ScanReport, ManagerKernel, PcieCalls, ManagerState, x1_native_scan_result,
  x1_native_register_connect, x1_native_stop, x1_native_pcie_authorizing, channel_stopped,
  interrupts_disabled,
}
use yoga_slim7x_usb.Manager.Start.{x1_native_start}
use yoga_slim7x_usb.Manager.Connect.{
  as_owner, connect_owner, connect_admitted, connect_static, x1_native_connect,
}
use yoga_slim7x_usb.Manager.Log.{
  Act, Logged, logged, logged_calls, IsAsked, latch, x1_native_scan_result-latch, Held,
}
use yoga_slim7x_usb.Manager.Fresh.{owner_started-Fresh}
use yoga_slim7x_usb.Manager.Ask.{command_ended-Asked}

-- The calls of the module, each with its arguments; a report comes from the Thunderbolt core.
pub data ManagerCall : Type 0 where
  start_call : (dev router : Bool) → (irq : ℕ) → (enabled : Bool) → ManagerCall
  register_call : (connect ctx : Bool) → ManagerCall
  connect_call : (left word : ℕ) → (valid : Bool) → ManagerCall
  report_call : ScanReport → ManagerCall
  stop_call : ManagerCall

abbrev pub on_native : (X1Native → X1Native) → Option X1Native → Option X1Native
on_native f none = none
on_native f (some n) = some (f n)

unfoldable pub manager_call :
    {S : Type 0} → ManagerKernel S → PcieCalls S → ManagerCall → ManagerState S → ManagerState S
manager_call k p (start_call dev router irq enabled) t =
    (x1_native_start k dev router irq enabled t).1
manager_call k p (register_call connect ctx) (o, s) =
    ((x1_native_register_connect connect ctx o).1, s)
manager_call k p (connect_call left word valid) t = (x1_native_connect k p left word valid t).1
manager_call k p (report_call r) (o, s) = (on_native (x1_native_scan_result r) o, s)
manager_call k p stop_call (o, s) = x1_native_stop k o s

unfoldable pub manager_calls :
    {S : Type 0}
    → ManagerKernel S
    → PcieCalls S
    → List ManagerCall
    → ManagerState S
    → ManagerState S
manager_calls k p [] t = t
manager_calls k p (c ∷ cs) t = manager_calls k p cs (manager_call k p c t)

-- Nothing is asked before the owner has been asked to connect.
abbrev pub OwnerAsks : (lacie_uid : ℕ) → Option X1Native → List Act → Type 0
OwnerAsks lacie_uid none log = log ≡ []
OwnerAsks lacie_uid (some n) log =
    ((latch n ≡ (false, false)) × (log ≡ []))
    ⊎ ((latch n ≡ (true, false)) × ((log ≡ []) ⊎ IsAsked lacie_uid log))

module _ {S : Type 0} (k : ManagerKernel S) (p : PcieCalls S) where
  abbrev Asks : ManagerState (Logged S) → Type 0
  Asks t = OwnerAsks k.lacie_uid t.0 t.1.1

  latch-same :
      (n m : X1Native) (log : List Act)
      → latch m ≡ latch n
      → OwnerAsks k.lacie_uid (some n) log
      → OwnerAsks k.lacie_uid (some m) log
  latch-same n m log e (inl (a, b)) = inl (e ∙ a, b)
  latch-same n m log e (inr (a, b)) = inr (e ∙ a, b)

  report-Asks :
      (r : ScanReport) (o : Option X1Native) (log : List Act)
      → OwnerAsks k.lacie_uid o log
      → OwnerAsks k.lacie_uid (on_native (x1_native_scan_result r) o) log
  report-Asks r none log h = h
  report-Asks r (some n) log h =
      latch-same n (x1_native_scan_result r n) log (x1_native_scan_result-latch r n) h

  register-Asks :
      (connect ctx : Bool) (o : Option X1Native) (log : List Act)
      → OwnerAsks k.lacie_uid o log
      → OwnerAsks k.lacie_uid (x1_native_register_connect connect ctx o).1 log
  unfolding x1_native_register_connect
  register-Asks connect ctx none log h = h
  register-Asks connect ctx (some n) log h =
      if_cases (λ (q : Status × Option X1Native). OwnerAsks k.lacie_uid q.1 log)
        (not n.live || n.stopped || n.connect || not connect || not ctx) _ _ (λ _. h)
        (λ _. latch-same n (record n { connect = true }) log refl h)

  stopped-log :
      (n : X1Native) (s : Logged S)
      → (interrupts_disabled (logged k) (channel_stopped (logged k) n s)).1 ≡ s.1
  unfolding logged
  stopped-log n s =
      if_cases (λ (u : Logged S). (interrupts_disabled (logged k) u).1 ≡ s.1) n.tb _ _
        (λ _. silent (k.ctl_stop s.0)) (λ _. silent s.0)
    where
      silent : (u : S) → (interrupts_disabled (logged k) (u, s.1)).1 ≡ s.1
      silent u = if_cases (λ (v : Logged S). v.1 ≡ s.1) (k.prepared u) _ _ (λ _. refl) (λ _. refl)

  stop-Asks :
      (o : Option X1Native) (s : Logged S) → Asks (o, s) → Asks (x1_native_stop (logged k) o s)
  unfolding x1_native_stop
  stop-Asks none s h = h
  stop-Asks (some n) s h =
      if_cases Asks n.stopped _ _ (λ _. h)
        (λ _.
          latch-same n (record n { stopped = true; live = false }) _ refl
            (subst (OwnerAsks k.lacie_uid (some n)) (sym (stopped-log n s)) h))

  null-log :
      (o : Option X1Native) (log : List Act)
      → OwnerAsks k.lacie_uid o log
      → not (is_null o) ≡ false
      → log ≡ []
  null-log none log h e = h
  null-log (some n) log h e = ground arith

  start-Asks :
      (dev router : Bool) (irq : ℕ) (enabled : Bool) (t : ManagerState (Logged S))
      → Asks t
      → Asks (x1_native_start (logged k) dev router irq enabled t).1
  unfolding x1_native_start logged
  start-Asks dev router irq enabled (o, s) h =
      let P = λ (q : Status × ManagerState (Logged S)). Asks q.1 in
      let (got, u) = k.alloc_owner s.0 in
      if_cases P (not dev || not router || (irq == 0) || not enabled) _ _ (λ _. h)
        (λ _.
          if_cases P (not (is_null o)) _ _ (λ _. h)
            (λ e.
              if_cases P (not got) _ _ (λ _. null-log o s.1 h e)
                (λ _. inl (owner_started-Fresh k (u, s.1) (null-log o s.1 h e)))))

  -- An owner that is asked to connect for the first time.
  connect_owner-Asks :
      (left w : ℕ) (n : X1Native) (s : S)
      → is_ok (x1_native_connect_word_allowed w) ≡ true
      → latch n ≡ (true, false)
      → Asks
          (as_owner
            (logged k)
            (logged_calls p)
            (connect_owner (logged k) (logged_calls p) left w (n, (s, [])))).1
  unfolding connect_owner logged
  connect_owner-Asks left w n s a l =
      let (v, t) = k.valid s in
      let P = λ (q : Option Status × Held S). Asks (as_owner (logged k) (logged_calls p) q).1 in
      if_cases P (not v) _ _ (λ _. inr (l, inl refl))
        (λ _. let (x, y) = command_ended-Asked k p left w n t l a in inr (x, inr y))

  first_lem :
      (n : X1Native) (log : List Act)
      → OwnerAsks k.lacie_uid (some n) log
      → not (connect_admitted n) ≡ false
      → (latch n ≡ (false, false)) × (log ≡ [])
  unfolding connect_admitted
  first_lem n log (inl h) e = h
  first_lem n log (inr (l, h)) e = let a = ap (λ (x : Bool × Bool). x.0) l in ground arith

  connect_static-Asks :
      (left w : ℕ) (o : Option X1Native) (s : Logged S)
      → is_ok (x1_native_connect_word_allowed w) ≡ true
      → Asks (o, s)
      → Asks (connect_static (logged k) (logged_calls p) left w o s).1
  connect_static-Asks left w none s a h = h
  connect_static-Asks left w (some n) s a h =
      let P = λ (q : Option Status × ManagerState (Logged S)). Asks q.1 in
      if_cases P (not (connect_admitted n)) _ _ (λ _. h)
        (λ e.
          let (l, g) = first_lem n s.1 h e in
          subst
            (λ (log : List Act). P (
              as_owner (logged k) (logged_calls p) (
                connect_owner (logged k) (logged_calls p) left w
                  (record n { attempted = true }, (s.0, log)))))
            (sym g)
            (connect_owner-Asks left w (record n { attempted = true }) s.0 a
              (ap (λ (x : Bool × Bool). (true, x.1)) l)))

  connect-Asks :
      (left w : ℕ) (valid : Bool) (t : ManagerState (Logged S))
      → Asks t
      → Asks (x1_native_connect (logged k) (logged_calls p) left w valid t).1
  unfolding x1_native_connect
  connect-Asks left w valid (o, s) h =
      let P = λ (q : Option Status × ManagerState (Logged S)). Asks q.1 in
      if_cases P (not (is_ok (x1_native_connect_word_allowed w))) _ _ (λ _. h)
        (λ e.
          if_cases P (not valid) _ _ (λ _. h)
            (λ _. connect_static-Asks left w o s (ground arith) h))

  manager_call-Asks :
      (c : ManagerCall) (t : ManagerState (Logged S))
      → Asks t
      → Asks (manager_call (logged k) (logged_calls p) c t)
  unfolding manager_call
  manager_call-Asks (start_call dev router irq enabled) t h = start-Asks dev router irq enabled t h
  manager_call-Asks (register_call connect ctx) (o, s) h = register-Asks connect ctx o s.1 h
  manager_call-Asks (connect_call left w valid) t h = connect-Asks left w valid t h
  manager_call-Asks (report_call r) (o, s) h = report-Asks r o s.1 h
  manager_call-Asks stop_call (o, s) h = stop-Asks o s h

  calls-Asks :
      (cs : List ManagerCall) (t : ManagerState (Logged S))
      → Asks t
      → Asks (manager_calls (logged k) (logged_calls p) cs t)
  unfolding manager_calls
  calls-Asks [] t h = h
  calls-Asks (c ∷ cs) t h = calls-Asks cs _ (manager_call-Asks c t h)

  -- Whatever calls are made after power-on, and whatever the core, the kernel and the callbacks
  -- answer, the hardware is asked for nothing or in this order: one command with a permitted word,
  -- at most one rescan, at most one tunnel, to a router of the permitted identity that can be
  -- reached and has no tunnel; nothing is asked before the owner is asked to connect, and between
  -- the calls no tunnel is let through.
  pub manager_calls-OwnerAsks :
      (cs : List ManagerCall) (s : S)
      → let t = manager_calls (logged k) (logged_calls p) cs (none, (s, [])) in
        OwnerAsks k.lacie_uid t.0 t.1.1 × (x1_native_pcie_authorizing t.0 true ≡ false)
  unfolding x1_native_pcie_authorizing
  manager_calls-OwnerAsks cs s =
      let t = manager_calls (logged k) (logged_calls p) cs (none, (s, [])) in
      let h = calls-Asks cs (none, (s, [])) refl in (h, shut t.0 t.1.1 h)
    where
      shut :
          (o : Option X1Native) (log : List Act)
          → OwnerAsks k.lacie_uid o log
          → x1_native_pcie_authorizing o true ≡ false
      shut none log h = refl
      shut (some n) log (inl (l, e)) = let a = ap (λ (x : Bool × Bool). x.1) l in ground arith
      shut (some n) log (inr (l, e)) = let a = ap (λ (x : Bool × Bool). x.1) l in ground arith
