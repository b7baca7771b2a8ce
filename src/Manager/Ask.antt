-- ===== src/Manager/Ask.antt =====
-- After the wait, one tunnel at most is asked for.
use yoga_slim7x_usb.Base.{
  ℕ, ◌≡◌, refl, sym, ap, subst, [], ◌∷◌, Option, none, some, Bool, true, false, ◌&&◌, not, if_cases,
  Status, ok, err, positive, is_ok, arith, Step, on_rest, demand, always-Ended, Leads, ◌then_leads◌,
  Ended,
}
use yoga_slim7x_usb.Native.{x1_native_uid_allowed, x1_native_connect_word_allowed}
use yoga_slim7x_usb.Manager.{
  X1Native, Switch, ManagerKernel, PcieCalls, scan_results, x1_native_pcie_authorizing,
}
use yoga_slim7x_usb.Manager.Storage.{
  is_reachable, check_live, approve_switch, tunnel_to, open_tunnel, x1_native_prepare_storage,
}
use yoga_slim7x_usb.Manager.Connect.{storage_after, command_ended}
use yoga_slim7x_usb.Manager.Log.{
  IsPermitted, MayTunnel, Held, Waits, WaitsSome, Asked, command, Logged, logged, logged_calls,
  IsWaiting, commanded, IsAsked, waiting, tunnelled, latch, scan_results-latch,
}
use yoga_slim7x_usb.Manager.Wait.{connect_loop-LoopEnds}

module _ {S : Type 0} (k : ManagerKernel S) (p : PcieCalls S) where
  abbrev pub HasAsked : Held S → Type 0
  HasAsked = Asked k.lacie_uid

  -- A step that asks nothing.
  quiet_Leads :
      (A B : Held S → Type 0) (f : Step (Logged S))
      → ((s : Logged S) → (f s).1.1 ≡ s.1)
      → ((n : X1Native) (s u : Logged S) → u.1 ≡ s.1 → A (n, s) → A (n, u))
      → ((t : Held S) → A t → B t)
      → Leads A (on_rest f) A B
  unfolding on_rest
  quiet_Leads A B f q m w = record {
    runs = λ t h. always-Ended A A B (on_rest f t) (m t.0 t.1 (f t.1).1 (q t.1) h) (λ u x. x) w;
  }

  Waits-Asked : (t : Held S) → WaitsSome t → HasAsked t
  Waits-Asked t (r, h) = (h.0, waiting r t.1.1 h.1)

  approve_switch-Asked :
      (w : Switch) (r : Bool) (t : Held S)
      → Waits r t
      → MayTunnel k.lacie_uid w
      → HasAsked (approve_switch (logged k) (logged_calls p) w t).1
  unfolding approve_switch logged
  approve_switch-Asked w r t h a =
      let n = record t.0 { allow_pcie = true } in
      let shut = ap (λ (l : Bool × Bool). (l.0, false)) h.0 in
      let asked = tunnelled r t.1.1 w h.1 a in
      let (ret, s) = k.approve t.1.0 w (x1_native_pcie_authorizing (some n) true) in
      if_cases (λ (x : Logged S). HasAsked (record t.0 { allow_pcie = false }, x)) (is_ok ret) _ _
        (λ _. (shut, asked)) (λ _. (shut, asked))

  may_tunnel :
      (v : Bool) (w : Switch)
      → is_ok (x1_native_uid_allowed k.lacie_uid 2 w.uid) ≡ true
      → not (v && is_reachable w && not w.authorized) ≡ false
      → MayTunnel k.lacie_uid w
  unfolding x1_native_uid_allowed
  may_tunnel v w u e = record {
    chosen = λ q. ground arith;
    identity = ground arith;
    attached = ground arith;
    usb4 = ground arith;
    upstream = ground arith;
    unauthorized = ground arith;
  }

  permitted_lem : (w : ℕ) → is_ok (x1_native_connect_word_allowed w) ≡ true → IsPermitted w
  unfolding x1_native_connect_word_allowed
  permitted_lem w h = ground arith

  tunnel_to-Asked :
      (o : Option Switch) (t : Held S)
      → WaitsSome t
      → HasAsked (tunnel_to (logged k) (logged_calls p) o t).1
  unfolding tunnel_to logged
  tunnel_to-Asked none t h = Waits-Asked t h
  tunnel_to-Asked (some w) t (r, h) =
      let (v, u) = k.valid t.1.0 in
      let P = λ (q : Status × Held S). HasAsked q.1 in
      if_cases P (not (is_ok (x1_native_uid_allowed k.lacie_uid 2 w.uid))) _ _
        (λ _. Waits-Asked t (r, h))
        (λ i.
          if_cases P (not (v && is_reachable w && not w.authorized)) _ _
            (λ _. (h.0, waiting r t.1.1 h.1))
            (λ e. approve_switch-Asked w r (t.0, (u, t.1.1)) h (may_tunnel v w (ground arith) e)))

  open_tunnel-Leads : Leads WaitsSome (open_tunnel (logged k) (logged_calls p)) HasAsked HasAsked
  unfolding open_tunnel logged
  open_tunnel-Leads = record {
    runs = λ t h.
        let (o, u) = k.find_switch t.1.0 in
        always-Ended HasAsked HasAsked HasAsked
          (tunnel_to (logged k) (logged_calls p) o (t.0, (u, t.1.1)))
          (tunnel_to-Asked o (t.0, (u, t.1.1)) h) (λ x q. q) (λ x q. q);
  }

  check_live-silent : (s : Logged S) → (check_live (logged k) (logged_calls p) s).1.1 ≡ s.1
  unfolding check_live logged demand
  check_live-silent s = refl

  before_Leads :
      (f : Step (Logged S))
      → ((s : Logged S) → (f s).1.1 ≡ s.1)
      → Leads WaitsSome (on_rest f) WaitsSome HasAsked
  before_Leads f q =
      quiet_Leads WaitsSome HasAsked f q
        (λ n s u e h. (h.0, (h.1.0, subst (IsWaiting h.0) (sym e) h.1.1))) Waits-Asked

  after_Leads :
      (f : Step (Logged S))
      → ((s : Logged S) → (f s).1.1 ≡ s.1)
      → Leads HasAsked (on_rest f) HasAsked HasAsked
  after_Leads f q =
      quiet_Leads HasAsked HasAsked f q
        (λ n s u e h. (h.0, subst (IsAsked k.lacie_uid) (sym e) h.1)) (λ t h. h)

  storage-Leads :
      Leads WaitsSome (x1_native_prepare_storage (logged k) (logged_calls p)) HasAsked HasAsked
  unfolding x1_native_prepare_storage logged_calls
  storage-Leads =
      before_Leads _ check_live-silent
      then_leads before_Leads _ (λ s. refl)
      then_leads open_tunnel-Leads
      then_leads after_Leads _ check_live-silent
      then_leads after_Leads _ (λ s. refl)
      then_leads after_Leads _ check_live-silent
      then_leads after_Leads _ (λ s. refl)
      then_leads after_Leads _ check_live-silent

  Ended-Asked : (q : Status × Held S) → Ended HasAsked HasAsked q → HasAsked q.1
  Ended-Asked (ok, t) h = h
  Ended-Asked (err e, t) h = h
  Ended-Asked (positive n, t) h = h

  storage_after-Asked :
      (q : Option Status × Held S)
      → WaitsSome q.1
      → HasAsked (storage_after (logged k) (logged_calls p) q).1
  unfolding storage_after
  storage_after-Asked (none, t) h = Waits-Asked t h
  storage_after-Asked (some ok, t) h = Ended-Asked _ (storage-Leads.runs t h)
  storage_after-Asked (some (err e), t) h = Waits-Asked t h
  storage_after-Asked (some (positive n), t) h = Waits-Asked t h

  pub command_ended-Asked :
      (left w : ℕ) (n : X1Native) (s : S)
      → latch n ≡ (true, false)
      → is_ok (x1_native_connect_word_allowed w) ≡ true
      → HasAsked (command_ended (logged k) (logged_calls p) left n ((logged k).connect (s, []) w)).1
  unfolding command_ended logged
  command_ended-Asked left w n s l a =
      let (ret, (rs, u)) = k.connect s w in
      let m = scan_results rs n in
      let h : Waits false (m, (u, command w ∷ [])) =
        (scan_results-latch rs n l, commanded w (permitted_lem w a)) in
      if_cases (λ (q : Option Status × Held S). HasAsked q.1) (not (is_ok ret)) _ _
        (λ _. Waits-Asked (m, (u, command w ∷ [])) (false, h))
        (λ _.
          storage_after-Asked _
            (connect_loop-LoopEnds k p left false (m, (k.set_deadline u, command w ∷ [])) h))
