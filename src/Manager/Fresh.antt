-- ===== src/Manager/Fresh.antt =====
-- A start asks nothing of the hardware and leaves a new owner.
use yoga_slim7x_usb.Base.{
  ℕ, zero, suc, ◌+◌, ◌≡◌, refl, sym, ap, ◌∙◌, [], false, if_cases, Status, ok, err, positive,
  checked-cases, Step, on_rest, on_own, demand, Invariant, ◌and_keeps◌,
}
use yoga_slim7x_usb.Manager.{new_native, ManagerKernel}
use yoga_slim7x_usb.Manager.Start.{
  caps_admitted, rings_idle, allocated, hardware_checked, domain_started, masked, owner_started,
}
use yoga_slim7x_usb.Manager.Log.{Logged, logged, latch, Held}

module _ {S : Type 0} (k : ManagerKernel S) where
  -- The steps of the start ask nothing.
  abbrev Quiet : Step (Logged S) → Type 0
  Quiet = Invariant (λ s. s.1 ≡ [])

  rings_idle-Quiet : (left i : ℕ) → Quiet (rings_idle (logged k) left i)
  unfolding rings_idle logged
  rings_idle-Quiet zero i = record { kept = λ s h. h }
  rings_idle-Quiet (suc left) i = record {
    kept = λ s h.
        let (b, t) = k.ring_enabled s.0 i in
        if_cases (λ (q : Status × Logged S). q.1.1 ≡ []) b _ _ (λ _. h)
          (λ _. (rings_idle-Quiet left (i + 1)).kept (t, s.1) h);
  }

  hardware_checked-Quiet : Quiet (hardware_checked (logged k))
  unfolding hardware_checked caps_admitted allocated demand logged
  hardware_checked-Quiet =
      record { kept = λ s h. h }
      and_keeps rings_idle-Quiet 3 0
      and_keeps record { kept = λ s h. h }
      and_keeps record { kept = λ s h. h }

  -- A new owner.
  abbrev pub Fresh : Held S → Type 0
  Fresh t = (latch t.0 ≡ (false, false)) × (t.1.1 ≡ [])

  domain_started-Fresh : Invariant Fresh (domain_started (logged k))
  unfolding domain_started allocated demand on_rest on_own logged
  domain_started-Fresh =
      record { kept = λ t h. h }
      and_keeps record { kept = λ t h. h }
      and_keeps record { kept = λ t h. h }
      and_keeps record { kept = λ t h. h }
      and_keeps record { kept = λ t h. h }
      and_keeps record { kept = λ t h. h }

  pub owner_started-Fresh : (s : Logged S) → s.1 ≡ [] → Fresh (owner_started (logged k) s).1
  unfolding owner_started logged
  owner_started-Fresh s h =
      let P = λ (q : Status × Held S). Fresh q.1 in
      let e = hardware_checked-Quiet.kept s h in
      checked-cases P (hardware_checked (logged k) s) _ _
        (λ t q. masked_lem (domain_started (logged k) (new_native, t)) (
          domain_started-Fresh.kept (new_native, t)
            (refl, ap (λ (x : Status × Logged S). x.1.1) (sym q) ∙ e)))
        (λ ret t q n. (refl, ap (λ (x : Status × Logged S). x.1.1) (sym q) ∙ e))
    where
      masked_lem : (q : Status × Held S) → Fresh q.1 → Fresh (masked (logged k) q).1
      masked_lem (ok, t) h = h
      masked_lem (err e, t) h = h
      masked_lem (positive n, t) h = h
