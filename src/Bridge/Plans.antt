-- ===== src/Bridge/Plans.antt =====
-- The writes of the steps that the phases are made of, as plans.
use yoga_slim7x_usb.Base.{
  ℕ, zero, suc, refl, List, Memᴰ, Bool, ◌&&◌, ◌||◌, ◌==◌, ◌/=◌, if_cases, bit_and, Status, err, eio,
  etimedout, return, arith, Step, ◌>>>◌, Keeps, then-Keeps, each-Keeps,
}
use yoga_slim7x_usb.Bridge.{
  X1Pci0Io, x1_pw, x1_pm, x1_pv, x1_pp, x1_pr_unused, poll_round, require, pause, reset_edge,
  set_values, set_masked, x1_pci0_reset_request, cleared_after, closed_by,
}
use yoga_slim7x_usb.Bridge.Tables.{X1Pci0Region, x1_parf, x1_router}
use yoga_slim7x_usb.Bridge.Trace.{
  Traced, traced, WritePlan, fixed, masked, requested, Justified, IsPlanned,
}

-- A step that makes only writes of the plans in `A`.
pub record Plans {S : Type 0} (A : WritePlan → Type 0) (f : Step (Traced S)) : Type 0 where
  pub kept : Keeps (λ t. IsPlanned A t.1) f

-- One step after the other.
infixl 5 ◌and_then◌
pub ◌and_then◌ :
    {S : Type 0} {A : WritePlan → Type 0} {f g : Step (Traced S)}
    → Plans A f
    → Plans A g
    → Plans A (f >>> g)
◌and_then◌ {A = A} {f = f} {g = g} h k = record {
  kept = then-Keeps (λ t. IsPlanned A t.1) f g h.kept k.kept;
}

module _ {S : Type 0} (io : X1Pci0Io S) (A : WritePlan → Type 0) where
  pub x1_pm-Plans :
      (r : X1Pci0Region) (off mask v : ℕ)
      → A (masked r off mask v)
      → Plans A (x1_pm (traced io) r off mask v)
  unfolding x1_pm IsPlanned Justified require
  x1_pm-Plans r off mask v a = record {
    kept = λ s h.
        if_cases (λ (q : Status × Traced S). IsPlanned A q.1.1)
          ((io.read s.0 r off).0 == 0xffffffff) _ _ (λ e. h)
          (λ e.
            ((masked r off mask v, a, (_, s.1, refl, refl, refl, (λ e'. ground arith), refl)), h));
  }

  pub x1_pw-Plans :
      (r : X1Pci0Region) (off v : ℕ) → A (fixed r off v) → Plans A (x1_pw (traced io) r off v)
  unfolding IsPlanned Justified x1_pw
  x1_pw-Plans r off v a = record { kept = λ s h. ((fixed r off v, a, (refl, refl, refl)), h) }

  pub require-Plans :
      (r : X1Pci0Region) (off : ℕ) (p : ℕ → Bool) (ret : Status)
      → Plans A (require (traced io) r off p ret)
  unfolding IsPlanned require
  require-Plans r off p ret = record { kept = λ s h. h }

  pub x1_pv-Plans :
      (r : X1Pci0Region) (off v : ℕ) → A (fixed r off v) → Plans A (x1_pv (traced io) r off v)
  unfolding x1_pv
  x1_pv-Plans r off v a =
      x1_pw-Plans r off v a and_then require-Plans r off (λ new. new == v) (err eio)

  pub pause-Plans : (ms : ℕ) → Plans A (pause (traced io) ms)
  unfolding IsPlanned pause
  pause-Plans ms = record { kept = λ s h. h }

  pub x1_pr-Plans : (r : X1Pci0Region) (off : ℕ) → Plans A (x1_pr_unused (traced io) r off)
  unfolding IsPlanned x1_pr_unused
  x1_pr-Plans r off = record { kept = λ s h. h }

  pub reset-Plans : (b : Bool) → Plans A (λ s. (traced io).reset s b)
  unfolding IsPlanned
  reset-Plans b = record { kept = λ s h. h }

  pub poll_round-Plans :
      (mask expected v : ℕ) (again : Step (Traced S))
      → Plans A again
      → Plans A (poll_round (traced io) mask expected v again)
  unfolding poll_round
  poll_round-Plans mask expected v again k = record {
    kept = λ s h. let l = k.kept s h in ground arith;
  }

  pub x1_pp-Plans :
      (r : X1Pci0Region) (off mask expected ms : ℕ)
      → Plans A (x1_pp (traced io) r off mask expected ms)
  unfolding x1_pp IsPlanned
  x1_pp-Plans r off mask expected zero = record {
    kept = λ s h.
        (poll_round-Plans mask expected (io.read s.0 r off).0 (return (err etimedout))
            (record { kept = λ t l. l })).kept
          _ h;
  }
  x1_pp-Plans r off mask expected (suc ms) = record {
    kept = λ s h.
        (poll_round-Plans mask expected (io.read s.0 r off).0
            (pause (traced io) 1 >>> x1_pp (traced io) r off mask expected ms)
            (pause-Plans 1 and_then x1_pp-Plans r off mask expected ms)).kept
          _ h;
  }

  pub reset_edge-Plans : (b : Bool) → Plans A (reset_edge (traced io) b)
  unfolding reset_edge
  reset_edge-Plans b = reset-Plans b and_then pause-Plans 5

  pub set_values-Plans :
      (r : X1Pci0Region) (ws : List (ℕ × ℕ))
      → ((w : ℕ × ℕ) → Memᴰ w ws → A (fixed r w.0 w.1))
      → Plans A (set_values (traced io) r ws)
  unfolding set_values
  set_values-Plans r ws a = record {
    kept =
        each-Keeps (λ t. IsPlanned A t.1) (λ w. x1_pv (traced io) r w.0 w.1) ws
          (λ w m. (x1_pv-Plans r w.0 w.1 (a w m)).kept);
  }

  pub set_masked-Plans :
      (r : X1Pci0Region) (ws : List (ℕ × ℕ × ℕ))
      → ((w : ℕ × ℕ × ℕ) → Memᴰ w ws → A (masked r w.0 w.1 w.2))
      → Plans A (set_masked (traced io) r ws)
  unfolding set_masked
  set_masked-Plans r ws a = record {
    kept =
        each-Keeps (λ t. IsPlanned A t.1) (λ w. x1_pm (traced io) r w.0 w.1 w.2) ws
          (λ w m. (x1_pm-Plans r w.0 w.1 w.2 (a w m)).kept);
  }

  pub x1_pci0_reset_request-Plans :
      (b : ℕ) → A (requested x1_router 0xe008 b) → Plans A (x1_pci0_reset_request (traced io) b)
  unfolding x1_pci0_reset_request IsPlanned Justified
  x1_pci0_reset_request-Plans b a = record {
    kept = λ s h.
        let old = (io.read s.0 x1_router 0xe008).0 in
        if_cases (λ (q : Status × Traced S). IsPlanned A q.1.1)
          ((bit_and old 3 /= 0) || ((b /= 1) && (b /= 2))) _ _ (λ e. h)
          (λ e. (x1_pp-Plans x1_router 0xe008 b 0 10).kept _ (
            (requested x1_router 0xe008 b, a, (old, s.1, refl, refl, refl, ground arith, refl)),
            h,
          ));
  }

  -- The gate and the PARF register 0x494 are set back after a failure too.
  pub closed_by-Plans :
      {close f : Step (Traced S)}
      → Plans A close
      → Plans A f
      → Plans A (λ s. closed_by (traced io) close (f s))
  closed_by-Plans {close} {f} k h = record { kept = λ s p. k.kept (f s).1 (h.kept s p) }

  pub cleared_after-Plans :
      {f : Step (Traced S)}
      → A (fixed x1_parf 0x494 0)
      → Plans A f
      → Plans A (cleared_after (traced io) f)
  unfolding IsPlanned Justified
  cleared_after-Plans {f} a h = record {
    kept = λ s p. ((fixed x1_parf 0x494 0, a, (refl, refl, refl)), h.kept s p);
  }
