-- ===== src/Bridge/Alone.antt =====
-- The last write to one register, and the steps that leave that register alone.
use yoga_slim7x_usb.Base.{
  ℕ, zero, suc, ◌≡◌, List, [], ◌∷◌, All, All-at, Option, none, some, Bool, true, false, ◌&&◌, ◌||◌,
  ◌==◌, ◌/=◌, if◌then◌else◌, if_cases, bit_and, Status, err, etimedout, arith, Step, ◌>>>◌, return,
  Keeps, then-Keeps, each-Keeps,
}
use yoga_slim7x_usb.Bridge.{
  X1Pci0Io, x1_pr_unused, x1_pw, x1_pm, x1_pv, x1_pp, poll_round, require, pause, set_values,
  set_masked, x1_pci0_reset_request,
}
use yoga_slim7x_usb.Bridge.Tables.{X1Pci0Region, x1_root, x1_parf, x1_router}
use yoga_slim7x_usb.Bridge.Trace.{
  Access, was_read, was_written, was_reset, was_delayed, Traced, traced,
}

abbrev same_region : X1Pci0Region → X1Pci0Region → Bool
same_region x1_root x1_root = true
same_region x1_parf x1_parf = true
same_region x1_router x1_router = true
same_region _ _ = false

abbrev pub same_place : X1Pci0Region → (off : ℕ) → X1Pci0Region → (off' : ℕ) → Bool
same_place r off r' off' = same_region r r' && (off == off')

-- The value that was last written to a register.
unfoldable pub last_written : X1Pci0Region → (off : ℕ) → List Access → Option ℕ
last_written r off [] = none
last_written r off (was_read r' off' v ∷ before) = last_written r off before
last_written r off (was_written r' off' v ∷ before) =
    if same_place r off r' off' then some v else last_written r off before
last_written r off (was_reset b ∷ before) = last_written r off before
last_written r off (was_delayed ms ∷ before) = last_written r off before

-- A step after which the value last written to the register is what it was.
pub record Alone {S : Type 0} (r : X1Pci0Region) (off : ℕ) (f : Step (Traced S)) : Type 0 where
  pub kept : (o : Option ℕ) → Keeps (λ t. last_written r off t.1 ≡ o) f

infixl 5 ◌and_then◌
pub ◌and_then◌ :
    {S : Type 0} {r : X1Pci0Region} {off : ℕ} {f g : Step (Traced S)}
    → Alone r off f
    → Alone r off g
    → Alone r off (f >>> g)
◌and_then◌ {r = r} {off = off} {f = f} {g = g} h k = record {
  kept = λ o. then-Keeps (λ t. last_written r off t.1 ≡ o) f g (h.kept o) (k.kept o);
}

module _ {S : Type 0} (io : X1Pci0Io S) (r : X1Pci0Region) (off : ℕ) where
  pub require-Alone :
      (r' : X1Pci0Region) (off' : ℕ) (p : ℕ → Bool) (ret : Status)
      → Alone r off (require (traced io) r' off' p ret)
  unfolding require last_written
  require-Alone r' off' p ret = record { kept = λ o s h. h }

  pub pause-Alone : (ms : ℕ) → Alone r off (pause (traced io) ms)
  unfolding pause last_written
  pause-Alone ms = record { kept = λ o s h. h }

  pub x1_pr-Alone : (r' : X1Pci0Region) (off' : ℕ) → Alone r off (x1_pr_unused (traced io) r' off')
  unfolding x1_pr_unused last_written
  x1_pr-Alone r' off' = record { kept = λ o s h. h }

  pub x1_pw-Alone :
      (r' : X1Pci0Region) (off' v : ℕ)
      → same_place r off r' off' ≡ false
      → Alone r off (x1_pw (traced io) r' off' v)
  unfolding x1_pw last_written
  x1_pw-Alone r' off' v d = record { kept = λ o s h. rw d h }

  pub x1_pv-Alone :
      (r' : X1Pci0Region) (off' v : ℕ)
      → same_place r off r' off' ≡ false
      → Alone r off (x1_pv (traced io) r' off' v)
  unfolding x1_pv
  x1_pv-Alone r' off' v d = x1_pw-Alone r' off' v d and_then require-Alone r' off' _ _

  pub x1_pm-Alone :
      (r' : X1Pci0Region) (off' mask v : ℕ)
      → same_place r off r' off' ≡ false
      → Alone r off (x1_pm (traced io) r' off' mask v)
  unfolding x1_pm require last_written
  x1_pm-Alone r' off' mask v d = record {
    kept = λ o s h.
        if_cases (λ (q : Status × Traced S). last_written r off q.1.1 ≡ o)
          ((io.read s.0 r' off').0 == 0xffffffff) _ _ (λ e. h) (λ e. rw d h);
  }

  pub poll_round-Alone :
      (mask expected v : ℕ) (again : Step (Traced S))
      → Alone r off again
      → Alone r off (poll_round (traced io) mask expected v again)
  unfolding poll_round
  poll_round-Alone mask expected v again k = record {
    kept = λ o s h. let l = k.kept o s h in ground arith;
  }

  pub x1_pp-Alone :
      (r' : X1Pci0Region) (off' mask expected ms : ℕ)
      → Alone r off (x1_pp (traced io) r' off' mask expected ms)
  unfolding x1_pp last_written
  x1_pp-Alone r' off' mask expected zero = record {
    kept = λ o s h.
        (poll_round-Alone mask expected (io.read s.0 r' off').0 (return (err etimedout))
            (record { kept = λ p t l. l })).kept
          o _ h;
  }
  x1_pp-Alone r' off' mask expected (suc ms) = record {
    kept = λ o s h.
        (poll_round-Alone mask expected (io.read s.0 r' off').0
            (pause (traced io) 1 >>> x1_pp (traced io) r' off' mask expected ms)
            (pause-Alone 1 and_then x1_pp-Alone r' off' mask expected ms)).kept
          o _ h;
  }

  pub set_values-Alone :
      (r' : X1Pci0Region) (ws : List (ℕ × ℕ))
      → All (λ (w : ℕ × ℕ). same_place r off r' w.0 ≡ false) ws
      → Alone r off (set_values (traced io) r' ws)
  unfolding set_values
  set_values-Alone r' ws d = record {
    kept = λ o.
        each-Keeps (λ t. last_written r off t.1 ≡ o) (λ w. x1_pv (traced io) r' w.0 w.1) ws
          (λ w m.
            (x1_pv-Alone r' w.0 w.1
                (All-at (λ (w : ℕ × ℕ). same_place r off r' w.0 ≡ false) w ws d m)).kept
              o);
  }

  pub set_masked-Alone :
      (r' : X1Pci0Region) (ws : List (ℕ × ℕ × ℕ))
      → All (λ (w : ℕ × ℕ × ℕ). same_place r off r' w.0 ≡ false) ws
      → Alone r off (set_masked (traced io) r' ws)
  unfolding set_masked
  set_masked-Alone r' ws d = record {
    kept = λ o.
        each-Keeps (λ t. last_written r off t.1 ≡ o) (λ w. x1_pm (traced io) r' w.0 w.1 w.2) ws
          (λ w m.
            (x1_pm-Alone r' w.0 w.1 w.2
                (All-at (λ (w : ℕ × ℕ × ℕ). same_place r off r' w.0 ≡ false) w ws d m)).kept
              o);
  }

  pub x1_pci0_reset_request-Alone :
      (b : ℕ)
      → same_place r off x1_router 0xe008 ≡ false
      → Alone r off (x1_pci0_reset_request (traced io) b)
  unfolding x1_pci0_reset_request last_written
  x1_pci0_reset_request-Alone b d = record {
    kept = λ o s h.
        if_cases (λ (q : Status × Traced S). last_written r off q.1.1 ≡ o)
          ((bit_and (io.read s.0 x1_router 0xe008).0 3 /= 0) || ((b /= 1) && (b /= 2))) _ _ (λ e. h)
          (λ e. (x1_pp-Alone x1_router 0xe008 b 0 10).kept o _ (rw d h));
  }
