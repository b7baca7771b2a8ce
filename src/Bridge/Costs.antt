-- ===== src/Bridge/Costs.antt =====
-- How many accesses the phases make at most, and how long they wait.
use yoga_slim7x_usb.Base.{
  ℕ, zero, suc, ◌+◌, ◌*◌, ◌≤◌, List, [], ◌∷◌, length, Bool, ◌&&◌, ◌||◌, ◌==◌, ◌/=◌, if_cases,
  bit_and, bit_or, Status, ok, err, positive, arith, Step, ◌>>>◌, each, proceed,
}
use yoga_slim7x_usb.Bridge.{
  X1Pci0Io, x1_pr_unused, x1_pw, x1_pm, x1_pv, x1_pp, poll_round, require, pause, set_values,
  set_masked, closed_by, cleared_after, x1_pci0_reset_request,
}
use yoga_slim7x_usb.Bridge.Tables.{X1Pci0Region, x1_router}
use yoga_slim7x_usb.Bridge.Trace.{
  Access, was_read, was_written, was_reset, was_delayed, Traced, traced,
}

-- The reads, the writes and the milliseconds of delay in a trace.
unfoldable pub reads_in : List Access → ℕ
reads_in [] = 0
reads_in (was_read r off v ∷ before) = reads_in before + 1
reads_in (was_written r off v ∷ before) = reads_in before
reads_in (was_reset b ∷ before) = reads_in before
reads_in (was_delayed ms ∷ before) = reads_in before

unfoldable pub writes_in : List Access → ℕ
writes_in [] = 0
writes_in (was_read r off v ∷ before) = writes_in before
writes_in (was_written r off v ∷ before) = writes_in before + 1
writes_in (was_reset b ∷ before) = writes_in before
writes_in (was_delayed ms ∷ before) = writes_in before

unfoldable pub waited_in : List Access → ℕ
waited_in [] = 0
waited_in (was_read r off v ∷ before) = waited_in before
waited_in (was_written r off v ∷ before) = waited_in before
waited_in (was_reset b ∷ before) = waited_in before
waited_in (was_delayed ms ∷ before) = waited_in before + ms

-- At most so many reads, writes and milliseconds between two traces.
abbrev pub Within : (reads writes ms : ℕ) → (from to : List Access) → Type 0
Within n w m from to =
    (reads_in to ≤ n + reads_in from)
    × (writes_in to ≤ w + writes_in from)
    × (waited_in to ≤ m + waited_in from)

pub record Costs {S : Type 0} (f : Step (Traced S)) (reads writes ms : ℕ) : Type 0 where
  pub within : (s : Traced S) → Within reads writes ms s.1 (f s).1.1

proceed-Within :
    {S : Type 0} (n w m n' w' m' : ℕ) (s : Traced S) (r : Status × Traced S) (g : Step (Traced S))
    → Within n w m s.1 r.1.1
    → ((t : Traced S) → Within n' w' m' t.1 (g t).1.1)
    → Within (n + n') (w + w') (m + m') s.1 (proceed r g).1.1
proceed-Within n w m n' w' m' s (ok, t) g h k = let l = k t in ground arith
proceed-Within n w m n' w' m' s (err e, t) g h k = ground arith
proceed-Within n w m n' w' m' s (positive c, t) g h k = ground arith

infixl 5 ◌and_then◌
pub ◌and_then◌ :
    {S : Type 0} {f g : Step (Traced S)} {n w m n' w' m' : ℕ}
    → Costs f n w m
    → Costs g n' w' m'
    → Costs (f >>> g) (n + n') (w + w') (m + m')
unfolding ◌>>>◌
◌and_then◌ {f = f} {g = g} h k = record {
  within = λ s. proceed-Within _ _ _ _ _ _ s (f s) g (h.within s) k.within;
}

module _ {S : Type 0} (io : X1Pci0Io S) where
  pub require-Costs :
      (r : X1Pci0Region) (off : ℕ) (p : ℕ → Bool) (ret : Status)
      → Costs (require (traced io) r off p ret) 1 0 0
  unfolding require reads_in writes_in waited_in
  require-Costs r off p ret = record { within = λ s. ground arith }

  pub pause-Costs : (ms : ℕ) → Costs (pause (traced io) ms) 0 0 ms
  unfolding pause reads_in writes_in waited_in
  pause-Costs ms = record { within = λ s. ground arith }

  pub x1_pr-Costs : (r : X1Pci0Region) (off : ℕ) → Costs (x1_pr_unused (traced io) r off) 1 0 0
  unfolding x1_pr_unused reads_in writes_in waited_in
  x1_pr-Costs r off = record { within = λ s. ground arith }

  pub reset-Costs : (b : Bool) → Costs (λ s. (traced io).reset s b) 0 0 0
  unfolding reads_in writes_in waited_in
  reset-Costs b = record { within = λ s. ground arith }

  pub x1_pw-Costs : (r : X1Pci0Region) (off v : ℕ) → Costs (x1_pw (traced io) r off v) 0 1 0
  unfolding x1_pw reads_in writes_in waited_in
  x1_pw-Costs r off v = record { within = λ s. ground arith }

  pub x1_pv-Costs : (r : X1Pci0Region) (off v : ℕ) → Costs (x1_pv (traced io) r off v) 1 1 0
  unfolding x1_pv
  x1_pv-Costs r off v = x1_pw-Costs r off v and_then require-Costs r off _ _

  pub x1_pm-Costs :
      (r : X1Pci0Region) (off mask v : ℕ) → Costs (x1_pm (traced io) r off mask v) 2 1 0
  unfolding x1_pm require reads_in writes_in waited_in
  x1_pm-Costs r off mask v = record {
    within = λ s.
        if_cases (λ (q : Status × Traced S). Within 2 1 0 s.1 q.1.1)
          ((io.read s.0 r off).0 == 0xffffffff) _ _ (λ e. ground arith) (λ e. ground arith);
  }

  pub x1_pp-Costs :
      (r : X1Pci0Region) (off mask expected ms : ℕ)
      → Costs (x1_pp (traced io) r off mask expected ms) (suc ms) 0 ms
  unfolding x1_pp poll_round reads_in writes_in waited_in
  x1_pp-Costs r off mask expected zero = record { within = λ s. ground arith }
  x1_pp-Costs r off mask expected (suc ms) = record {
    within = λ s.
        let rest = pause-Costs 1 and_then x1_pp-Costs r off mask expected ms in
        let l = rest.within ((traced io).read s r off).1 in ground arith;
  }

  pub each-Costs :
      {A : Type 0} (f : A → Step (Traced S)) (n w : ℕ) (xs : List A)
      → ((x : A) → Costs (f x) n w 0)
      → Costs (each f xs) (length xs * n) (length xs * w) 0
  unfolding each
  each-Costs f n w [] h = record { within = λ s. ground arith }
  each-Costs f n w (x ∷ xs) h = record {
    within = λ s.
        let l =
          proceed-Within n w 0 (length xs * n) (length xs * w) 0 s (f x s) (each f xs)
            ((h x).within s) (each-Costs f n w xs h).within in
        ground arith;
  }

  pub set_values-Costs :
      (r : X1Pci0Region) (ws : List (ℕ × ℕ))
      → Costs (set_values (traced io) r ws) (length ws * 1) (length ws * 1) 0
  unfolding set_values
  set_values-Costs r ws = each-Costs _ 1 1 ws (λ w. x1_pv-Costs r w.0 w.1)

  pub set_masked-Costs :
      (r : X1Pci0Region) (ws : List (ℕ × ℕ × ℕ))
      → Costs (set_masked (traced io) r ws) (length ws * 2) (length ws * 1) 0
  unfolding set_masked
  set_masked-Costs r ws = each-Costs _ 2 1 ws (λ w. x1_pm-Costs r w.0 w.1 w.2)

  pub x1_pci0_reset_request-Costs : (b : ℕ) → Costs (x1_pci0_reset_request (traced io) b) 12 1 10
  unfolding x1_pci0_reset_request reads_in writes_in waited_in
  x1_pci0_reset_request-Costs b = record {
    within = λ s.
        if_cases (λ (q : Status × Traced S). Within 12 1 10 s.1 q.1.1)
          ((bit_and (io.read s.0 x1_router 0xe008).0 3 /= 0) || ((b /= 1) && (b /= 2))) _ _
          (λ e. ground arith)
          (λ e.
            let (old, t) = (traced io).read s x1_router 0xe008 in
            let u = (traced io).write t x1_router 0xe008 (bit_or old b) in
            let l = (x1_pp-Costs x1_router 0xe008 b 0 10).within u in ground arith);
  }

  pub closed_by-Costs :
      (close f : Step (Traced S)) (n w m n' w' m' : ℕ)
      → Costs close n w m
      → Costs f n' w' m'
      → Costs (λ s. closed_by (traced io) close (f s)) (n + n') (w + w') (m + m')
  closed_by-Costs close f n w m n' w' m' k h = record {
    within = λ s. let a = k.within (f s).1 in let b = h.within s in ground arith;
  }

  pub cleared_after-Costs :
      (f : Step (Traced S)) (n w m : ℕ)
      → Costs f n w m
      → Costs (cleared_after (traced io) f) n (w + 1) m
  unfolding reads_in writes_in waited_in
  cleared_after-Costs f n w m h = record { within = λ s. let a = h.within s in ground arith }
