-- ===== src/Startup/Clear.antt =====
-- `clear_1200c`: how often it touches the register, and what its success means.
use yoga_slim7x_usb.Base.{
  ℕ, zero, suc, ◌+◌, ◌^◌, ◌≤◌, ◌≡◌, refl, false, Status, ok, err, positive, etimedout, proceed,
  proceed-ok, Bool-cases, inl, inr, ◌⊎◌, bit, arith,
}
use yoga_slim7x_usb.Startup.{X1Ops, after_read, clear_loop, clear_1200c}

-- How often the callbacks were called.
pub record Counts : Type 0 where
  pub reads : ℕ
  pub updates : ℕ

-- Callbacks that count the reads and updates beside what they do.
abbrev pub counted : {S : Type 0} → X1Ops S → X1Ops (S × Counts)
counted ops = record {
  all_set = ops.all_set;
  take_ownership = λ s cfg. let (r, t) = ops.take_ownership s.0 cfg in (r, (t, s.1));
  perform = λ s x cfg. let (r, t) = ops.perform s.0 x cfg in (r, (t, s.1));
  read = λ s o.
      let (r, v, t) = ops.read s.0 o in
      (r, v, (t, record { reads = s.1.reads + 1; updates = s.1.updates }));
  update = λ s o m v.
      let (r, t) = ops.update s.0 o m v in
      (r, (t, record { reads = s.1.reads; updates = s.1.updates + 1 }));
  delay_us = λ s us. (ops.delay_us s.0 us, s.1);
}

module _ {S : Type 0} (ops : X1Ops S) where
  after_read_bounded :
      (o : ℕ) (s : S × Counts) (again : S × Counts → Status × (S × Counts)) (reads updates : ℕ)
      → ((t : S × Counts)
          → t.1.reads ≡ s.1.reads + 1
          → t.1.updates ≡ s.1.updates
          → ((again t).1.1.reads ≤ reads) × ((again t).1.1.updates ≤ updates))
      → s.1.reads + 1 ≤ reads
      → s.1.updates ≤ updates
      → let c = (after_read (counted ops) ((counted ops).read s o) again).1.1 in
        (c.reads ≤ reads) × (c.updates ≤ updates)
  after_read_bounded o s again reads updates h hr hu = go (ops.read s.0 o)
    where
      next : S → S × Counts
      next u = (u, record { reads = s.1.reads + 1; updates = s.1.updates })

      go :
          (r : Status × ℕ × S)
          → let c = (after_read (counted ops) (r.0, r.1, next r.2) again).1.1 in
            (c.reads ≤ reads) × (c.updates ≤ updates)
      go (ok, v, u) = elim (Bool-cases (bit v 31)) [
        | inl e ↦ rw e (h (next u) refl refl)
        | inr e ↦ rw e (hr, hu)
      ]
      go (err e, v, u) = (hr, hu)
      go (positive n, v, u) = (hr, hu)

  update_bounded :
      (s : S × Counts) (o m v : ℕ) (f : S × Counts → Status × (S × Counts)) (reads updates : ℕ)
      → ((t : S × Counts)
          → t.1.reads ≡ s.1.reads
          → t.1.updates ≡ s.1.updates + 1
          → ((f t).1.1.reads ≤ reads) × ((f t).1.1.updates ≤ updates))
      → s.1.reads ≤ reads
      → s.1.updates + 1 ≤ updates
      → let c = (proceed ((counted ops).update s o m v) f).1.1 in
        (c.reads ≤ reads) × (c.updates ≤ updates)
  update_bounded s o m v f reads updates h hr hu = go (ops.update s.0 o m v)
    where
      next : S → S × Counts
      next u = (u, record { reads = s.1.reads; updates = s.1.updates + 1 })

      go :
          (r : Status × S)
          → let c = (proceed (r.0, next r.1) f).1.1 in (c.reads ≤ reads) × (c.updates ≤ updates)
      go (ok, u) = h (next u) refl refl
      go (err e, u) = (hr, hu)
      go (positive n, u) = (hr, hu)

  clear_loop_bounded :
      (left : ℕ) (s : S × Counts)
      → let c = (clear_loop (counted ops) left s).1.1 in
        (c.reads ≤ s.1.reads + left + 1) × (c.updates ≤ s.1.updates + left)
  unfolding clear_loop
  clear_loop_bounded zero s =
      after_read_bounded 0x1200c s _ (s.1.reads + zero + 1) (s.1.updates + zero)
        (λ t p q. (omega arith, omega arith)) (omega arith) (omega arith)
  clear_loop_bounded (suc left) s =
      after_read_bounded 0x1200c s _ (s.1.reads + suc left + 1) (s.1.updates + suc left)
        (λ t p q.
          update_bounded t 0x1200c (2 ^ 31) 0 _ (s.1.reads + suc left + 1) (s.1.updates + suc left)
            (λ u p' q'.
              let k = clear_loop_bounded left ((counted ops).delay_us u 1) in
              (omega arith, omega arith))
            (omega arith) (omega arith))
        (omega arith) (omega arith)

  after_read_ok :
      (r : Status × ℕ × S) (again : S → Status × S) (t : S)
      → after_read ops r again ≡ (ok, t)
      → ((v : ℕ) × (r ≡ (ok, v, t)) × (bit v 31 ≡ false)) ⊎ ((u : S) × (again u ≡ (ok, t)))
  after_read_ok (ok, v, u) again t h = elim (Bool-cases (bit v 31)) [
    | inl e ↦ inr (u, rw e at h)
    | inr e ↦ inl (v, ground arith, e)
  ]
  after_read_ok (err e, v, u) again t h = ground arith
  after_read_ok (positive n, v, u) again t h = ground arith

  -- A run of the loop that succeeds ends with a read that saw bit 31 clear.
  clear_loop_success :
      (left : ℕ) (s t : S)
      → clear_loop ops left s ≡ (ok, t)
      → (u : S) × (v : ℕ) × (ops.read u 0x1200c ≡ (ok, v, t)) × (bit v 31 ≡ false)
  unfolding clear_loop
  clear_loop_success zero s t h =
      elim (after_read_ok (ops.read s 0x1200c) (λ u. (err etimedout, u)) t h) [
        | inl (v, e, b) ↦ (s, v, e, b)
        | inr (u, e) ↦ absurd (ground arith)
      ]
  clear_loop_success (suc left) s t h = elim (after_read_ok (ops.read s 0x1200c) _ t h) [
    | inl (v, e, b) ↦ (s, v, e, b)
    | inr (u, e) ↦
        let (w, a, k) =
          proceed-ok (ops.update u 0x1200c (2 ^ 31) 0) (λ x. clear_loop ops left (ops.delay_us x 1))
            t e in
        clear_loop_success left (ops.delay_us w 1) t k
  ]

proceed_counts :
    {S : Type 0} (r : Status × (S × Counts)) (f : S → S) (reads updates : ℕ)
    → r.1.1.reads ≤ reads
    → r.1.1.updates ≤ updates
    → let c = (proceed r (λ t. (ok, (f t.0, t.1)))).1.1 in (c.reads ≤ reads) × (c.updates ≤ updates)
proceed_counts (ok, t) f reads updates a b = (a, b)
proceed_counts (err e, t) f reads updates a b = (a, b)
proceed_counts (positive n, t) f reads updates a b = (a, b)

-- The wait for the router's register is bounded by twelve reads and eleven writes, whatever the
-- hardware answers.
pub clear_1200c_bounded :
    {S : Type 0} (ops : X1Ops S) (s : S × Counts)
    → let c = (clear_1200c (counted ops) s).1.1 in
      (c.reads ≤ s.1.reads + 12) × (c.updates ≤ s.1.updates + 11)
unfolding clear_1200c
clear_1200c_bounded ops s =
    let k = clear_loop_bounded ops 11 s in
    proceed_counts (clear_loop (counted ops) 11 s) (λ t. ops.delay_us t 10000) (s.1.reads + 12)
      (s.1.updates + 11) (omega arith) (omega arith)

-- The wait succeeds only if the last of its reads saw bit 31 clear, and then it has ended with the
-- settling delay of ten milliseconds.
pub clear_1200c_success :
    {S : Type 0} (ops : X1Ops S) (a b : S)
    → clear_1200c ops a ≡ (ok, b)
    → (u t : S) × (v : ℕ) × (ops.read u 0x1200c ≡ (ok, v, t))
      × (bit v 31 ≡ false)
      × (b ≡ ops.delay_us t 10000)
unfolding clear_1200c
clear_1200c_success ops a b h =
    let (t, e, k) = proceed-ok (clear_loop ops 11 a) (λ x. (ok, ops.delay_us x 10000)) b h in
    let (u, v, r, z) = clear_loop_success ops 11 a t e in (u, t, v, r, z, ground arith)
