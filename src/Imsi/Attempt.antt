-- ===== src/Imsi/Attempt.antt =====
-- The attempt at the global interrupt, step by step.
use yoga_slim7x_usb.Base.{
  ℕ, ◌≡◌, ◌≢◌, refl, sym, ap, subst, List, ◌∷◌, true, ◌/=◌, if◌then◌else◌, if_cases, ok, err, eio,
  arith, act, Ended, Leads, ◌then_leads◌,
}
use yoga_slim7x_usb.Imsi.{
  PolicyIo, ImsiPolicy, policy_status, policy_mask, u32_max, x1_policy_global_idle, on_device,
  read_receipt, status_verdict, mask_verdict, desired_mask, write_mask, global_steps,
}
use yoga_slim7x_usb.Imsi.Receipts.{
  Access, read_at, write_at, logged, IsCalm, Masked, kept, written, Halted, unread, status_read,
  mask_read, masked, mask_reread, status_reread, IsStopped, Part, Started, StatusRead, MaskRead,
  MaskWritten, Verified, Calm, IsReady, On, x1_policy_admit-Quiet, x1_policy_global_idle-Quiet,
  on_device-Leads, read_receipt-Leads,
}

-- The words that pass the checks.
IsCalm-lem : (p : ImsiPolicy) (v : ℕ) → status_verdict p v ≡ ok → IsCalm v
IsCalm-lem p v e = ground arith

present-lem : (p : ImsiPolicy) (v : ℕ) → mask_verdict p v ≡ ok → v ≢ u32_max
present-lem p v e = λ h. ground arith

latched-lem : (a v : ℕ) → (if v /= a then err eio else ok) ≡ ok → v ≡ a
latched-lem a v e = ground arith

-- Each part is one at which the attempt may stop.
abbrev Halts : (ImsiPolicy → List Access → Type 0) → Type 0
Halts Q = (p : ImsiPolicy) (log : List Access) → Q p log → Halted p log

Started-Halts : Halts Started
Started-Halts p log h = subst (Halted p) (sym h.1) (unread h.0)

StatusRead-Halts : Halts StatusRead
StatusRead-Halts p log h = subst (Halted p) (sym h.2) (status_read h.0)

MaskRead-Halts : Halts MaskRead
MaskRead-Halts p log h = subst (Halted p) (sym h.3) (mask_read h.0 h.1)

MaskWritten-Halts : Halts MaskWritten
MaskWritten-Halts p log h = masked log h

Verified-Halts : Halts Verified
Verified-Halts p log (rest, h, e, q) = subst (Halted p) (sym q) (mask_reread rest h)

Calm-Halts : Halts Calm
Calm-Halts p log (rest, h, e, c, q) = subst (Halted p) (sym q) (status_reread rest h e)

module _ {S : Type 0} (io : PolicyIo S) (irq : ℕ) where
  Part-IsStopped :
      (Q : ImsiPolicy → List Access → Type 0)
      → Halts Q
      → (p : ImsiPolicy) (log : List Access) → Part Q p log
      → IsStopped p log
  Part-IsStopped Q k p log h = record {
    once = h.once;
    unready = h.unready;
    halted = k p log h.taken;
  }

  idle-Leads :
      (Q : ImsiPolicy → List Access → Type 0)
      → Halts Q
      → Leads
          (On io (Part Q))
          (on_device (logged io) (x1_policy_global_idle (logged io) irq))
          (On io (Part Q))
          (On io IsStopped)
  idle-Leads Q k =
      on_device-Leads io (Part Q) IsStopped _ (x1_policy_global_idle-Quiet io irq)
        (Part-IsStopped Q k)

  write_mask-Leads :
      Leads
        (On io (Part MaskRead))
        (write_mask (logged io))
        (On io (Part MaskWritten))
        (On io IsStopped)
  unfolding write_mask
  write_mask-Leads = record {
    runs = λ t h.
        let p = t.0 in
        let (i, calm, present, q) = h.taken in
        if_cases (Ended (On io (Part MaskWritten)) (On io IsStopped))
          (desired_mask t.0 /= t.0.mask_before) _ _
          (λ e. record {
            once = h.once;
            unready = h.unready;
            taken =
                subst
                  (λ (l : List Access).
                    Masked p.status_before p.mask_before true
                      (write_at policy_mask (desired_mask p) ∷ l))
                  (sym q)
                  (written refl calm present
                    (λ (a : desired_mask p ≡ p.mask_before). ground arith));
          })
          (λ e. record {
            once = h.once;
            unready = h.unready;
            taken =
                subst (Masked p.status_before p.mask_before p.mask_write_issued) (sym q)
                  (kept i calm present (ground arith));
          });
  }

  StatusRead-Leads :
      Leads
        (On io (Part Started))
        (read_receipt
          (logged io)
          policy_status
          (λ v p. record p { status_before = v })
          status_verdict)
        (On io (Part StatusRead))
        (On io IsStopped)
  StatusRead-Leads =
      read_receipt-Leads io (Part Started) (Part StatusRead) IsStopped policy_status
        (λ v p. record p { status_before = v }) status_verdict
        (λ p log v h e. record {
          once = h.once;
          unready = h.unready;
          taken = (
            h.taken.0,
            IsCalm-lem p v e,
            ap (λ (l : List Access). read_at policy_status v ∷ l) h.taken.1,
          );
        })
        (λ p log v h. record {
          once = h.once;
          unready = h.unready;
          halted =
              subst
                (λ (l : List Access).
                  Halted (record p { status_before = v }) (read_at policy_status v ∷ l))
                (sym h.taken.1) (status_read h.taken.0);
        })

  MaskRead-Leads :
      Leads
        (On io (Part StatusRead))
        (read_receipt (logged io) policy_mask (λ v p. record p { mask_before = v }) mask_verdict)
        (On io (Part MaskRead))
        (On io IsStopped)
  MaskRead-Leads =
      read_receipt-Leads io (Part StatusRead) (Part MaskRead) IsStopped policy_mask
        (λ v p. record p { mask_before = v }) mask_verdict
        (λ p log v h e.
          let (i, calm, q) = h.taken in
          record {
            once = h.once;
            unready = h.unready;
            taken =
                (i, calm, present-lem p v e, ap (λ (l : List Access). read_at policy_mask v ∷ l) q);
          })
        (λ p log v h.
          let (i, calm, q) = h.taken in
          record {
            once = h.once;
            unready = h.unready;
            halted =
                subst
                  (λ (l : List Access).
                    Halted (record p { mask_before = v }) (read_at policy_mask v ∷ l))
                  (sym q) (mask_read i calm);
          })

  Verified-Leads :
      Leads
        (On io (Part MaskWritten))
        (read_receipt
          (logged io)
          policy_mask
          (λ v p. record p { mask_after = v })
          (λ p v. if v /= desired_mask p then err eio else ok))
        (On io (Part Verified))
        (On io IsStopped)
  Verified-Leads =
      read_receipt-Leads io (Part MaskWritten) (Part Verified) IsStopped policy_mask
        (λ v p. record p { mask_after = v }) (λ p v. if v /= desired_mask p then err eio else ok)
        (λ p log v h e. record {
          once = h.once;
          unready = h.unready;
          taken = (log, h.taken, latched-lem (desired_mask p) v e, refl);
        })
        (λ p log v h. record {
          once = h.once;
          unready = h.unready;
          halted = mask_reread log h.taken;
        })

  Calm-Leads :
      Leads
        (On io (Part Verified))
        (read_receipt
          (logged io)
          policy_status
          (λ v p. record p { status_after = v })
          status_verdict)
        (On io (Part Calm))
        (On io IsStopped)
  Calm-Leads =
      read_receipt-Leads io (Part Verified) (Part Calm) IsStopped policy_status
        (λ v p. record p { status_after = v }) status_verdict
        (λ p log v h e.
          let (rest, w, l, q) = h.taken in
          record {
            once = h.once;
            unready = h.unready;
            taken = (
              rest,
              w,
              l,
              IsCalm-lem p v e,
              ap (λ (l : List Access). read_at policy_status v ∷ l) q,
            );
          })
        (λ p log v h.
          let (rest, w, l, q) = h.taken in
          record {
            once = h.once;
            unready = h.unready;
            halted =
                subst
                  (λ (l : List Access).
                    Halted (record p { status_after = v }) (read_at policy_status v ∷ l))
                  (sym q) (status_reread rest w l);
          })

  IsReady-Leads :
      Leads
        (On io (Part Calm))
        (act (λ t. (record t.0 { global_ready = true }, t.1)))
        (On io IsReady)
        (On io IsStopped)
  IsReady-Leads = record {
    runs = λ t h. record { once = h.once; ready = refl; accesses = h.taken };
  }

  pub global_steps-Leads :
      Leads (On io (Part Started)) (global_steps (logged io) irq) (On io IsReady) (On io IsStopped)
  unfolding global_steps
  global_steps-Leads =
      on_device-Leads io (Part Started) IsStopped _ (x1_policy_admit-Quiet io)
        (Part-IsStopped Started Started-Halts)
      then_leads idle-Leads Started Started-Halts
      then_leads StatusRead-Leads
      then_leads idle-Leads StatusRead StatusRead-Halts
      then_leads MaskRead-Leads
      then_leads idle-Leads MaskRead MaskRead-Halts
      then_leads write_mask-Leads
      then_leads Verified-Leads
      then_leads idle-Leads Verified Verified-Halts
      then_leads Calm-Leads
      then_leads idle-Leads Calm Calm-Halts
      then_leads IsReady-Leads
