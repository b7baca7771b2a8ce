-- ===== src/Imsi/Receipts.antt =====
-- The states of an attempt at the global interrupt, and what its steps write.
use yoga_slim7x_usb.Base.{
  demand, ℕ, ◌≡◌, ◌≢◌, refl, sym, subst, List, [], ◌∷◌, Bool, true, false, bit_and, bit_or, not32,
  Status, ok, err, positive, Step, Invariant, ◌and_keeps◌, Ended, Leads, always-Ended,
}
use yoga_slim7x_usb.Imsi.{
  PolicyIo, ImsiPolicy, PolicyState, policy_status, policy_mask, policy_banks, policy_link_up,
  u32_max, x1_policy_live, x1_policy_admit, x1_policy_global_idle, on_device, read_receipt,
}

-- An access to a register, with the word that it answered or that was written to it.
pub data Access : Type 0 where
  read_at write_at : (offset value : ℕ) → Access

-- The kernel with a log of the register accesses, the last one first.
abbrev pub logged : {S : Type 0} → PolicyIo S → PolicyIo (S × List Access)
logged io = record {
  all_set = io.all_set;
  check_live = λ s. let (ret, t) = io.check_live s.0 in (ret, (t, s.1));
  runtime_active = λ s. io.runtime_active s.0;
  board_admitted = λ s. io.board_admitted s.0;
  host_admitted = λ s. io.host_admitted s.0;
  owner_admitted = λ s. io.owner_admitted s.0;
  parf_resource = λ s. io.parf_resource s.0;
  global_irq = λ s. io.global_irq s.0;
  irq_line = λ s. io.irq_line s.0;
  readl = λ s offset. let (v, t) = io.readl s.0 offset in (v, (t, read_at offset v ∷ s.1));
  writel = λ s offset v. (io.writel s.0 offset v, write_at offset v ∷ s.1);
  windows = λ s. io.windows s.0;
}

-- No event but the link-up event is pending.
abbrev pub IsCalm : ℕ → Type 0
IsCalm status = bit_and status (not32 policy_link_up) ≡ 0

-- The reads of the status register and then of the mask register, before any write.
abbrev pub reads_before : (status mask : ℕ) → List Access
reads_before status mask = read_at policy_mask mask ∷ read_at policy_status status ∷ []

-- The accesses up to the write, where the mask register answered a word that is not all ones and the
-- status register no event: there is no write when the bits of the banks are set in that word, and
-- else one, of that word with the bits of the banks added.
pub data Masked (status mask : ℕ) (issued : Bool) : List Access → Type 0 where
  kept :
      issued ≡ false
      → IsCalm status
      → mask ≢ u32_max
      → bit_or mask policy_banks ≡ mask
      → Masked status mask issued (reads_before status mask)
  written :
      issued ≡ true
      → IsCalm status
      → mask ≢ u32_max
      → bit_or mask policy_banks ≢ mask
      → Masked status mask issued
          (write_at policy_mask (bit_or mask policy_banks) ∷ reads_before status mask)

-- The accesses of an attempt that stops before its end, with its receipts of what was answered.
pub data Halted (p : ImsiPolicy) : List Access → Type 0 where
  unread : p.mask_write_issued ≡ false → Halted p []
  status_read : p.mask_write_issued ≡ false → Halted p (read_at policy_status p.status_before ∷ [])
  mask_read :
      p.mask_write_issued ≡ false
      → IsCalm p.status_before
      → Halted p (reads_before p.status_before p.mask_before)
  masked :
      (log : List Access)
      → Masked p.status_before p.mask_before p.mask_write_issued log
      → Halted p log
  mask_reread :
      (log : List Access)
      → Masked p.status_before p.mask_before p.mask_write_issued log
      → Halted p (read_at policy_mask p.mask_after ∷ log)
  status_reread :
      (log : List Access)
      → Masked p.status_before p.mask_before p.mask_write_issued log
      → p.mask_after ≡ bit_or p.mask_before policy_banks
      → Halted p (read_at policy_status p.status_after ∷ read_at policy_mask p.mask_after ∷ log)

-- The attempt, as it is whenever it stops before its end.
pub record IsStopped (p : ImsiPolicy) (log : List Access) : Type 0 where
  pub once : p.global_attempted ≡ true
  pub unready : p.global_ready ≡ false
  pub halted : Halted p log

-- The attempt after its successive parts.
pub record Part (Q : ImsiPolicy → List Access → Type 0) (p : ImsiPolicy) (log : List Access)
    : Type 0 where
  pub once : p.global_attempted ≡ true
  pub unready : p.global_ready ≡ false
  pub taken : Q p log

abbrev pub Started : ImsiPolicy → List Access → Type 0
Started p log = (p.mask_write_issued ≡ false) × (log ≡ [])

abbrev pub StatusRead : ImsiPolicy → List Access → Type 0
StatusRead p log =
    (p.mask_write_issued ≡ false)
    × IsCalm p.status_before
    × (log ≡ read_at policy_status p.status_before ∷ [])

abbrev pub MaskRead : ImsiPolicy → List Access → Type 0
MaskRead p log =
    (p.mask_write_issued ≡ false)
    × IsCalm p.status_before
    × (p.mask_before ≢ u32_max)
    × (log ≡ reads_before p.status_before p.mask_before)

abbrev pub MaskWritten : ImsiPolicy → List Access → Type 0
MaskWritten p log = Masked p.status_before p.mask_before p.mask_write_issued log

abbrev pub Verified : ImsiPolicy → List Access → Type 0
Verified p log =
    (rest : List Access) × MaskWritten p rest
    × (p.mask_after ≡ bit_or p.mask_before policy_banks)
    × (log ≡ read_at policy_mask p.mask_after ∷ rest)

abbrev pub Calm : ImsiPolicy → List Access → Type 0
Calm p log =
    (rest : List Access) × MaskWritten p rest
    × (p.mask_after ≡ bit_or p.mask_before policy_banks)
    × IsCalm p.status_after
    × (log ≡ read_at policy_status p.status_after ∷ read_at policy_mask p.mask_after ∷ rest)

-- The end of a success.
pub record IsReady (p : ImsiPolicy) (log : List Access) : Type 0 where
  pub once : p.global_attempted ≡ true
  pub ready : p.global_ready ≡ true
  pub accesses : Calm p log

module _ {S : Type 0} (io : PolicyIo S) where
  abbrev pub Logged : Type 0
  Logged = S × List Access

  abbrev pub On : (ImsiPolicy → List Access → Type 0) → PolicyState Logged → Type 0
  On Q t = Q t.0 t.1.1

  -- A step that writes nothing.
  abbrev pub Quiet : List Access → Step Logged → Type 0
  Quiet log = Invariant (λ s. s.1 ≡ log)

  demand-Quiet :
      (log : List Access) (b : Logged → Bool) (ret : Status) → Quiet log (λ s. demand (b s) ret s)
  unfolding demand
  demand-Quiet log b ret = record { kept = λ s h. h }

  pub x1_policy_live-Quiet : (log : List Access) → Quiet log (x1_policy_live (logged io))
  unfolding x1_policy_live
  x1_policy_live-Quiet log = record { kept = λ s h. h } and_keeps demand-Quiet log _ _

  pub x1_policy_admit-Quiet : (log : List Access) → Quiet log (x1_policy_admit (logged io))
  unfolding x1_policy_admit
  x1_policy_admit-Quiet log =
      demand-Quiet log (λ s. io.all_set) _
      and_keeps demand-Quiet log _ _
      and_keeps demand-Quiet log _ _
      and_keeps demand-Quiet log _ _
      and_keeps demand-Quiet log _ _
      and_keeps x1_policy_live-Quiet log

  pub x1_policy_global_idle-Quiet :
      (irq : ℕ) (log : List Access) → Quiet log (x1_policy_global_idle (logged io) irq)
  unfolding x1_policy_global_idle
  x1_policy_global_idle-Quiet irq log =
      x1_policy_live-Quiet log and_keeps demand-Quiet log _ _ and_keeps demand-Quiet log _ _

  -- A step of the device between two parts.
  pub on_device-Leads :
      (Q R : ImsiPolicy → List Access → Type 0) (f : Step Logged)
      → ((log : List Access) → Quiet log f)
      → ((p : ImsiPolicy) (log : List Access) → Q p log → R p log)
      → Leads (On Q) (on_device (logged io) f) (On Q) (On R)
  unfolding on_device
  on_device-Leads Q R f q k = record {
    runs = λ t h.
        always-Ended (On Q) (On Q) (On R) (on_device (logged io) f t)
          (subst (Q t.0) (sym ((q t.1.1).kept t.1 refl)) h) (λ u x. x) (λ u x. k u.0 u.1.1 x);
  }

  -- A read with its receipt.
  pub read_receipt-Leads :
      (P Q R : ImsiPolicy → List Access → Type 0) (offset : ℕ) (keep : ℕ → ImsiPolicy → ImsiPolicy)
      (verdict : ImsiPolicy → ℕ → Status)
      → ((p : ImsiPolicy) (log : List Access) (v : ℕ)
          → P p log
          → verdict p v ≡ ok
          → Q (keep v p) (read_at offset v ∷ log))
      → ((p : ImsiPolicy) (log : List Access) (v : ℕ)
          → P p log
          → R (keep v p) (read_at offset v ∷ log))
      → Leads (On P) (read_receipt (logged io) offset keep verdict) (On Q) (On R)
  unfolding read_receipt
  read_receipt-Leads P Q R offset keep verdict f g = record {
    runs = λ t h.
        let (v, u) = io.readl t.1.0 offset in
        split (verdict t.0 v) (keep v t.0, (u, read_at offset v ∷ t.1.1)) (f t.0 t.1.1 v h)
          (g t.0 t.1.1 v h);
  }
    where
      split :
          (ret : Status) (t : PolicyState Logged)
          → (ret ≡ ok → On Q t)
          → On R t
          → Ended (On Q) (On R) (ret, t)
      split ok t a b = a refl
      split (err e) t a b = b
      split (positive n) t a b = b
