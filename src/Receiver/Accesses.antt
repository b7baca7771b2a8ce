-- ===== src/Receiver/Accesses.antt =====
-- The register accesses of a stop, and which parents it disables and detaches.
use yoga_slim7x_usb.Base.{
  ℕ, zero, suc, ◌+◌, ◌*◌, ◌≡◌, refl, ap, ◌∙◌, List, [], ◌∷◌, true, false, not, ◌==◌, if◌then◌else◌,
  if_cases, Status, ok, err, positive, eio, is_ok, proceed, arith, Step, Ended, Leads, ◌then_leads◌,
}
use yoga_slim7x_usb.Receiver.{
  X1Imsi, ImsiIo, State, x1_imsi_write_checked, counted_bank, disable_bank, disable_banks,
  detach_parents, stop_admitted, stop_now, x1_imsi_stop_retained, release_admitted, without_domain,
  group_released, release_now, x1_imsi_release_stopped,
}

-- What is logged: an access to a register, with the word that it answered or that was written, and
-- what is done to a parent.
pub data Access : Type 0 where
  read_at write_at : (offset value : ℕ) → Access
  irq_disabled irq_detached : (irq : ℕ) → Access

-- The kernel with a log, the last entry first.
abbrev pub logged : {S : Type 0} → ImsiIo S → ImsiIo (S × List Access)
logged io = record {
  mask_offset = io.mask_offset;
  enable_offset = io.enable_offset;
  block_size = io.block_size;
  readl = λ s offset. let (v, t) = io.readl s.0 offset in (v, (t, read_at offset v ∷ s.1));
  writel = λ s offset v. (io.writel s.0 offset v, write_at offset v ∷ s.1);
  keep_irq_mask = λ s bank v. (io.keep_irq_mask s.0 bank v, s.1);
  vectors_in_use = λ s. io.vectors_in_use s.0;
  has_handler_data = λ s irq. io.has_handler_data s.0 irq;
  owns_handler_data = λ s irq. io.owns_handler_data s.0 irq;
  has_action = λ s irq. io.has_action s.0 irq;
  disable_irq = λ s irq. (io.disable_irq s.0 irq, irq_disabled irq ∷ s.1);
  detach = λ s irq. (io.detach s.0 irq, irq_detached irq ∷ s.1);
  bridge_present = λ s. io.bridge_present s.0;
  bridge_bus = λ s. io.bridge_bus s.0;
  bridge_registered = λ s. io.bridge_registered s.0;
  bridge_domain_kept = λ s. io.bridge_domain_kept s.0;
  bridge_msi_domain = λ s. io.bridge_msi_domain s.0;
  leave_domain = λ s. (io.leave_domain s.0, s.1);
  free_msi = λ s. (io.free_msi s.0, s.1);
  release_group = λ s. let (ret, t) = io.release_group s.0 in (ret, (t, s.1));
}

-- A step of the kernel beside the log.
abbrev pub beside_log : {S : Type 0} → Step S → Step (S × List Access)
beside_log f (s, log) = let (ret, t) = f s in (ret, (t, log))

-- A word is written to a register and read back.
abbrev kept_word : (offset value : ℕ) → List Access → List Access
kept_word offset value log = read_at offset value ∷ write_at offset value ∷ log

-- Eight banks, of which each is first masked and then disabled.
unfoldable pub banks_log : {S : Type 0} → ImsiIo S → (left bank : ℕ) → List Access → List Access
banks_log io zero i log = log
banks_log io (suc left) i log = banks_log io left (i + 1) (
    kept_word (io.enable_offset + i * io.block_size) 0
      (kept_word (io.mask_offset + i * io.block_size) 0xffffffff log))

-- Each parent is disabled and then detached.
unfoldable pub parents_log : List ℕ → List Access → List Access
parents_log [] log = log
parents_log (irq ∷ rest) log = parents_log rest (irq_detached irq ∷ irq_disabled irq ∷ log)

-- Nothing is done before a stop; a finished one has masked and disabled the eight banks, reading
-- back each word, and then disabled and detached the parents; and nothing else was done.
abbrev pub IsAccessed : {S : Type 0} → ImsiIo S → State (S × List Access) → Type 0
IsAccessed io (r, (s, log)) =
    (r.stop.attempted ≡ false → log ≡ [])
    × (r.stop.finished ≡ true → log ≡ parents_log r.parents (banks_log io 8 0 []))

pub is_ok-lem : (ret : Status) → is_ok ret ≡ true → ret ≡ ok
is_ok-lem ok e = refl
is_ok-lem (err c) e = ground arith
is_ok-lem (positive n) e = ground arith

module _ {S : Type 0} (io : ImsiIo S) where
  abbrev Logs : List Access → S × List Access → Type 0
  Logs log s = s.1 ≡ log

  abbrev Any : S × List Access → Type 0
  Any s = Unit

  write_checked-Leads :
      (offset v : ℕ) (log : List Access)
      → Leads
          (Logs log)
          (x1_imsi_write_checked (logged io) offset v)
          (Logs (kept_word offset v log))
          Any
  unfolding x1_imsi_write_checked
  write_checked-Leads offset v log = record {
    runs = λ s h.
        let t = io.writel s.0 offset v in split (io.readl t offset).0 ((io.readl t offset).1) s.1 h;
  }
    where
      split :
          (w : ℕ) (t : S) (l : List Access)
          → l ≡ log
          → Ended
              (Logs (kept_word offset v log))
              Any
              ((if w == v then ok else err eio), (t, read_at offset w ∷ write_at offset v ∷ l))
      split w t l h =
          if_cases
            (λ (ret : Status).
              Ended (Logs (kept_word offset v log)) Any
                (ret, (t, read_at offset w ∷ write_at offset v ∷ l)))
            (w == v) ok (err eio) (λ e. let q : w ≡ v = ground arith in rw (q, h) refl) (λ e. tt)

  disable_bank-Leads :
      (i : ℕ) (log : List Access)
      → Leads
          (Logs log)
          (disable_bank (logged io) i)
          (Logs (
            kept_word
              (io.enable_offset + i * io.block_size)
              0
              (kept_word (io.mask_offset + i * io.block_size) 0xffffffff log)))
          Any
  unfolding disable_bank
  disable_bank-Leads i log = record {
    runs = λ s h.
        (write_checked-Leads (io.mask_offset + i * io.block_size) 0xffffffff log
            then_leads write_checked-Leads (io.enable_offset + i * io.block_size) 0 _).runs
          (io.keep_irq_mask s.0 i 0xffffffff, s.1) h;
  }

  counted_bank-log :
      (log end : List Access) (r : Status × (S × List Access))
      (again : S × List Access → Status × (ℕ × (S × List Access)))
      → Ended (Logs log) Any r
      → ((s : S × List Access) → Logs log s → (again s).0 ≡ ok → (again s).1.1.1 ≡ end)
      → (counted_bank (logged io) r again).0 ≡ ok
      → (counted_bank (logged io) r again).1.1.1 ≡ end
  counted_bank-log log end (ok, s) again h k e = k s h e
  counted_bank-log log end (err c, s) again h k e = ground arith
  counted_bank-log log end (positive c, s) again h k e = ground arith

  disable_banks-log :
      (left i : ℕ) (log : List Access) (s : S × List Access)
      → Logs log s
      → (disable_banks (logged io) left i s).0 ≡ ok
      → (disable_banks (logged io) left i s).1.1.1 ≡ banks_log io left i log
  unfolding disable_banks banks_log
  disable_banks-log zero i log s h e = h
  disable_banks-log (suc left) i log s h e =
      counted_bank-log _ _ (disable_bank (logged io) i s) (disable_banks (logged io) left (i + 1))
        ((disable_bank-Leads i log).runs s h) (λ t k f. disable_banks-log left (i + 1) _ t k f) e

  detach_parents-log :
      (irqs : List ℕ) (ret : Status) (s : S × List Access)
      → (detach_parents (logged io) irqs ret s).1.1.1 ≡ parents_log irqs s.1
  unfolding detach_parents parents_log
  detach_parents-log [] ret s = refl
  detach_parents-log (irq ∷ rest) ret s =
      detach_parents-log rest _
        (io.detach (io.disable_irq s.0 irq) irq, irq_detached irq ∷ irq_disabled irq ∷ s.1)

  -- The result so far of the detachment is that of the banks, or an error.
  detach_parents-ok :
      (irqs : List ℕ) (ret : Status) (s : S × List Access)
      → (detach_parents (logged io) irqs ret s).0 ≡ ok
      → ret ≡ ok
  unfolding detach_parents
  detach_parents-ok [] ret s e = e
  detach_parents-ok (irq ∷ rest) ret s e =
      let t = io.detach (io.disable_irq s.0 irq) irq in
      let k =
        detach_parents-ok rest (if io.has_handler_data t irq then err eio else ret)
          (t, irq_detached irq ∷ irq_disabled irq ∷ s.1) e in
      ground arith

  stop_now-IsAccessed :
      (r : X1Imsi) (s : S × List Access) → s.1 ≡ [] → IsAccessed io (stop_now (logged io) r s).1
  unfolding stop_now
  stop_now-IsAccessed r s h =
      let (disabled, (banks, t)) = disable_banks (logged io) 8 0 s in
      let q = detach_parents (logged io) r.parents disabled t in
      (
        λ e. ground arith,
        λ e.
            detach_parents-log r.parents disabled t
            ∙ ap (parents_log r.parents) (
                disable_banks-log 8 0 [] s h
                  (detach_parents-ok r.parents disabled t (is_ok-lem q.0 e))),
      )

  pub x1_imsi_stop_retained-IsAccessed :
      (t : State (S × List Access))
      → IsAccessed io t
      → IsAccessed io (x1_imsi_stop_retained (logged io) t).1
  unfolding x1_imsi_stop_retained
  x1_imsi_stop_retained-IsAccessed (r, s) h =
      if_cases (λ (q : Status × State (S × List Access)). IsAccessed io q.1) r.stop.attempted _ _
        (λ e. h)
        (λ e.
          if_cases (λ (q : Status × State (S × List Access)). IsAccessed io q.1)
            (not (stop_admitted (logged io) r s)) _ _ (λ f. h)
            (λ f. stop_now-IsAccessed r s (h.0 e)))

  group_released-IsAccessed :
      (r : X1Imsi) (q : Status × (S × List Access))
      → IsAccessed io (r, q.1)
      → IsAccessed io (group_released (logged io) (without_domain (logged io) r) q).1
  unfolding group_released
  group_released-IsAccessed r (ok, s) h = h
  group_released-IsAccessed r (err c, s) h = h
  group_released-IsAccessed r (positive n, s) h = h

  proceed-IsAccessed :
      (r : X1Imsi) (ret : Status) (s : S × List Access)
      → IsAccessed io (r, s)
      → IsAccessed io (proceed (ret, (r, s)) (release_now (logged io))).1
  unfolding release_now
  proceed-IsAccessed r ok s h = group_released-IsAccessed r _ h
  proceed-IsAccessed r (err c) s h = h
  proceed-IsAccessed r (positive c) s h = h

  pub x1_imsi_release_stopped-IsAccessed :
      (check : Step S) (t : State (S × List Access))
      → IsAccessed io t
      → IsAccessed io (x1_imsi_release_stopped (logged io) (beside_log check) t).1
  unfolding x1_imsi_release_stopped
  x1_imsi_release_stopped-IsAccessed check (r, s) h =
      if_cases (λ (q : Status × State (S × List Access)). IsAccessed io q.1) r.release_attempted _ _
        (λ e. h)
        (λ e.
          if_cases (λ (q : Status × State (S × List Access)). IsAccessed io q.1)
            (not (release_admitted (logged io) r s)) _ _ (λ f. h)
            (λ f. proceed-IsAccessed r (check s.0).0 ((check s.0).1, s.1) h))
