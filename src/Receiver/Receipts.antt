-- ===== src/Receiver/Receipts.antt =====
-- The order of stop and release in the receipts.
use yoga_slim7x_usb.Base.{
  ℕ, zero, suc, ◌+◌, ◌≡◌, refl, inl, inr, List, [], ◌∷◌, length, true, false, not, if◌then◌else◌,
  if_cases, Bool-cases, Status, ok, err, positive, eio, proceed, arith, Step, Keeps,
}
use yoga_slim7x_usb.Receiver.{
  X1Imsi, ImsiIo, State, counted_bank, disable_bank, disable_banks, detach_parents, stop_admitted,
  stop_now, x1_imsi_stop_retained, release_admitted, without_domain, group_released, release_now,
  x1_imsi_release_stopped,
}
use yoga_slim7x_usb.Receiver.Accesses.{is_ok-lem}

-- What the receipts say of the order.
pub record IsOrdered (r : X1Imsi) : Type 0 where
  pub eight_parents : length r.parents ≡ 8
  pub untouched :
      r.stop.attempted ≡ false
      → (r.stop.banks_disabled ≡ 0) × (r.stop.parents_detached ≡ 0) × (r.stop.finished ≡ false)
  pub stopped :
      r.stop.finished ≡ true
      → (r.stop.attempted ≡ true)
        × (r.stop.banks_disabled ≡ 8)
        × (r.stop.parents_detached ≡ 8)
        × (r.stop.error ≡ ok)
  pub detached :
      r.release_attempted ≡ true
      → (r.stop.finished ≡ true)
        × (r.ready ≡ false)
        × (r.associated ≡ false)
        × (r.domain_ready ≡ false)
  pub released :
      r.released ≡ true
      → (r.release_attempted ≡ true) × (r.target_reserved ≡ false) × (r.target_group ≡ false)

unreleased-lem : (r : X1Imsi) → r.stop.attempted ≡ false → IsOrdered r → r.release_attempted ≡ false
unreleased-lem r e h = elim (Bool-cases r.release_attempted) [
  | inl a ↦ let k = h.stopped (h.detached a).0 in ground arith
  | inr a ↦ a
]

module _ {S : Type 0} (io : ImsiIo S) where
  finished-lem :
      (r : X1Imsi) (s : S) → not (release_admitted io r s) ≡ false → r.stop.finished ≡ true
  unfolding release_admitted
  finished-lem r s e = ground arith

  counted_bank_lem :
      (left : ℕ) (r : Status × S) (again : S → Status × (ℕ × S))
      → ((s : S) → (again s).0 ≡ ok → (again s).1.0 ≡ left)
      → (counted_bank io r again).0 ≡ ok
      → (counted_bank io r again).1.0 ≡ left + 1
  counted_bank_lem left (ok, s) again h e = let k = h s e in omega (arith, k)
  counted_bank_lem left (err c, s) again h e = ground arith
  counted_bank_lem left (positive c, s) again h e = ground arith

  disable_banks_lem :
      (left i : ℕ) (s : S)
      → (disable_banks io left i s).0 ≡ ok
      → (disable_banks io left i s).1.0 ≡ left
  unfolding disable_banks
  disable_banks_lem zero i s e = refl
  disable_banks_lem (suc left) i s e =
      let k =
        counted_bank_lem left (disable_bank io i s) (disable_banks io left (i + 1))
          (λ t f. disable_banks_lem left (i + 1) t f) e in
      omega (arith, k)

  detach_parents_lem :
      (irqs : List ℕ) (ret : Status) (s : S)
      → (detach_parents io irqs ret s).0 ≡ ok
      → (ret ≡ ok) × ((detach_parents io irqs ret s).1.0 ≡ length irqs)
  unfolding detach_parents
  detach_parents_lem [] ret s e = (e, refl)
  detach_parents_lem (irq ∷ rest) ret s e =
      let t = io.detach (io.disable_irq s irq) irq in
      let (a, b) =
        detach_parents_lem rest (if io.has_handler_data t irq then err eio else ret) t e in
      ground arith

  stop_now-IsOrdered :
      (r : X1Imsi) (s : S)
      → r.stop.attempted ≡ false
      → r.release_attempted ≡ false
      → IsOrdered r
      → IsOrdered (stop_now io r s).1.0
  unfolding stop_now
  stop_now-IsOrdered r s a b h =
      let (disabled, (banks, t)) = disable_banks io 8 0 s in
      let (ret, (parents, u)) = detach_parents io r.parents disabled t in
      let all_detached = detach_parents_lem r.parents disabled t in
      let all_disabled = disable_banks_lem 8 0 s in
      let zeros = h.untouched a in
      let eight = h.eight_parents in
      let unreleased = h.released in
      record {
        eight_parents = eight;
        untouched = λ e. ground arith;
        stopped = λ e.
            let k = is_ok-lem ret e in
            let (d, n) = all_detached k in
            let b = all_disabled d in (refl, ground arith, ground arith, k);
        detached = λ e. ground arith;
        released = λ e. ground arith;
      }

  pub x1_imsi_stop_retained-IsOrdered : Keeps (λ t. IsOrdered t.0) (x1_imsi_stop_retained io)
  unfolding x1_imsi_stop_retained stop_admitted
  x1_imsi_stop_retained-IsOrdered (r, s) h =
      if_cases (λ (q : Status × State S). IsOrdered q.1.0) r.stop.attempted _ _ (λ e. h)
        (λ e.
          if_cases (λ (q : Status × State S). IsOrdered q.1.0) (not (stop_admitted io r s)) _ _
            (λ f. h) (λ f. stop_now-IsOrdered r s e (unreleased-lem r e h) h))

  group_released-IsOrdered :
      (r : X1Imsi) (q : Status × S)
      → r.stop.finished ≡ true
      → IsOrdered r
      → IsOrdered (group_released io (without_domain io r) q).1.0
  unfolding group_released
  group_released-IsOrdered r (ok, s) f h = record {
    eight_parents = h.eight_parents;
    untouched = h.untouched;
    stopped = h.stopped;
    detached = λ e. (f, refl, refl, refl);
    released = λ e. let k = h.released e in (refl, k.1, k.2);
  }
  group_released-IsOrdered r (err c, s) f h = record {
    eight_parents = h.eight_parents;
    untouched = h.untouched;
    stopped = h.stopped;
    detached = λ e. (f, refl, refl, refl);
    released = λ e. let k = h.released e in (refl, k.1, k.2);
  }
  group_released-IsOrdered r (positive n, s) f h = record {
    eight_parents = h.eight_parents;
    untouched = h.untouched;
    stopped = h.stopped;
    detached = λ e. (f, refl, refl, refl);
    released = λ e. (refl, refl, refl);
  }

  proceed-IsOrdered :
      (r : X1Imsi) (q : Status × S)
      → r.stop.finished ≡ true
      → IsOrdered r
      → IsOrdered (proceed (q.0, (r, q.1)) (release_now io)).1.0
  unfolding release_now
  proceed-IsOrdered r (ok, s) f h = group_released-IsOrdered r _ f h
  proceed-IsOrdered r (err c, s) f h = h
  proceed-IsOrdered r (positive c, s) f h = h

  pub x1_imsi_release_stopped-IsOrdered :
      (check : Step S) → Keeps (λ t. IsOrdered t.0) (x1_imsi_release_stopped io check)
  unfolding x1_imsi_release_stopped release_admitted
  x1_imsi_release_stopped-IsOrdered check (r, s) h =
      if_cases (λ (q : Status × State S). IsOrdered q.1.0) r.release_attempted _ _ (λ e. h)
        (λ e.
          if_cases (λ (q : Status × State S). IsOrdered q.1.0) (not (release_admitted io r s)) _ _
            (λ f. h) (λ f. proceed-IsOrdered r (check s) (finished-lem r s f) h))
