-- ===== src/Receiver/Order.antt =====
-- The order of stop, release and retirement, whatever calls are made.
use yoga_slim7x_usb.Base.{
  ◌≡◌, refl, ◌⊎◌, inl, inr, List, [], ◌∷◌, length, Bool, true, false, ◌&&◌, not, if_cases, Status,
  arith, Step,
}
use yoga_slim7x_usb.Receiver.{
  X1Imsi, ImsiIo, State, stop_now, x1_imsi_stop_retained, x1_imsi_release_stopped, retire_admitted,
  x1_imsi_retire_context,
}
use yoga_slim7x_usb.Receiver.Accesses.{
  Access, logged, beside_log, IsAccessed, x1_imsi_stop_retained-IsAccessed,
  x1_imsi_release_stopped-IsAccessed,
}
use yoga_slim7x_usb.Receiver.Receipts.{
  IsOrdered, x1_imsi_stop_retained-IsOrdered, x1_imsi_release_stopped-IsOrdered,
}

-- A call that may be made, with what the kernel's callback does.
pub data ImsiCall (S : Type 0) : Type 0 where
  stop_call : ImsiCall S
  release_call retire_call : (check_stopped : Step S) → ImsiCall S

-- Calls on the active receiver, with a log of the accesses, and with the kernel free to change its
-- own state between them.
unfoldable pub imsi_call :
    {S : Type 0}
    → ImsiIo S
    → ImsiCall S
    → Bool × State (S × List Access)
    → Bool × State (S × List Access)
imsi_call io stop_call (active, t) = (active, (x1_imsi_stop_retained (logged io) t).1)
imsi_call io (release_call check) (active, t) =
    (active, (x1_imsi_release_stopped (logged io) (beside_log check) t).1)
imsi_call io (retire_call check) (active, t) =
    (x1_imsi_retire_context (logged io) (beside_log check) active t).1

unfoldable pub imsi_calls :
    {S : Type 0}
    → ImsiIo S
    → Bool × State (S × List Access)
    → List (ImsiCall S × (S → S))
    → Bool × State (S × List Access)
imsi_calls io t [] = t
imsi_calls io t ((c, moved) ∷ rest) =
    let (active, (r, (s, log))) = imsi_call io c t in
    imsi_calls io (active, (r, (moved s, log))) rest

-- The receipts are in order, the log is that of the stop, and a receiver that is no longer the
-- active one was released.
pub record IsRetired {S : Type 0} (io : ImsiIo S) (t : Bool × State (S × List Access))
    : Type 0 where
  pub ordered : IsOrdered t.1.0
  pub accessed : IsAccessed io t.1
  pub retired : (t.0 ≡ true) ⊎ (t.1.0.released ≡ true)

-- A receiver with eight parents, of which nothing was stopped or released.
pub record IsUnused (r : X1Imsi) : Type 0 where
  pub eight_parents : length r.parents ≡ 8
  pub unstopped : r.stop.attempted ≡ false
  pub unfinished : r.stop.finished ≡ false
  pub no_banks : r.stop.banks_disabled ≡ 0
  pub no_parents : r.stop.parents_detached ≡ 0
  pub unattempted : r.release_attempted ≡ false
  pub unreleased : r.released ≡ false

module _ {S : Type 0} (io : ImsiIo S) where
  admitted-lem :
      (active : Bool) (r : X1Imsi) (s : S × List Access)
      → not (active && retire_admitted (logged io) r s) ≡ false
      → r.released ≡ true
  unfolding retire_admitted
  admitted-lem active r s e = ground arith

  x1_imsi_retire_context-IsRetired :
      (check : Step S) (active : Bool) (t : State (S × List Access))
      → IsRetired io (active, t)
      → IsRetired io (x1_imsi_retire_context (logged io) (beside_log check) active t).1
  unfolding x1_imsi_retire_context
  x1_imsi_retire_context-IsRetired check active (r, s) h =
      if_cases (λ (q : Status × (Bool × State (S × List Access))). IsRetired io q.1)
        (not (active && retire_admitted (logged io) r s)) _ _ (λ e. h)
        (λ e. record {
          ordered = h.ordered;
          accessed = h.accessed;
          retired = inr (admitted-lem active r s e);
        })

  -- The receipt of a release is never taken back.
  x1_imsi_stop_retained-released :
      (t : State (S × List Access))
      → t.0.released ≡ true
      → (x1_imsi_stop_retained (logged io) t).1.0.released ≡ true
  unfolding x1_imsi_stop_retained stop_now
  x1_imsi_stop_retained-released t e = ground arith

  x1_imsi_release_stopped-released :
      (check : Step (S × List Access)) (t : State (S × List Access))
      → IsOrdered t.0
      → t.0.released ≡ true
      → (x1_imsi_release_stopped (logged io) check t).1.0.released ≡ true
  unfolding x1_imsi_release_stopped
  x1_imsi_release_stopped-released check t h e = let k = h.released e in ground arith

  imsi_call-IsRetired :
      (c : ImsiCall S) (t : Bool × State (S × List Access))
      → IsRetired io t
      → IsRetired io (imsi_call io c t)
  unfolding imsi_call
  imsi_call-IsRetired stop_call (active, t) h = record {
    ordered = x1_imsi_stop_retained-IsOrdered (logged io) t h.ordered;
    accessed = x1_imsi_stop_retained-IsAccessed io t h.accessed;
    retired = elim h.retired [ inl a ↦ inl a | inr e ↦ inr (x1_imsi_stop_retained-released t e) ];
  }
  imsi_call-IsRetired (release_call check) (active, t) h = record {
    ordered = x1_imsi_release_stopped-IsOrdered (logged io) (beside_log check) t h.ordered;
    accessed = x1_imsi_release_stopped-IsAccessed io check t h.accessed;
    retired = elim h.retired [
      | inl a ↦ inl a
      | inr e ↦ inr (x1_imsi_release_stopped-released (beside_log check) t h.ordered e)
    ];
  }
  imsi_call-IsRetired (retire_call check) (active, t) h =
      x1_imsi_retire_context-IsRetired check active t h

  calls-IsRetired :
      (calls : List (ImsiCall S × (S → S))) (t : Bool × State (S × List Access))
      → IsRetired io t
      → IsRetired io (imsi_calls io t calls)
  unfolding imsi_calls
  calls-IsRetired [] t h = h
  calls-IsRetired ((c, moved) ∷ rest) t h =
      let (active, (r, (s, log))) = imsi_call io c t in
      let k = imsi_call-IsRetired c t h in
      calls-IsRetired rest (active, (r, (moved s, log)))
        (record { ordered = k.ordered; accessed = k.accessed; retired = k.retired })

-- Whatever calls are made on an active receiver with eight parents that was never stopped or
-- released, and whatever the kernel answers and does in between: nothing is accessed before a stop; a
-- finished stop has masked each of eight banks and then disabled it, reading back what it wrote, has
-- then disabled and detached each of the eight parents, and nothing else is accessed; a release is
-- attempted only after a finished stop and leaves the receiver neither ready nor associated nor with
-- a domain, one that succeeds leaves no reserved target, and only a released receiver stops being
-- the active one.
pub imsi_calls-IsRetired :
    {S : Type 0} (io : ImsiIo S) (calls : List (ImsiCall S × (S → S))) (r : X1Imsi) (s : S)
    → IsUnused r
    → IsRetired io (imsi_calls io (true, (r, (s, []))) calls)
imsi_calls-IsRetired io calls r s h =
    calls-IsRetired io calls (true, (r, (s, [])))
      (record {
        ordered = record {
          eight_parents = h.eight_parents;
          untouched = λ e. (h.no_banks, h.no_parents, h.unfinished);
          stopped = λ e. let f = h.unfinished in ground arith;
          detached = λ e. let f = h.unattempted in ground arith;
          released = λ e. let f = h.unreleased in ground arith;
        };
        accessed = (λ e. refl, λ e. let f = h.unfinished in ground arith);
        retired = inl refl;
      })
