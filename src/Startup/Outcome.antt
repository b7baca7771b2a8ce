-- ===== src/Startup/Outcome.antt =====
-- How a cold start ends: after all operations in the order of the table, or at the first that fails.
use yoga_slim7x_usb.Base.{
  ℕ, ◌≡◌, ◌≢◌, refl, ap, ◌⊎◌, inl, inr, List, [], ◌∷◌, ◌++◌, Option, none, some, Status, ok, err,
  positive, ealready, eproto, positive_as, arith, subst,
}
use yoga_slim7x_usb.Startup.{
  X1Config, X1Phase, X1State, X1Ops, validate_config, execute, run_operations, validating, run_new,
  x1_startup_run, run_phase, or_fail,
}
use yoga_slim7x_usb.Startup.Steps.{XStep, none_yet, validate, owner, Operation, operations}

-- The last step of a list of operations, or the one before it.
abbrev pub last_step : XStep → List Operation → XStep
last_step x [] = x
last_step x (op ∷ rest) = last_step op.step rest

module _ {S : Type 0} (ops : X1Ops S) (cfg : X1Config) where
  -- The operations of a list succeed one after the other and take the context from `s` to `t`.
  pub data Executed : S → List Operation → S → Type 0 where
    nothing : {s : S} → Executed s [] s
    then :
        {s t u : S} {rest : List Operation} (op : Operation)
        → execute ops op cfg s ≡ (ok, t)
        → Executed t rest u
        → Executed s (op ∷ rest) u

  -- The two ways in which the loop over `todo` ends, started from `s` with `x` completed.
  pub data Ends (s : S) (x : XStep) (todo : List Operation) (out : Status × X1State × S)
      : Type 0 where
    all_done :
        out.0 ≡ ok
        → out.1.phase ≡ X1Phase.complete
        → out.1.active ≡ none_yet
        → out.1.completed ≡ last_step x todo
        → Executed s todo out.2
        → Ends s x todo out
    stopped :
        (done rest : List Operation) (op : Operation) (t : S) (ret : Status)
        → todo ≡ done ++ (op ∷ rest)
        → Executed s done t
        → execute ops op cfg t ≡ (ret, out.2)
        → ret ≢ ok
        → out.0 ≡ positive_as eproto ret
        → out.1.phase ≡ X1Phase.failed
        → out.1.error ≡ out.0
        → out.1.active ≡ op.step
        → out.1.completed ≡ last_step x done
        → Ends s x todo out

  Ends-cons :
      (op : Operation) (s t : S) (x : XStep) (rest : List Operation) (out : Status × X1State × S)
      → execute ops op cfg s ≡ (ok, t)
      → Ends t op.step rest out
      → Ends s x (op ∷ rest) out
  Ends-cons op s t x rest out e (all_done a b c d r) = all_done a b c d (then op e r)
  Ends-cons op s t x rest out e (stopped done' rest' op' t' ret q r f n a b c d g) =
      stopped (op ∷ done') rest' op' t' ret (ap (λ (l : List Operation). op ∷ l) q) (then op e r) f
        n a b c d g

  Ends-head :
      (op : Operation) (st : X1State) (s : S) (rest : List Operation) (r : Status × S)
      → execute ops op cfg s ≡ r
      → ((st' : X1State) (t : S) → Ends t st'.completed rest (run_operations ops rest cfg st' t))
      → Ends s st.completed (op ∷ rest) (
          or_fail ops
            (record st { active = op.step })
            r
            (λ st' t. run_operations ops rest cfg st' t))
  Ends-head op st s rest (ok, t) e ih =
      Ends-cons op s t st.completed rest _ e
        (ih (record st { active = op.step; completed = op.step }) t)
  Ends-head op st s rest (err x, t) e ih =
      stopped [] rest op s (err x) refl nothing e (λ h. cc) refl refl refl refl refl
  Ends-head op st s rest (positive n, t) e ih =
      stopped [] rest op s (positive n) refl nothing e (λ h. cc) refl refl refl refl refl

  run_operations-Ends :
      (todo : List Operation) (st : X1State) (s : S)
      → Ends s st.completed todo (run_operations ops todo cfg st s)
  unfolding run_operations
  run_operations-Ends [] st s = all_done refl refl refl refl nothing
  run_operations-Ends (op ∷ rest) st s =
      Ends-head op st s rest (execute ops op cfg s) refl (λ st' t. run_operations-Ends rest st' t)

-- A cold start that passes its validation and whose owner agrees either executes every operation of
-- the table, in the order of the table, and ends in the phase `complete`; or it stops at the first
-- operation that fails, after exactly the operations before it: it is then the active step, the
-- one before it is the completed step, nothing after it has run, and the error is kept, a
-- positive result as a protocol error.
pub run_new-Ends :
    (crc32c : ℕ → List ℕ → ℕ) {S : Type 0} (cfg : X1Config) (ops : X1Ops S) (s t : S)
    → validate_config crc32c cfg ops ≡ ok
    → ops.take_ownership s cfg ≡ (ok, t)
    → Ends ops cfg t owner operations (run_new crc32c (some cfg) (some ops) s)
unfolding run_new
run_new-Ends crc32c cfg ops s t v o =
    rw (v, o)
      (run_operations-Ends ops cfg operations
        (record { phase = X1Phase.running; active = owner; completed = owner; error = ok }) t)

-- A configuration that is refused ends the attempt before anything is touched: the context is as
-- before, no step is completed, the failed step is the validation, and its error is kept.
pub run_new_refused :
    (crc32c : ℕ → List ℕ → ℕ) {S : Type 0} (cfg : X1Config) (ops : X1Ops S) (s : S)
    → validate_config crc32c cfg ops ≢ ok
    → let (ret, st, t) = run_new crc32c (some cfg) (some ops) s in
      (t ≡ s)
      × (ret ≡ positive_as eproto (validate_config crc32c cfg ops))
      × (st.error ≡ ret)
      × (st.phase ≡ X1Phase.failed)
      × (st.active ≡ validate)
      × (st.completed ≡ none_yet)
unfolding run_new
run_new_refused crc32c cfg ops s h = ground arith

-- An owner that disagrees ends the attempt before the first operation: only the owner's callback
-- has run, the validation is the completed step, and the owner's error is kept, a positive result
-- as a protocol error.
pub run_new_not_owned :
    (crc32c : ℕ → List ℕ → ℕ) {S : Type 0} (cfg : X1Config) (ops : X1Ops S) (s : S)
    → validate_config crc32c cfg ops ≡ ok
    → (ops.take_ownership s cfg).0 ≢ ok
    → let (ret, st, t) = run_new crc32c (some cfg) (some ops) s in
      (t ≡ (ops.take_ownership s cfg).1)
      × (ret ≡ positive_as eproto (ops.take_ownership s cfg).0)
      × (st.error ≡ ret)
      × (st.phase ≡ X1Phase.failed)
      × (st.active ≡ owner)
      × (st.completed ≡ validate)
unfolding run_new
run_new_not_owned crc32c cfg ops s v h = ground arith

-- A run that has ended.
abbrev pub IsFinal : X1Phase → Type 0
IsFinal p = (p ≡ X1Phase.failed) ⊎ (p ≡ X1Phase.complete)

or_fail-IsFinal :
    {S : Type 0} (ops : X1Ops S) (st : X1State) (r : Status × S)
    (next : X1State → S → Status × X1State × S)
    → ((st' : X1State) (t : S) → IsFinal (next st' t).1.phase)
    → IsFinal (or_fail ops st r next).1.phase
or_fail-IsFinal ops st (ok, t) next h = h (record st { completed = st.active }) t
or_fail-IsFinal ops st (err x, t) next h = inl refl
or_fail-IsFinal ops st (positive n, t) next h = inl refl

run_operations-IsFinal :
    {S : Type 0} (ops : X1Ops S) (cfg : X1Config) (todo : List Operation) (st : X1State) (s : S)
    → IsFinal (run_operations ops todo cfg st s).1.phase
unfolding run_operations
run_operations-IsFinal ops cfg [] st s = inr refl
run_operations-IsFinal ops cfg (op ∷ rest) st s =
    or_fail-IsFinal ops (record st { active = op.step }) (execute ops op cfg s) _
      (λ st' t. run_operations-IsFinal ops cfg rest st' t)

run_new-IsFinal :
    (crc32c : ℕ → List ℕ → ℕ) {S : Type 0} (cfg : Option X1Config) (ops : Option (X1Ops S)) (s : S)
    → IsFinal (run_new crc32c cfg ops s).1.phase
unfolding run_new
run_new-IsFinal crc32c (some cfg) (some ops) s =
    or_fail-IsFinal ops validating (validate_config crc32c cfg ops, s) _
      (λ st t.
        or_fail-IsFinal ops (record st { active = owner }) (ops.take_ownership t cfg) _
          (λ st' u. run_operations-IsFinal ops cfg operations st' u))
run_new-IsFinal crc32c (some cfg) none s = inl refl
run_new-IsFinal crc32c none ops s = inl refl

run_phase-new :
    (crc32c : ℕ → List ℕ → ℕ) {S : Type 0} (st st' : X1State) (cfg : Option X1Config)
    (ops : Option (X1Ops S)) (s t : S) (ret : Status)
    → st.phase ≡ X1Phase.new
    → x1_startup_run crc32c (some st) cfg ops s ≡ (ret, some st', t)
    → (run_new crc32c cfg ops s).1 ≡ st'
unfolding x1_startup_run run_phase
run_phase-new crc32c st st' cfg ops s t ret n h = ground arith

run_phase_final :
    (crc32c : ℕ → List ℕ → ℕ) {S : Type 0} (st : X1State) (cfg : Option X1Config)
    (ops : Option (X1Ops S)) (s : S)
    → IsFinal st.phase
    → x1_startup_run crc32c (some st) cfg ops s ≡ (err ealready, some st, s)
unfolding x1_startup_run run_phase
run_phase_final crc32c st cfg ops s h = ground arith

-- There is one attempt per state: a run that has ended, however it ended, leaves a state on which
-- every later run is refused as already made, with the state and the context as they were.
pub x1_startup_run_once :
    (crc32c : ℕ → List ℕ → ℕ) {S : Type 0} (st st' : X1State) (cfg cfg' : Option X1Config)
    (ops ops' : Option (X1Ops S)) (s t u : S) (ret : Status)
    → st.phase ≡ X1Phase.new
    → x1_startup_run crc32c (some st) cfg ops s ≡ (ret, some st', t)
    → x1_startup_run crc32c (some st') cfg' ops' u ≡ (err ealready, some st', u)
x1_startup_run_once crc32c st st' cfg cfg' ops ops' s t u ret n h =
    run_phase_final crc32c st' cfg' ops' u (
      subst (λ (x : X1State). IsFinal x.phase) (run_phase-new crc32c st st' cfg ops s t ret n h)
        (run_new-IsFinal crc32c cfg ops s))
