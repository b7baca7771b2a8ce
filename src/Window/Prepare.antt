-- ===== src/Window/Prepare.antt =====
-- The preparation as its caller sees it.
use yoga_slim7x_usb.Base.{
  ℕ, ◌≡◌, refl, ◌⊎◌, inl, inr, List, [], ◌++◌, length, some, true, false, Status, ok, err, positive,
  is_ok, arith, Ended, ealready,
}
use yoga_slim7x_usb.Window.{
  X1MemIo, X1MemState, Attempt, prepare_steps, x1_mem_prepare, prepare_done,
}
use yoga_slim7x_usb.Window.Writes.{logged, window_plan, pushed, fresh, At, Progress}
use yoga_slim7x_usb.Window.Outcome.{prepare_steps-Runs}

-- The state of an attempt that has ended with `ret`, and the log then.
pub record IsPrepared {S : Type 0} (log : List (ℕ × ℕ)) (ret : Status) (m : X1MemState)
    (t : S × List (ℕ × ℕ)) : Type 0 where
  pub written : List (ℕ × ℕ)
  pub rest : List (ℕ × ℕ)
  pub planned : written ++ rest ≡ window_plan
  pub logged_writes : t.1 ≡ pushed written log
  pub counted : m.writes ≡ length written
  pub attempted_once : m.attempted ≡ true
  pub error_kept : m.error ≡ ret
  pub enabled_last : (m.enable_issued ≡ false) ⊎ (rest ≡ [])
  pub result :
      ((ret ≡ ok) × (rest ≡ []) × (m.complete ≡ true))
      ⊎ ((is_ok ret ≡ false) × (m.complete ≡ false))

done-IsPrepared :
    {S : Type 0} (io : X1MemIo S) (log : List (ℕ × ℕ)) (r : Status × Attempt (S × List (ℕ × ℕ)))
    → Ended (At io log window_plan true true) (Progress io log) r
    → let (ret, (m, t)) = prepare_done r in IsPrepared log ret m t
done-IsPrepared io log (ok, (m, t)) h = record {
  written = window_plan;
  rest = [];
  planned = refl;
  logged_writes = h.logged_writes;
  counted = h.counted;
  attempted_once = h.once;
  error_kept = refl;
  enabled_last = inr refl;
  result = inl (refl, refl, h.complete_flag);
}
done-IsPrepared io log (err e, (m, t)) h = record {
  written = h.written;
  rest = h.rest;
  planned = h.planned;
  logged_writes = h.state.logged_writes;
  counted = h.state.counted;
  attempted_once = h.state.once;
  error_kept = refl;
  enabled_last = ground arith;
  result = inr (refl, h.state.complete_flag);
}
done-IsPrepared io log (positive n, (m, t)) h = record {
  written = h.written;
  rest = h.rest;
  planned = h.planned;
  logged_writes = h.state.logged_writes;
  counted = h.state.counted;
  attempted_once = h.state.once;
  error_kept = refl;
  enabled_last = ground arith;
  result = inr (refl, h.state.complete_flag);
}

first_prepare :
    {S : Type 0} (io : X1MemIo S) (s : S)
    → io.all_set ≡ true
    → x1_mem_prepare (some io) (some fresh) s ≡ (
        let (ret, (m, t)) =
          prepare_done (prepare_steps io (record fresh { attempted = true }, s)) in
        (ret, (some m, t)))
unfolding x1_mem_prepare
first_prepare io s h = ground arith

second_prepare :
    {S : Type 0} (io : X1MemIo S) (m : X1MemState) (s : S)
    → io.all_set ≡ true
    → m.attempted ≡ true
    → x1_mem_prepare (some io) (some m) s ≡ (err ealready, (some m, s))
unfolding x1_mem_prepare
second_prepare io m s h a = ground arith

-- Wherever a first preparation ends, it has written a first part of the eight planned words in
-- their order and counted them; the enable bit comes last, and is marked as issued only once all
-- words before it are written. It returns 0 exactly when the window is marked complete, which
-- takes all eight writes, and it keeps its error.
pub x1_mem_prepare-IsPrepared :
    {S : Type 0} (io : X1MemIo S) (s : S) (log : List (ℕ × ℕ))
    → io.all_set ≡ true
    → let q = x1_mem_prepare (some (logged io)) (some fresh) (s, log) in
      (m : X1MemState) × (q.1.0 ≡ some m) × IsPrepared log q.0 m q.1.1
x1_mem_prepare-IsPrepared io s log h =
    let start : At io log [] false false (record fresh { attempted = true }, (s, log)) = record {
      counted = refl;
      logged_writes = unfold pushed in refl;
      once = refl;
      enable_flag = refl;
      complete_flag = refl;
    } in
    let done =
      done-IsPrepared io log _
        (prepare_steps-Runs io log (record fresh { attempted = true }, (s, log)) start) in
    rw (first_prepare (logged io) (s, log) h) (_, refl, done)

-- There is one attempt: any later call on the state that a preparation leaves is refused, touches
-- nothing and changes nothing.
pub x1_mem_prepare_once :
    {S : Type 0} (io io' : X1MemIo S) (s u : S) (log : List (ℕ × ℕ)) (m : X1MemState)
    → io.all_set ≡ true
    → io'.all_set ≡ true
    → (x1_mem_prepare (some (logged io)) (some fresh) (s, log)).1.0 ≡ some m
    → x1_mem_prepare (some io') (some m) u ≡ (err ealready, (some m, u))
x1_mem_prepare_once io io' s u log m h h' e =
    let (m', e', p) = x1_mem_prepare-IsPrepared io s log h in
    let a = p.attempted_once in second_prepare io' m u h' (ground arith)
