-- ===== src/Window/Writes.antt =====
-- What the programming of the window writes, wherever it ends.
use yoga_slim7x_usb.Base.{
  ℕ, zero, suc, ◌+◌, ◌≡◌, refl, sym, ap, ◌∙◌, ◌⊎◌, inl, List, [], ◌∷◌, ◌++◌, append_assoc, length,
  length-append, Bool, true, false, Status, ok, arith, checked, checked-cases, return, Step, ◌>>>◌,
  Runs, then-Runs, always-Ended,
}
use yoga_slim7x_usb.Window.{
  X1MemIo, X1MemState, no_step, Attempt, on_context, x1_mem_read, x1_mem_expect, x1_mem_set,
  mem_check, mem_write, issue, count_write, offset_guard, window_words, enable_round, enable_wait,
}

-- Callbacks that keep the writes, an offset and a value, beside what they do, the last one first.
abbrev pub logged : {S : Type 0} → X1MemIo S → X1MemIo (S × List (ℕ × ℕ))
logged io = record {
  all_set = io.all_set;
  check = λ s. let (r, t) = io.check s.0 in (r, (t, s.1));
  read = λ s off. let (r, (v, t)) = io.read s.0 off in (r, (v, (t, s.1)));
  write = λ s off v. let (r, t) = io.write s.0 off v in (r, (t, (off, v) ∷ s.1));
  delay = λ s ms. let (r, t) = io.delay s.0 ms in (r, (t, s.1));
}

-- All the writes of a preparation, in order: the words, then the enable bit.
abbrev pub window_plan : List (ℕ × ℕ)
window_plan = window_words ++ ((0x1204, 0x80000000) ∷ [])

-- A log with further writes, the last one first.
unfoldable pub pushed : List (ℕ × ℕ) → List (ℕ × ℕ) → List (ℕ × ℕ)
pushed [] log = log
pushed (w ∷ ws) log = pushed ws (w ∷ log)

pub pushed-append :
    (ws : List (ℕ × ℕ)) (w : ℕ × ℕ) (log : List (ℕ × ℕ))
    → pushed (ws ++ (w ∷ [])) log ≡ w ∷ pushed ws log
unfolding pushed
pushed-append [] w log = refl
pushed-append (x ∷ ws) w log = pushed-append ws w (x ∷ log)

-- A zeroed `struct x1_mem_state`.
abbrev pub fresh : X1MemState
fresh = record {
  attempted = false;
  enable_issued = false;
  complete = false;
  writes = 0;
  error = ok;
  step = no_step;
}

module _ {S : Type 0} (io : X1MemIo S) (log : List (ℕ × ℕ)) where
  -- The attempt has written `ws` so far, and its flags are as given.
  pub record At (ws : List (ℕ × ℕ)) (enabled complete : Bool) (t : Attempt (S × List (ℕ × ℕ)))
      : Type 0 where
    pub counted : t.0.writes ≡ length ws
    pub logged_writes : t.1.1 ≡ pushed ws log
    pub once : t.0.attempted ≡ true
    pub enable_flag : t.0.enable_issued ≡ enabled
    pub complete_flag : t.0.complete ≡ complete

  -- A call that writes nothing.
  unfoldable pub IsQuiet : Step (S × List (ℕ × ℕ)) → Type 0
  IsQuiet f = (s : S × List (ℕ × ℕ)) → (f s).1.1 ≡ s.1

  pub expect-IsQuiet : (off v : ℕ) → IsQuiet (x1_mem_expect (logged io) off v)
  unfolding x1_mem_expect x1_mem_read IsQuiet
  expect-IsQuiet off v s = ground arith

  read-log : (off : ℕ) (s : S × List (ℕ × ℕ)) → (x1_mem_read (logged io) off s).1.1.1 ≡ s.1
  unfolding x1_mem_read
  read-log off s = ground arith

  enable_round-IsQuiet :
      (last : Bool) (v : ℕ) (again : Step (S × List (ℕ × ℕ)))
      → IsQuiet again
      → IsQuiet (enable_round (logged io) last v again)
  unfolding enable_round IsQuiet
  enable_round-IsQuiet last v again h s = let k = h ((logged io).delay s 10).1 in ground arith

  after_read-IsQuiet :
      (f : ℕ → Step (S × List (ℕ × ℕ)))
      → ((v : ℕ) → IsQuiet (f v))
      → IsQuiet (λ s.
        checked
          (x1_mem_read (logged io) 0x1204 s)
          (λ (p : ℕ × (S × List (ℕ × ℕ))). f p.0 p.1)
          (λ ret p. (ret, p.1)))
  unfolding IsQuiet
  after_read-IsQuiet f h s =
      checked-cases (λ (q : Status × (S × List (ℕ × ℕ))). q.1.1 ≡ s.1)
        (x1_mem_read (logged io) 0x1204 s) _ _
        (λ p e.
          h p.0 p.1
          ∙ sym (ap (λ (q : Status × (ℕ × (S × List (ℕ × ℕ)))). q.1.1.1) e)
          ∙ read-log 0x1204 s)
        (λ ret p e n.
          sym (ap (λ (q : Status × (ℕ × (S × List (ℕ × ℕ)))). q.1.1.1) e) ∙ read-log 0x1204 s)

  pub enable_wait-IsQuiet : (left : ℕ) → IsQuiet (enable_wait (logged io) left)
  unfolding enable_wait IsQuiet
  enable_wait-IsQuiet zero s =
      after_read-IsQuiet (λ v. enable_round (logged io) true v (return ok))
        (λ v. enable_round-IsQuiet true v (return ok) (λ t. refl)) s
  enable_wait-IsQuiet (suc left) s =
      after_read-IsQuiet (λ v. enable_round (logged io) false v (enable_wait (logged io) left))
        (λ v.
          enable_round-IsQuiet false v (enable_wait (logged io) left) (enable_wait-IsQuiet left))
        s

  -- Some first part of the plan has been written, all of it once the bit is enabled.
  pub record Progress (t : Attempt (S × List (ℕ × ℕ))) : Type 0 where
    pub written : List (ℕ × ℕ)
    pub rest : List (ℕ × ℕ)
    pub enabled : Bool
    pub planned : written ++ rest ≡ window_plan
    pub before_enable : (enabled ≡ false) ⊎ (rest ≡ [])
    pub state : At written enabled false t

  pub Progress-At :
      (ws rest : List (ℕ × ℕ)) (e : Bool)
      → ws ++ rest ≡ window_plan
      → (e ≡ false) ⊎ (rest ≡ [])
      → (t : Attempt (S × List (ℕ × ℕ))) → At ws e false t
      → Progress t
  Progress-At ws rest e p b t h = record {
    written = ws;
    rest = rest;
    enabled = e;
    planned = p;
    before_enable = b;
    state = h;
  }

  -- A call that writes nothing leaves the progress as it is.
  pub quiet-Runs :
      (ws rest : List (ℕ × ℕ)) (e : Bool) (f : Step (S × List (ℕ × ℕ)))
      → IsQuiet f
      → ws ++ rest ≡ window_plan
      → (e ≡ false) ⊎ (rest ≡ [])
      → Runs (At ws e false) (on_context f) (At ws e false) Progress
  unfolding IsQuiet
  quiet-Runs ws rest e f q p b t a =
      always-Ended (At ws e false) (At ws e false) Progress (on_context f t)
        (let k = q t.1 in ground arith) (λ u h. h) (Progress-At ws rest e p b)

  -- A write of the plan's next word.
  pub write-Runs :
      (ws rest : List (ℕ × ℕ)) (w : ℕ × ℕ) (e : Bool) (m : X1MemState → X1MemState)
      → ws ++ (w ∷ rest) ≡ window_plan
      → (e ≡ false) ⊎ (rest ≡ [])
      → ((x : X1MemState)
          → x.enable_issued ≡ false
          → ((m x).writes ≡ x.writes + 1)
            × ((m x).attempted ≡ x.attempted)
            × ((m x).enable_issued ≡ e)
            × ((m x).complete ≡ x.complete))
      → Runs
          (At ws false false)
          (issue (logged io) m w.0 w.1)
          (At (ws ++ (w ∷ [])) e false)
          Progress
  unfolding ◌>>>◌
  write-Runs ws rest w e m p b k t a =
      always-Ended (At (ws ++ (w ∷ [])) e false) (At (ws ++ (w ∷ [])) e false) Progress
        (on_context (mem_write (logged io) w.0 w.1) (m t.0, t.1))
        (let q = k t.0 a.enable_flag in
          let l = length-append ws (w ∷ []) in
          let pl = pushed-append ws w log in
          record {
            counted = ground arith;
            logged_writes = ground arith;
            once = ground arith;
            enable_flag = ground arith;
            complete_flag = ground arith;
          })
        (λ u h. h) (Progress-At (ws ++ (w ∷ [])) rest e (append_assoc ws (w ∷ []) rest ∙ p) b)

  pub mem_check-IsQuiet : IsQuiet (mem_check (logged io))
  unfolding IsQuiet
  mem_check-IsQuiet s = refl

  guard-IsQuiet : (off : ℕ) → IsQuiet (offset_guard (logged io) off)
  unfolding IsQuiet
  guard-IsQuiet off s = refl

  pub set-Runs :
      (ws rest : List (ℕ × ℕ)) (w : ℕ × ℕ)
      → ws ++ (w ∷ rest) ≡ window_plan
      → Runs
          (At ws false false)
          (x1_mem_set (logged io) w.0 w.1)
          (At (ws ++ (w ∷ [])) false false)
          Progress
  unfolding x1_mem_set
  set-Runs ws rest w p =
      let P : Attempt (S × List (ℕ × ℕ)) → Type 0 = At ws false false in
      let Q : Attempt (S × List (ℕ × ℕ)) → Type 0 = At (ws ++ (w ∷ [])) false false in
      let guard = on_context (offset_guard (logged io) w.0) in
      let check = on_context (mem_check (logged io)) in
      let write = issue (logged io) count_write w.0 w.1 in
      let expect = on_context (x1_mem_expect (logged io) w.0 w.1) in
      then-Runs P Q Q Progress (guard >>> check >>> write) expect
        (then-Runs P P Q Progress (guard >>> check) write
          (then-Runs P P P Progress guard check
            (quiet-Runs ws (w ∷ rest) false _ (guard-IsQuiet w.0) p (inl refl))
            (quiet-Runs ws (w ∷ rest) false _ mem_check-IsQuiet p (inl refl)))
          (write-Runs ws rest w false count_write p (inl refl) (λ x e. (refl, refl, e, refl))))
        (quiet-Runs (ws ++ (w ∷ [])) rest false _ (expect-IsQuiet w.0 w.1)
          (append_assoc ws (w ∷ []) rest ∙ p) (inl refl))
