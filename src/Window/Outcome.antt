-- ===== src/Window/Outcome.antt =====
-- The whole preparation: what it has written when it ends, and with which flags.
use yoga_slim7x_usb.Base.{
  ℕ, ◌≡◌, refl, sym, ap, ◌∙◌, ◌⊎◌, inl, inr, List, [], ◌∷◌, ◌++◌, append_assoc, append-nil, Bool,
  true, false, arith, Step, ◌>>>◌, Runs, then-Runs, each-Runs, Ended-weaken, subst,
}
use yoga_slim7x_usb.Window.{
  X1MemIo, X1MemState, MemStep, mem_inactive_ob1, mem_program_ob1, mem_enable_ob1,
  mem_final_readback, mem_ready, Attempt, on_context, on_state, x1_mem_expect, x1_mem_set,
  mem_check, issue, count_write, at_step, window_words, enable_wait, prepare_steps, inactive_phase,
  program_phase, enable_phase, final_phase, program_words, expect_words,
}
use yoga_slim7x_usb.Window.Writes.{
  logged, window_plan, At, Progress, IsQuiet, expect-IsQuiet, enable_wait-IsQuiet,
  mem_check-IsQuiet, quiet-Runs, write-Runs, set-Runs,
}

-- The last part of the plan.
abbrev enable_word : List (ℕ × ℕ)
enable_word = (0x1204, 0x80000000) ∷ []

module _ {S : Type 0} (io : X1MemIo S) (log : List (ℕ × ℕ)) where
  -- A step between two states that the same writes have led to.
  Stays : (ws rest : List (ℕ × ℕ)) (e : Bool) → Step (Attempt (S × List (ℕ × ℕ))) → Type 0
  Stays ws rest e f =
      ws ++ rest ≡ window_plan
      → (e ≡ false) ⊎ (rest ≡ [])
      → Runs (At io log ws e false) f (At io log ws e false) (Progress io log)

  quiet-Stays :
      (ws rest : List (ℕ × ℕ)) (e : Bool) (f : Step (S × List (ℕ × ℕ)))
      → IsQuiet io log f
      → Stays ws rest e (on_context f)
  unfolding Stays
  quiet-Stays ws rest e f q p b = quiet-Runs io log ws rest e f q p b

  step-Stays : (ws rest : List (ℕ × ℕ)) (e : Bool) (x : MemStep) → Stays ws rest e (at_step x)
  unfolding Stays
  step-Stays ws rest e x p b t a = ground arith

  then-Stays :
      (ws rest : List (ℕ × ℕ)) (e : Bool) (f g : Step (Attempt (S × List (ℕ × ℕ))))
      → Stays ws rest e f
      → Stays ws rest e g
      → Stays ws rest e (f >>> g)
  unfolding Stays
  then-Stays ws rest e f g h k p b =
      then-Runs (At io log ws e false) (At io log ws e false) (At io log ws e false)
        (Progress io log) f g (h p b) (k p b)

  expect_words-Stays :
      (ws rest : List (ℕ × ℕ)) (e : Bool) → Stays ws rest e (expect_words (logged io))
  unfolding Stays
  expect_words-Stays ws rest e p b =
      each-Runs (λ xs. At io log ws e false) (Progress io log)
        (λ w. on_context (x1_mem_expect (logged io) w.0 w.1)) window_words
        (λ w xs.
          quiet-Runs io log ws rest e (x1_mem_expect (logged io) w.0 w.1)
            (expect-IsQuiet io log w.0 w.1) p b)

  -- The loop has `rest` still to write.
  Programming : List (ℕ × ℕ) → Attempt (S × List (ℕ × ℕ)) → Type 0
  Programming rest t =
      (ws : List (ℕ × ℕ)) × (ws ++ rest ≡ window_words) × At io log ws false false t

  program_word-Runs :
      (w : ℕ × ℕ) (rest : List (ℕ × ℕ))
      → Runs
          (Programming (w ∷ rest))
          (x1_mem_set (logged io) w.0 w.1)
          (Programming rest)
          (Progress io log)
  unfolding Programming
  program_word-Runs w rest t (ws, e, a) =
      let p : ws ++ (w ∷ (rest ++ enable_word)) ≡ window_plan =
        sym (append_assoc ws (w ∷ rest) enable_word)
        ∙ ap (λ (l : List (ℕ × ℕ)). l ++ enable_word) e in
      Ended-weaken (At io log (ws ++ (w ∷ [])) false false) (Programming rest) (Progress io log)
        (Progress io log) (x1_mem_set (logged io) w.0 w.1 t)
        (λ u h. (ws ++ (w ∷ []), append_assoc ws (w ∷ []) rest ∙ e, h)) (λ u h. h)
        (set-Runs io log ws (rest ++ enable_word) w p t a)

  -- All the words are written, and the enable bit is not.
  Programmed : Attempt (S × List (ℕ × ℕ)) → Type 0
  Programmed = At io log window_words false false

  program_words-Runs :
      Runs (At io log [] false false) (program_words (logged io)) Programmed (Progress io log)
  unfolding Programming Programmed
  program_words-Runs t a =
      Ended-weaken (Programming []) Programmed (Progress io log) (Progress io log)
        (program_words (logged io) t)
        (λ u (ws, e, h).
          subst (λ (l : List (ℕ × ℕ)). At io log l false false u) (sym (append-nil ws) ∙ e) h)
        (λ u h. h)
        (each-Runs Programming (Progress io log) (λ w. x1_mem_set (logged io) w.0 w.1) window_words
          program_word-Runs t ([], refl, a))

  expect-Stays :
      (ws rest : List (ℕ × ℕ)) (e : Bool) (off v : ℕ)
      → Stays ws rest e (on_context (x1_mem_expect (logged io) off v))
  expect-Stays ws rest e off v =
      quiet-Stays ws rest e (x1_mem_expect (logged io) off v) (expect-IsQuiet io log off v)

  inactive-Runs :
      Runs
        (At io log [] false false)
        (inactive_phase (logged io))
        (At io log [] false false)
        (Progress io log)
  unfolding inactive_phase Stays
  inactive-Runs =
      then-Stays [] window_plan false (at_step mem_inactive_ob1)
        (on_context (x1_mem_expect (logged io) 0x1204 0))
        (step-Stays [] window_plan false mem_inactive_ob1)
        (expect-Stays [] window_plan false 0x1204 0) refl (inl refl)

  program-Runs :
      Runs (At io log [] false false) (program_phase (logged io)) Programmed (Progress io log)
  unfolding program_phase Stays Programmed
  program-Runs =
      let None : Attempt (S × List (ℕ × ℕ)) → Type 0 = At io log [] false false in
      let All : Attempt (S × List (ℕ × ℕ)) → Type 0 = At io log window_words false false in
      let start = at_step mem_program_ob1 in
      let inactive = on_context (x1_mem_expect (logged io) 0x1204 0) in
      then-Runs None All All (Progress io log)
        (start >>> program_words (logged io) >>> expect_words (logged io)) inactive
        (then-Runs None All All (Progress io log) (start >>> program_words (logged io))
          (expect_words (logged io))
          (then-Runs None None All (Progress io log) start (program_words (logged io))
            (step-Stays [] window_plan false mem_program_ob1 refl (inl refl)) program_words-Runs)
          (expect_words-Stays window_words enable_word false refl (inl refl)))
        (expect-Stays window_words enable_word false 0x1204 0 refl (inl refl))

  enable-Runs :
      Runs Programmed
        (enable_phase (logged io))
        (At io log window_plan true false)
        (Progress io log)
  unfolding enable_phase Stays Programmed
  enable-Runs =
      let None : Attempt (S × List (ℕ × ℕ)) → Type 0 = At io log window_words false false in
      let All : Attempt (S × List (ℕ × ℕ)) → Type 0 = At io log window_plan true false in
      let start = at_step mem_enable_ob1 in
      let check = on_context (mem_check (logged io)) in
      let mark : X1MemState → X1MemState = λ m. count_write (record m { enable_issued = true }) in
      let enable = issue (logged io) mark 0x1204 0x80000000 in
      then-Runs None All All (Progress io log) (start >>> check >>> enable)
        (on_context (enable_wait (logged io) 4))
        (then-Runs None None All (Progress io log) (start >>> check) enable
          (then-Stays window_words enable_word false start check
            (step-Stays window_words enable_word false mem_enable_ob1)
            (quiet-Stays window_words enable_word false (mem_check (logged io))
              (mem_check-IsQuiet io log))
            refl (inl refl))
          (write-Runs io log window_words [] (0x1204, 0x80000000) true mark refl (inr refl)
            (λ x e. (refl, refl, refl, refl))))
        (quiet-Stays window_plan [] true (enable_wait (logged io) 4) (enable_wait-IsQuiet io log 4)
          refl (inr refl))

  final-Runs :
      Runs
        (At io log window_plan true false)
        (final_phase (logged io))
        (At io log window_plan true true)
        (Progress io log)
  unfolding final_phase Stays
  final-Runs =
      let All : Attempt (S × List (ℕ × ℕ)) → Type 0 = At io log window_plan true false in
      let start = at_step mem_final_readback in
      let expect = on_context (x1_mem_expect (logged io) 0x1204 0x80000000) in
      then-Runs All All (At io log window_plan true true) (Progress io log)
        (start >>> expect_words (logged io) >>> expect)
        (on_state (λ m. record m { complete = true; step = mem_ready }))
        (then-Stays window_plan [] true (start >>> expect_words (logged io)) expect
          (then-Stays window_plan [] true start (expect_words (logged io))
            (step-Stays window_plan [] true mem_final_readback)
            (expect_words-Stays window_plan [] true))
          (expect-Stays window_plan [] true 0x1204 0x80000000) refl (inr refl))
        (λ t a. ground arith)

  pub prepare_steps-Runs :
      Runs
        (At io log [] false false)
        (prepare_steps (logged io))
        (At io log window_plan true true)
        (Progress io log)
  unfolding prepare_steps Programmed
  prepare_steps-Runs =
      let None : Attempt (S × List (ℕ × ℕ)) → Type 0 = At io log [] false false in
      let Words : Attempt (S × List (ℕ × ℕ)) → Type 0 = At io log window_words false false in
      let All : Attempt (S × List (ℕ × ℕ)) → Type 0 = At io log window_plan true false in
      let Done : Attempt (S × List (ℕ × ℕ)) → Type 0 = At io log window_plan true true in
      then-Runs None All Done (Progress io log)
        (inactive_phase (logged io) >>> program_phase (logged io) >>> enable_phase (logged io))
        (final_phase (logged io))
        (then-Runs None Words All (Progress io log)
          (inactive_phase (logged io) >>> program_phase (logged io)) (enable_phase (logged io))
          (then-Runs None None Words (Progress io log) (inactive_phase (logged io))
            (program_phase (logged io)) inactive-Runs program-Runs)
          enable-Runs)
        final-Runs
