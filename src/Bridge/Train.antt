-- ===== src/Bridge/Train.antt =====
-- The training leaves 0 in the register 0x494 of the PARF block, which it writes to around the wait
-- for the link.
use yoga_slim7x_usb.Base.{
  ℕ, zero, suc, ◌≡◌, ◌≢◌, refl, ◌⊎◌, inl, inr, List, [], ◌∷◌, true, false, ◌==◌, if_cases, bit_and,
  arith, ◌>>>◌, Option, none, some, Step, Ended, ◌∙◌, Leads, ◌then_leads◌, always-Ended,
}
use yoga_slim7x_usb.Bridge.{X1Pci0Io, x1_pw, x1_pp, poll_round, pause, cleared_after, x1_pci0_train}
use yoga_slim7x_usb.Bridge.Tables.{X1Pci0Region, x1_parf}
use yoga_slim7x_usb.Bridge.Trace.{Access, was_read, Traced, traced}
use yoga_slim7x_usb.Bridge.Alone.{Alone, last_written, pause-Alone, x1_pci0_reset_request-Alone}

-- The word that was last written to the PARF register 0x494.
abbrev pub LastWord : {S : Type 0} → Option ℕ → Traced S → Type 0
LastWord o t = last_written x1_parf 0x494 t.1 ≡ o

-- The training ended before it wrote to the register, or the last word that it wrote there is 0.
abbrev pub IsCleared : {S : Type 0} → Traced S → Type 0
IsCleared t = LastWord none t ⊎ LastWord (some 0) t

-- The last access is a read of a register that answered `expected` in the bits of `mask`.
pub record HasAnswered {S : Type 0} (r : X1Pci0Region) (off mask expected : ℕ) (t : Traced S)
    : Type 0 where
  pub value : ℕ
  pub before : List Access
  pub latest : t.1 ≡ was_read r off value ∷ before
  pub agrees : bit_and value mask ≡ expected
  pub present : value ≢ 0xffffffff

-- The end of a training that has succeeded.
pub record IsLinked {S : Type 0} (t : Traced S) : Type 0 where
  pub cleared : LastWord (some 0) t
  pub linked : HasAnswered x1_parf 0x1b0 0x3f 0x11 t

module _ {S : Type 0} (io : X1Pci0Io S) where
  linked_lem :
      (v : ℕ) (s : Traced S)
      → LastWord (some 0) s
      → (v == 0xffffffff) ≡ false
      → (bit_and v 0x3f == 0x11) ≡ true
      → (t : S) → IsLinked (t, was_read x1_parf 0x1b0 v ∷ s.1)
  unfolding last_written
  linked_lem v s h e f t = record {
    cleared = h;
    linked = record {
      value = v;
      before = s.1;
      latest = refl;
      agrees = ground arith;
      present = λ q. ground arith;
    };
  }

  -- The last poll, which succeeds only on the answer that it waits for.
  x1_pp-IsLinked :
      (ms : ℕ)
      → Leads (LastWord (some 0)) (x1_pp (traced io) x1_parf 0x1b0 0x3f 0x11 ms) IsLinked IsCleared
  unfolding x1_pp poll_round pause last_written ◌>>>◌
  x1_pp-IsLinked zero = record {
    runs = λ s h.
        let v = (io.read s.0 x1_parf 0x1b0).0 in
        if_cases (Ended IsLinked IsCleared) (v == 0xffffffff) _ _ (λ e. inr h)
          (λ e.
            if_cases (Ended IsLinked IsCleared) (bit_and v 0x3f == 0x11) _ _
              (λ f. linked_lem v s h e f (io.read s.0 x1_parf 0x1b0).1) (λ f. inr h));
  }
  x1_pp-IsLinked (suc ms) = record {
    runs = λ s h.
        let v = (io.read s.0 x1_parf 0x1b0).0 in
        if_cases (Ended IsLinked IsCleared) (v == 0xffffffff) _ _ (λ e. inr h)
          (λ e.
            if_cases (Ended IsLinked IsCleared) (bit_and v 0x3f == 0x11) _ _
              (λ f. linked_lem v s h e f (io.read s.0 x1_parf 0x1b0).1)
              (λ f. (x1_pp-IsLinked ms).runs _ h));
  }

  -- A step that leaves the register alone, and one that writes to it.
  Alone-Leads :
      (o : Option ℕ) (f : Step (Traced S))
      → (o ≡ none) ⊎ (o ≡ some 0)
      → Alone x1_parf 0x494 f
      → Leads (LastWord o) f (LastWord o) IsCleared
  Alone-Leads o f c a = record {
    runs = λ s p.
        always-Ended (LastWord o) (LastWord o) IsCleared (f s) (a.kept o s p) (λ t h. h)
          (λ t h. elim c [ inl e ↦ inl (h ∙ e) | inr e ↦ inr (h ∙ e) ]);
  }

  write-Leads :
      (o : Option ℕ) (v : ℕ)
      → Leads (LastWord o) (x1_pw (traced io) x1_parf 0x494 v) (LastWord (some v)) IsCleared
  unfolding x1_pw last_written
  write-Leads o v = record { runs = λ s p. refl }

  cleared_after-Leads :
      (o : Option ℕ) (f : Step (Traced S))
      → Leads (LastWord o) (cleared_after (traced io) f) (LastWord (some 0)) IsCleared
  unfolding last_written
  cleared_after-Leads o f = record {
    runs = λ s p.
        always-Ended (LastWord (some 0)) (LastWord (some 0)) IsCleared
          (cleared_after (traced io) f s) refl (λ t h. h) (λ t h. inr h);
  }

  x1_pci0_train-Leads : Leads (LastWord none) (x1_pci0_train (traced io)) IsLinked IsCleared
  unfolding x1_pci0_train
  x1_pci0_train-Leads =
      Alone-Leads none _ (inl refl) (x1_pci0_reset_request-Alone io _ _ 1 refl)
      then_leads Alone-Leads none _ (inl refl) (pause-Alone io _ _ 1)
      then_leads Alone-Leads none _ (inl refl) (x1_pci0_reset_request-Alone io _ _ 2 refl)
      then_leads Alone-Leads none _ (inl refl) (pause-Alone io _ _ 20)
      then_leads write-Leads none 0
      then_leads write-Leads (some 0) 2
      then_leads write-Leads (some 2) 0
      then_leads write-Leads (some 0) 5
      then_leads cleared_after-Leads (some 5) _
      then_leads x1_pp-IsLinked 150

  -- However the training ends, either nothing was written to the PARF register 0x494 or the last
  -- word written there is 0; after a success it is the latter, and the last access has read 0x11 in the
  -- low six bits of the PARF register 0x1b0, of a word that is not all ones.
  pub x1_pci0_train-IsCleared :
      (s : S) → Ended IsLinked IsCleared (x1_pci0_train (traced io) (s, []))
  x1_pci0_train-IsCleared s = x1_pci0_train-Leads.runs (s, []) (unfold last_written in refl)
