-- ===== src/Bridge/Gate.antt =====
-- The write gate of the DBI, which the set-up opens for two protected fields.
use yoga_slim7x_usb.Base.{
  ℕ, ◌≡◌, ◌≢◌, refl, ◌⊎◌, inl, inr, List, [], ◌∷◌, none, some, true, false, ◌==◌, if◌then◌else◌,
  if_cases, ==→eq, ap, Ended-if, bit_and, bit_or, Status, ok, err, positive, eio, is_ok, arith, ◌%◌,
  Step, Ended, Leads, ◌then_leads◌, always-Ended,
}
use yoga_slim7x_usb.Base.Bits.{bit_and-even, bit_or-zero}
use yoga_slim7x_usb.Bridge.{
  X1Pci0Io, require, x1_pm, setup_before, setup_after, protected_fields, gated, x1_pci0_setup,
}
use yoga_slim7x_usb.Bridge.Tables.{x1_root}
use yoga_slim7x_usb.Bridge.Trace.{Access, was_read, was_written, Traced, traced}
use yoga_slim7x_usb.Bridge.Alone.{
  Alone, ◌and_then◌, last_written, x1_pr-Alone, x1_pw-Alone, x1_pm-Alone, set_values-Alone,
  set_masked-Alone,
}

-- The word last written to the gate has bit 0 clear.
pub record IsClosed {S : Type 0} (t : Traced S) : Type 0 where
  pub word : ℕ
  pub last : last_written x1_root 0x8bc t.1 ≡ some word
  pub clear : word % 2 ≡ 0

-- Nothing was written to the gate.
abbrev pub IsUntouched : {S : Type 0} → Traced S → Type 0
IsUntouched t = last_written x1_root 0x8bc t.1 ≡ none

-- The last access was a read of the gate, which answered all ones, or with bit 0 clear.
pub record IsAnswered {S : Type 0} (t : Traced S) : Type 0 where
  pub answer : ℕ
  pub earlier : List Access
  pub last_access : t.1 ≡ was_read x1_root 0x8bc answer ∷ earlier
  pub answered : (answer ≡ 0xffffffff) ⊎ (bit_and answer 1 ≢ 1)

abbrev pub GateEnd : {S : Type 0} → Traced S → Type 0
GateEnd t = IsUntouched t ⊎ IsClosed t ⊎ IsAnswered t

module _ {S : Type 0} where
  all_ones : (s t : Traced S) → t.1 ≡ was_read x1_root 0x8bc 0xffffffff ∷ s.1 → IsAnswered t
  all_ones s t e = record {
    answer = 0xffffffff;
    earlier = s.1;
    last_access = e;
    answered = inl refl;
  }

  closed :
      (s t : Traced S) (old new : ℕ)
      → t.1
        ≡ was_read x1_root 0x8bc new
          ∷ was_written x1_root 0x8bc (bit_or (bit_and old 0xfffffffe) 0)
          ∷ was_read x1_root 0x8bc old
          ∷ s.1
      → IsClosed t
  unfolding last_written
  closed s t old new e = record {
    word = bit_or (bit_and old 0xfffffffe) 0;
    last = rw e refl;
    clear = rw (bit_or-zero (bit_and old 0xfffffffe)) (bit_and-even old 0xfffffffe refl);
  }

  -- The result of the protected writes is returned if the gate could be closed.
  closed_by-Ended :
      (ret : Status) (c : Status × Traced S)
      → Ended IsClosed GateEnd c
      → Ended IsClosed GateEnd (if is_ok c.0 then ret else err eio, c.1)
  closed_by-Ended ok (ok, t) h = h
  closed_by-Ended (err e) (ok, t) h = inr (inl h)
  closed_by-Ended (positive n) (ok, t) h = inr (inl h)
  closed_by-Ended ret (err e, t) h = h
  closed_by-Ended ret (positive n, t) h = h

module _ {S : Type 0} (io : X1Pci0Io S) where
  setup_before-Alone : Alone x1_root 0x8bc (setup_before (traced io))
  unfolding setup_before
  setup_before-Alone =
      x1_pm-Alone io _ _ _ _ _ _ refl
      and_then x1_pm-Alone io _ _ _ _ _ _ refl
      and_then set_values-Alone io _ _ _ _ (ground arith)
      and_then x1_pr-Alone io _ _ _ _
      and_then set_masked-Alone io _ _ _ _ (refl, (refl, tt))

  protected_fields-Alone : Alone x1_root 0x8bc (protected_fields (traced io))
  unfolding protected_fields
  protected_fields-Alone = x1_pm-Alone io _ _ _ _ _ _ refl and_then x1_pm-Alone io _ _ _ _ _ _ refl

  setup_after-Alone : Alone x1_root 0x8bc (setup_after (traced io))
  unfolding setup_after
  setup_after-Alone =
      set_masked-Alone io _ _ _ _ (refl, (refl, (refl, tt)))
      and_then x1_pm-Alone io _ _ _ _ _ _ refl
      and_then x1_pw-Alone io _ _ _ _ _ refl
      and_then x1_pw-Alone io _ _ _ _ _ refl
      and_then x1_pr-Alone io _ _ _ _
      and_then x1_pm-Alone io _ _ _ _ _ _ refl
      and_then x1_pm-Alone io _ _ _ _ _ _ refl

  -- A step that leaves the gate alone keeps it closed.
  closed-Leads : (f : Step (Traced S)) → Alone x1_root 0x8bc f → Leads IsClosed f IsClosed GateEnd
  closed-Leads f a = record {
    runs = λ s c.
        always-Ended IsClosed IsClosed GateEnd (f s)
          (record { word = c.word; last = a.kept (some c.word) s c.last; clear = c.clear })
          (λ t h. h) (λ t h. inr (inl h));
  }

  IsUntouched-Leads :
      (f : Step (Traced S)) → Alone x1_root 0x8bc f → Leads IsUntouched f IsUntouched GateEnd
  IsUntouched-Leads f a = record {
    runs = λ s p.
        always-Ended IsUntouched IsUntouched GateEnd (f s) (a.kept none s p) (λ t h. h)
          (λ t h. inl h);
  }

  -- A read-modify-write of the gate ends at a read of all ones, or with an answer to its write.
  gate-Leads :
      (P Q R : Traced S → Type 0) (v : ℕ)
      → ((s t : Traced S) → P s → t.1 ≡ was_read x1_root 0x8bc 0xffffffff ∷ s.1 → R t)
      → ((s t : Traced S) (old new : ℕ)
          → t.1
            ≡ was_read x1_root 0x8bc new
              ∷ was_written x1_root 0x8bc (bit_or (bit_and old 0xfffffffe) v)
              ∷ was_read x1_root 0x8bc old
              ∷ s.1
          → ((bit_and new 1 == v) ≡ true → Q t) × ((bit_and new 1 == v) ≡ false → R t))
      → Leads P (x1_pm (traced io) x1_root 0x8bc 1 v) Q R
  unfolding x1_pm require
  gate-Leads P Q R v f g = record {
    runs = λ s p.
        let old = (io.read s.0 x1_root 0x8bc).0 in
        if_cases (Ended Q R) (old == 0xffffffff) _ _
          (λ e. f s _ p (ap (λ (n : ℕ). was_read x1_root 0x8bc n ∷ s.1) (==→eq old 0xffffffff e)))
          (λ e. let h = g s _ old _ refl in Ended-if Q R _ eio _ h.0 h.1);
  }

  -- The opening, after which the gate may be in any state.
  open-Leads : Leads IsUntouched (x1_pm (traced io) x1_root 0x8bc 1 1) (λ t. Unit {0}) GateEnd
  open-Leads =
      gate-Leads IsUntouched (λ t. Unit {0}) GateEnd 1 (λ s t p e. inr (inr (all_ones s t e)))
        (λ s t old new e. (
          (λ h. tt),
          λ h. inr (
              inr (record {
                answer = new;
                earlier = _;
                last_access = e;
                answered = inr (λ h'. ground arith);
              })),
        ))

  -- The closing.
  close-Leads : Leads (λ t. Unit {0}) (x1_pm (traced io) x1_root 0x8bc 1 0) IsClosed GateEnd
  close-Leads =
      gate-Leads (λ t. Unit {0}) IsClosed GateEnd 0 (λ s t p e. inr (inr (all_ones s t e)))
        (λ s t old new e. let c = closed s t old new e in ((λ h. c), λ h. inr (inl c)))

  gated-Leads : Leads (λ t. Unit {0}) (gated (traced io)) IsClosed GateEnd
  unfolding gated
  gated-Leads = record {
    runs = λ s p.
        let (ret, t) = protected_fields (traced io) s in
        closed_by-Ended ret (x1_pm (traced io) x1_root 0x8bc 1 0 t) (close-Leads.runs t tt);
  }

  x1_pci0_setup-Leads : Leads IsUntouched (x1_pci0_setup (traced io)) IsClosed GateEnd
  unfolding x1_pci0_setup
  x1_pci0_setup-Leads =
      IsUntouched-Leads _ setup_before-Alone
      then_leads open-Leads
      then_leads gated-Leads
      then_leads closed-Leads _ setup_after-Alone

  -- A set-up that succeeds has closed the write gate of the DBI after its last use. One that fails
  -- has not touched the gate, or has closed it, or stops at a read in which the gate answers all
  -- ones or closed.
  pub x1_pci0_setup-GateEnd : (s : S) → Ended IsClosed GateEnd (x1_pci0_setup (traced io) (s, []))
  x1_pci0_setup-GateEnd s = x1_pci0_setup-Leads.runs (s, []) (unfold last_written in refl)
