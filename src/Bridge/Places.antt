-- ===== src/Bridge/Places.antt =====
-- What the phases of the initialisation write.
use yoga_slim7x_usb.Base.{ℕ, ◌≡◌, refl, ◌⊎◌, inl, inr, [], ◌∷◌, Memᴰ, true, false, ◌≤◌, arith}
use yoga_slim7x_usb.Bridge.{
  X1Pci0Io, quiescent, x1_pci0_mode, protected_fields, gated, setup_before, setup_after,
  x1_pci0_setup, train_link, x1_pci0_train, x1_pci0_windows,
}
use yoga_slim7x_usb.Bridge.Tables.{
  x1_root, x1_parf, x1_router, setup_parf, setup_dbi_before, setup_dbi_after, windows_root,
  windows_parf,
}
use yoga_slim7x_usb.Bridge.Trace.{traced, WritePlan, fixed, masked, requested, IsPlanned}
use yoga_slim7x_usb.Bridge.Plans.{
  Plans, ◌and_then◌, x1_pm-Plans, x1_pw-Plans, require-Plans, x1_pv-Plans, pause-Plans, x1_pr-Plans,
  x1_pp-Plans, reset_edge-Plans, set_values-Plans, set_masked-Plans, x1_pci0_reset_request-Plans,
  closed_by-Plans, cleared_after-Plans,
}

-- What each phase may write.
pub data ModePlan : WritePlan → Type 0 where
  clear_mode : ModePlan (masked x1_parf 0x1b0 0x100 0)
  router_gate : (v : ℕ) → v ≤ 1 → ModePlan (fixed x1_router 0x82000 v)
  root_port : ModePlan (masked x1_parf 0x1000 0xf 4)

pub data SetupPlan : WritePlan → Type 0 where
  clock_fields : SetupPlan (masked x1_parf 0x1b4 0xfff 0xf40)
  clock_bit : SetupPlan (masked x1_parf 0x20 0x20 0)
  parf_word : (w : ℕ × ℕ) → Memᴰ w setup_parf → SetupPlan (fixed x1_parf w.0 w.1)
  dbi_before : (w : ℕ × ℕ × ℕ) → Memᴰ w setup_dbi_before → SetupPlan (masked x1_root w.0 w.1 w.2)
  dbi_gate : (v : ℕ) → v ≤ 1 → SetupPlan (masked x1_root 0x8bc 1 v)
  class_code : SetupPlan (masked x1_root 8 0xffff0000 0x06040000)
  capability : SetupPlan (masked x1_root 0x84 0x60 0x60)
  dbi_after : (w : ℕ × ℕ × ℕ) → Memᴰ w setup_dbi_after → SetupPlan (masked x1_root w.0 w.1 w.2)
  shadow : (v : ℕ) → v ≤ 1 → SetupPlan (masked x1_root 0xfe4 1 v)
  bar_low : SetupPlan (fixed x1_root 0x10 0)
  bar_high : SetupPlan (fixed x1_root 0x14 0)
  root_command : SetupPlan (masked x1_root 4 6 6)

pub data TrainPlan : WritePlan → Type 0 where
  reset_bit : (b : ℕ) → (b ≡ 1) ⊎ (b ≡ 2) → TrainPlan (requested x1_router 0xe008 b)
  start_word : (v : ℕ) → Memᴰ v (0 ∷ 2 ∷ 5 ∷ []) → TrainPlan (fixed x1_parf 0x494 v)
  link_enable : TrainPlan (masked x1_parf 0x1b0 0x100 0x100)

pub data WindowsPlan : WritePlan → Type 0 where
  root_word : (w : ℕ × ℕ) → Memᴰ w windows_root → WindowsPlan (fixed x1_root w.0 w.1)
  parf_word : (w : ℕ × ℕ) → Memᴰ w windows_parf → WindowsPlan (fixed x1_parf w.0 w.1)
  window_enable : WindowsPlan (masked x1_parf 0 0x44000000 0x44000000)

module _ {S : Type 0} (io : X1Pci0Io S) where
  x1_pci0_mode-Plans : Plans ModePlan (x1_pci0_mode (traced io))
  unfolding x1_pci0_mode quiescent
  x1_pci0_mode-Plans =
      require-Plans io ModePlan _ _ _ _
      and_then require-Plans io ModePlan _ _ _ _
      and_then require-Plans io ModePlan _ _ _ _
      and_then require-Plans io ModePlan _ _ _ _
      and_then require-Plans io ModePlan _ _ _ _
      and_then x1_pm-Plans io ModePlan _ _ _ _ clear_mode
      and_then x1_pv-Plans io ModePlan _ _ _ (router_gate 1 (omega arith))
      and_then reset_edge-Plans io ModePlan true
      and_then reset_edge-Plans io ModePlan false
      and_then x1_pm-Plans io ModePlan _ _ _ _ root_port
      and_then x1_pv-Plans io ModePlan _ _ _ (router_gate 0 (omega arith))
      and_then pause-Plans io ModePlan 5
      and_then require-Plans io ModePlan _ _ _ _
      and_then require-Plans io ModePlan _ _ _ _

  setup_before-Plans : Plans SetupPlan (setup_before (traced io))
  unfolding setup_before
  setup_before-Plans =
      x1_pm-Plans io SetupPlan _ _ _ _ clock_fields
      and_then x1_pm-Plans io SetupPlan _ _ _ _ clock_bit
      and_then set_values-Plans io SetupPlan _ _ SetupPlan.parf_word
      and_then x1_pr-Plans io SetupPlan _ _
      and_then set_masked-Plans io SetupPlan _ _ dbi_before

  gated-Plans : Plans SetupPlan (gated (traced io))
  unfolding gated protected_fields
  gated-Plans =
      closed_by-Plans io SetupPlan (x1_pm-Plans io SetupPlan _ _ _ _ (dbi_gate 0 (omega arith))) (
        x1_pm-Plans io SetupPlan _ _ _ _ class_code
        and_then x1_pm-Plans io SetupPlan _ _ _ _ capability)

  setup_after-Plans : Plans SetupPlan (setup_after (traced io))
  unfolding setup_after
  setup_after-Plans =
      set_masked-Plans io SetupPlan _ _ dbi_after
      and_then x1_pm-Plans io SetupPlan _ _ _ _ (shadow 1 (omega arith))
      and_then x1_pw-Plans io SetupPlan _ _ _ bar_low
      and_then x1_pw-Plans io SetupPlan _ _ _ bar_high
      and_then x1_pr-Plans io SetupPlan _ _
      and_then x1_pm-Plans io SetupPlan _ _ _ _ (shadow 0 (omega arith))
      and_then x1_pm-Plans io SetupPlan _ _ _ _ root_command

  x1_pci0_setup-Plans : Plans SetupPlan (x1_pci0_setup (traced io))
  unfolding x1_pci0_setup
  x1_pci0_setup-Plans =
      setup_before-Plans
      and_then x1_pm-Plans io SetupPlan _ _ _ _ (dbi_gate 1 (omega arith))
      and_then gated-Plans
      and_then setup_after-Plans

  x1_pci0_train-Plans : Plans TrainPlan (x1_pci0_train (traced io))
  unfolding x1_pci0_train train_link
  x1_pci0_train-Plans =
      let off : Memᴰ 0 (0 ∷ 2 ∷ 5 ∷ []) = Memᴰ.head refl in
      x1_pci0_reset_request-Plans io TrainPlan 1 (reset_bit 1 (inl refl))
      and_then pause-Plans io TrainPlan 1
      and_then x1_pci0_reset_request-Plans io TrainPlan 2 (reset_bit 2 (inr refl))
      and_then pause-Plans io TrainPlan 20
      and_then x1_pw-Plans io TrainPlan _ _ _ (start_word 0 off)
      and_then x1_pw-Plans io TrainPlan _ _ _ (start_word 2 (Memᴰ.tail (Memᴰ.head refl)))
      and_then x1_pw-Plans io TrainPlan _ _ _ (start_word 0 off)
      and_then x1_pw-Plans io TrainPlan _ _ _
          (start_word 5 (Memᴰ.tail (Memᴰ.tail (Memᴰ.head refl))))
      and_then cleared_after-Plans io TrainPlan (start_word 0 off)
          (x1_pm-Plans io TrainPlan _ _ _ _ link_enable and_then x1_pp-Plans io TrainPlan _ _ _ _ _)
      and_then x1_pp-Plans io TrainPlan _ _ _ _ _

  x1_pci0_windows-Plans : Plans WindowsPlan (x1_pci0_windows (traced io))
  unfolding x1_pci0_windows
  x1_pci0_windows-Plans =
      set_values-Plans io WindowsPlan _ _ root_word
      and_then set_values-Plans io WindowsPlan _ _ WindowsPlan.parf_word
      and_then require-Plans io WindowsPlan _ _ _ _
      and_then require-Plans io WindowsPlan _ _ _ _
      and_then x1_pm-Plans io WindowsPlan _ _ _ _ window_enable

  -- Whatever the hardware answers, and wherever a phase ends, each of its writes is one of the
  -- phase's plan: a fixed word, or the word just read from that register, which was not all ones,
  -- with only the bits of a mask replaced, or, of the reset mailbox, the word just read, in which
  -- no request was pending, with one request bit added.
  pub x1_pci0_writes-IsPlanned :
      (s : S)
      → IsPlanned ModePlan (x1_pci0_mode (traced io) (s, [])).1.1
        × IsPlanned SetupPlan (x1_pci0_setup (traced io) (s, [])).1.1
        × IsPlanned TrainPlan (x1_pci0_train (traced io) (s, [])).1.1
        × IsPlanned WindowsPlan (x1_pci0_windows (traced io) (s, [])).1.1
  unfolding IsPlanned
  x1_pci0_writes-IsPlanned s = (
    x1_pci0_mode-Plans.kept (s, []) tt,
    x1_pci0_setup-Plans.kept (s, []) tt,
    x1_pci0_train-Plans.kept (s, []) tt,
    x1_pci0_windows-Plans.kept (s, []) tt,
  )
