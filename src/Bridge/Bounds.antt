-- ===== src/Bridge/Bounds.antt =====
-- The bounds of the phases.
use yoga_slim7x_usb.Base.{Bool, true, false, []}
use yoga_slim7x_usb.Bridge.{
  X1Pci0Io, x1_pci0_mode, quiescent, reset_edge, protected_fields, gated, setup_before, setup_after,
  x1_pci0_setup, train_link, x1_pci0_train, x1_pci0_windows,
}
use yoga_slim7x_usb.Bridge.Trace.{traced}
use yoga_slim7x_usb.Bridge.Costs.{
  Within, Costs, ◌and_then◌, require-Costs, pause-Costs, x1_pr-Costs, reset-Costs, x1_pw-Costs,
  x1_pv-Costs, x1_pm-Costs, x1_pp-Costs, set_values-Costs, set_masked-Costs,
  x1_pci0_reset_request-Costs, closed_by-Costs, cleared_after-Costs,
}

module _ {S : Type 0} (io : X1Pci0Io S) where
  reset_edge-Costs : (b : Bool) → Costs (reset_edge (traced io) b) 0 0 5
  unfolding reset_edge
  reset_edge-Costs b = reset-Costs io b and_then pause-Costs io 5

  x1_pci0_mode-Costs : Costs (x1_pci0_mode (traced io)) 13 4 15
  unfolding x1_pci0_mode quiescent
  x1_pci0_mode-Costs =
      require-Costs io _ _ _ _
      and_then require-Costs io _ _ _ _
      and_then require-Costs io _ _ _ _
      and_then require-Costs io _ _ _ _
      and_then require-Costs io _ _ _ _
      and_then x1_pm-Costs io _ _ _ _
      and_then x1_pv-Costs io _ _ _
      and_then reset_edge-Costs true
      and_then reset_edge-Costs false
      and_then x1_pm-Costs io _ _ _ _
      and_then x1_pv-Costs io _ _ _
      and_then pause-Costs io 5
      and_then require-Costs io _ _ _ _
      and_then require-Costs io _ _ _ _

  setup_before-Costs : Costs (setup_before (traced io)) 17 12 0
  unfolding setup_before
  setup_before-Costs =
      x1_pm-Costs io _ _ _ _
      and_then x1_pm-Costs io _ _ _ _
      and_then set_values-Costs io _ _
      and_then x1_pr-Costs io _ _
      and_then set_masked-Costs io _ _

  gated-Costs : Costs (gated (traced io)) 6 3 0
  unfolding gated protected_fields
  gated-Costs =
      closed_by-Costs io _ _ _ _ _ _ _ _ (x1_pm-Costs io _ _ _ _)
        (x1_pm-Costs io _ _ _ _ and_then x1_pm-Costs io _ _ _ _)

  setup_after-Costs : Costs (setup_after (traced io)) 13 8 0
  unfolding setup_after
  setup_after-Costs =
      set_masked-Costs io _ _
      and_then x1_pm-Costs io _ _ _ _
      and_then x1_pw-Costs io _ _ _
      and_then x1_pw-Costs io _ _ _
      and_then x1_pr-Costs io _ _
      and_then x1_pm-Costs io _ _ _ _
      and_then x1_pm-Costs io _ _ _ _

  x1_pci0_setup-Costs : Costs (x1_pci0_setup (traced io)) 38 24 0
  unfolding x1_pci0_setup
  x1_pci0_setup-Costs =
      setup_before-Costs
      and_then x1_pm-Costs io _ _ _ _
      and_then gated-Costs
      and_then setup_after-Costs

  x1_pci0_train-Costs : Costs (x1_pci0_train (traced io)) 328 8 341
  unfolding x1_pci0_train train_link
  x1_pci0_train-Costs =
      x1_pci0_reset_request-Costs io 1
      and_then pause-Costs io 1
      and_then x1_pci0_reset_request-Costs io 2
      and_then pause-Costs io 20
      and_then x1_pw-Costs io _ _ _
      and_then x1_pw-Costs io _ _ _
      and_then x1_pw-Costs io _ _ _
      and_then x1_pw-Costs io _ _ _
      and_then cleared_after-Costs io _ _ _ _
          (x1_pm-Costs io _ _ _ _ and_then x1_pp-Costs io _ _ _ _ _)
      and_then x1_pp-Costs io _ _ _ _ _

  x1_pci0_windows-Costs : Costs (x1_pci0_windows (traced io)) 35 32 0
  unfolding x1_pci0_windows
  x1_pci0_windows-Costs =
      set_values-Costs io _ _
      and_then set_values-Costs io _ _
      and_then require-Costs io _ _ _ _
      and_then require-Costs io _ _ _ _
      and_then x1_pm-Costs io _ _ _ _

  -- Whatever the hardware answers, no phase waits or polls without an end: the mode change makes
  -- at most 13 reads and 4 writes and waits at most 15 ms, the set-up 38 reads and 24 writes, the
  -- training 328 reads and 8 writes within 341 ms, and the windows 35 reads and 32 writes.
  pub x1_pci0_bounded :
      (s : S)
      → Within 13 4 15 [] (x1_pci0_mode (traced io) (s, [])).1.1
        × Within 38 24 0 [] (x1_pci0_setup (traced io) (s, [])).1.1
        × Within 328 8 341 [] (x1_pci0_train (traced io) (s, [])).1.1
        × Within 35 32 0 [] (x1_pci0_windows (traced io) (s, [])).1.1
  x1_pci0_bounded s = (
    x1_pci0_mode-Costs.within (s, []),
    x1_pci0_setup-Costs.within (s, []),
    x1_pci0_train-Costs.within (s, []),
    x1_pci0_windows-Costs.within (s, []),
  )
