-- ===== src/Bridge/Tests.antt =====
-- The phases on a root port that answers its resets, and on one whose link never comes up.
use yoga_slim7x_usb.Base.{◌≡◌, refl, [], if◌then◌else◌, ok, err, etimedout, Ended, ◌>>>◌, each}
use yoga_slim7x_usb.Bridge.{
  X1Pci0Io, x1_pw, x1_pv, x1_pm, x1_pp, poll_round, pause, require, quiescent, reset_edge,
  set_values, set_masked, x1_pr_unused, protected_fields, gated, setup_before, setup_after,
  x1_pci0_reset_request, train_link, x1_pci0_mode, x1_pci0_setup, x1_pci0_train, x1_pci0_windows,
}
use yoga_slim7x_usb.Bridge.Tables.{x1_root, x1_parf, x1_router}
use yoga_slim7x_usb.Bridge.Trace.{traced, IsPlanned}
use yoga_slim7x_usb.Bridge.Alone.{same_place}
use yoga_slim7x_usb.Bridge.Costs.{Within}
use yoga_slim7x_usb.Bridge.Places.{
  ModePlan, SetupPlan, TrainPlan, WindowsPlan, x1_pci0_writes-IsPlanned,
}
use yoga_slim7x_usb.Bridge.Train.{IsLinked, IsCleared, x1_pci0_train-IsCleared}
use yoga_slim7x_usb.Bridge.Gate.{IsClosed, GateEnd, x1_pci0_setup-GateEnd}
use yoga_slim7x_usb.Bridge.Bounds.{x1_pci0_bounded}
use yoga_slim7x_usb.Bridge.Windows.{Registers, write_register, register_file}

-- A port that acknowledges each reset request at once and takes the root-port header at the reset.
abbrev port : X1Pci0Io Registers
port = record register_file {
  write = λ regs r off v.
      write_register r off (if same_place x1_router 0xe008 r off then 0 else v) regs;
  reset = λ regs b. (ok, write_register x1_root 12 0x10000 regs);
}

abbrev cold : Registers
cold x1_root off =
    if same_place x1_root 0 x1_root off
    then 0x011117cb
    else (if same_place x1_root 4 x1_root off
        then 0x00100000
        else (if same_place x1_root 8 x1_root off then 0xff000001 else 0))
cold x1_parf off = 0
cold x1_router off = 0

-- The link is up.
abbrev linked : Registers
linked = write_register x1_root 0xf48 0x400 (write_register x1_parf 0x1b0 0x11 cold)

mode_ok : (x1_pci0_mode port cold).0 ≡ ok
unfolding x1_pci0_mode quiescent require x1_pm x1_pv x1_pw reset_edge pause ◌>>>◌
mode_ok = refl

setup_ok : (x1_pci0_setup port cold).0 ≡ ok
unfolding x1_pci0_setup setup_before setup_after gated protected_fields require x1_pm x1_pv x1_pw
    x1_pr_unused set_values set_masked each ◌>>>◌
setup_ok = refl

train_ok : (x1_pci0_train port linked).0 ≡ ok
unfolding x1_pci0_train train_link x1_pci0_reset_request require x1_pm x1_pw x1_pp poll_round pause
    ◌>>>◌
train_ok = refl

train_unlinked : (x1_pci0_train port cold).0 ≡ err etimedout
unfolding x1_pci0_train train_link x1_pci0_reset_request require x1_pm x1_pw x1_pp poll_round pause
    ◌>>>◌
train_unlinked = refl

x1_pci0_writes-IsPlanned_example :
    IsPlanned ModePlan (x1_pci0_mode (traced port) (cold, [])).1.1
    × IsPlanned SetupPlan (x1_pci0_setup (traced port) (cold, [])).1.1
    × IsPlanned TrainPlan (x1_pci0_train (traced port) (cold, [])).1.1
    × IsPlanned WindowsPlan (x1_pci0_windows (traced port) (cold, [])).1.1
x1_pci0_writes-IsPlanned_example = x1_pci0_writes-IsPlanned port cold

x1_pci0_train-IsCleared_example :
    Ended IsLinked IsCleared (x1_pci0_train (traced port) (linked, []))
x1_pci0_train-IsCleared_example = x1_pci0_train-IsCleared port linked

x1_pci0_setup-GateEnd_example : Ended IsClosed GateEnd (x1_pci0_setup (traced port) (cold, []))
x1_pci0_setup-GateEnd_example = x1_pci0_setup-GateEnd port cold

x1_pci0_bounded_example :
    Within 13 4 15 [] (x1_pci0_mode (traced port) (cold, [])).1.1
    × Within 38 24 0 [] (x1_pci0_setup (traced port) (cold, [])).1.1
    × Within 328 8 341 [] (x1_pci0_train (traced port) (cold, [])).1.1
    × Within 35 32 0 [] (x1_pci0_windows (traced port) (cold, [])).1.1
x1_pci0_bounded_example = x1_pci0_bounded port cold
