-- ===== src/Startup/Tests.antt =====
-- Concrete cold starts: a machine that counts what its callbacks do.
use yoga_slim7x_usb.Base.{
  ℕ, ◌+◌, ◌≡◌, refl, List, [], ◌∷◌, some, none, true, ok, err, einval, ealready, le32, ltb,
  if◌then◌else◌,
}
use yoga_slim7x_usb.Drom.{drom_build, x1_drom_build}
use yoga_slim7x_usb.Firmware.{fw_validate, validate_loop}
use yoga_slim7x_usb.Startup.{
  X1Config, X1Phase, X1State, X1Ops, validate_config, run_new, run_phase, x1_startup_run,
  validating, clear_1200c, clear_loop,
}
use yoga_slim7x_usb.Startup.Steps.{none_yet, owner, operations}
use yoga_slim7x_usb.Startup.Outcome.{Ends, run_new-Ends, x1_startup_run_once}
use yoga_slim7x_usb.Startup.Clear.{Counts}

abbrev zero_crc : ℕ → List ℕ → ℕ
zero_crc crc p = crc

-- A machine whose state is the number of callbacks made; bit 31 clears at the fourth.
abbrev machine : X1Ops ℕ
machine = record {
  all_set = true;
  take_ownership = λ n cfg. (ok, n + 1);
  perform = λ n x cfg. (ok, n + 1);
  read = λ n offset. (ok, (if ltb n 4 then 0x80000000 else 0), n + 1);
  update = λ n offset mask value. (ok, n + 1);
  delay_us = λ n us. n + 1;
}

abbrev board : X1Config
board = record {
  firmware = some (0 ∷ 0 ∷ 0 ∷ 0 ∷ 1 ∷ 0 ∷ 0 ∷ 0 ∷ 17 ∷ 0 ∷ 0 ∷ 0 ∷ []);
  firmware_size = 12;
  serial = 7;
  router = 0;
  phy_rx_eq = 0x6f;
  mcu_preset = 0x0c63;
  reset_release_us = 100;
}

abbrev other_router : X1Config
other_router = record board { router = 1 }

abbrev unused : X1State
unused = record { phase = X1Phase.new; active = none_yet; completed = none_yet; error = ok }

board_valid : validate_config zero_crc board machine ≡ ok
unfolding validate_config x1_drom_build drom_build fw_validate validate_loop le32
board_valid = refl

other_router_refused : validate_config zero_crc other_router machine ≡ err einval
unfolding validate_config
other_router_refused = refl

run_new-Ends_example :
    Ends machine board 1 owner operations (run_new zero_crc (some board) (some machine) 0)
run_new-Ends_example = run_new-Ends zero_crc board machine 0 1 board_valid refl

abbrev refused_state : X1State
refused_state = record validating { error = err einval; phase = X1Phase.failed }

no_config_run :
    x1_startup_run zero_crc (some unused) none (some machine) 0
    ≡ (err einval, some refused_state, 0)
unfolding x1_startup_run run_phase run_new
no_config_run = refl

x1_startup_run_once_example :
    x1_startup_run zero_crc (some refused_state) (some board) (some machine) 5
    ≡ (err ealready, some refused_state, 5)
x1_startup_run_once_example =
    x1_startup_run_once zero_crc unused refused_state none (some board) (some machine)
      (some machine) 0 0 5 (err einval) refl no_config_run

abbrev none_counted : Counts
none_counted = record { reads = 0; updates = 0 }

machine_clears : clear_1200c machine 0 ≡ (ok, 8)
unfolding clear_1200c clear_loop
machine_clears = refl
