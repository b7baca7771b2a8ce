-- ===== src/Window/Tests.antt =====
-- The preparation of the window on register files that start with other words.
use yoga_slim7x_usb.Base.{ℕ, ◌≡◌, refl, [], some, ok, true}
use yoga_slim7x_usb.Window.{X1MemState, mem_ready, x1_mem_prepare}
use yoga_slim7x_usb.Window.Writes.{logged, fresh}
use yoga_slim7x_usb.Window.Prepare.{IsPrepared, x1_mem_prepare-IsPrepared}
use yoga_slim7x_usb.Window.Registers.{
  register_file, write_register, InPlace, x1_mem_prepare_succeeds,
}

abbrev zeroed : ℕ → ℕ
zeroed off = 0

abbrev ready : X1MemState
ready = record {
  attempted = true;
  enable_issued = true;
  complete = true;
  writes = 8;
  error = ok;
  step = mem_ready;
}

x1_mem_prepare-IsPrepared_example :
    let q = x1_mem_prepare (some (logged register_file)) (some fresh) (zeroed, []) in
    (m : X1MemState) × (q.1.0 ≡ some m) × IsPrepared [] q.0 m q.1.1
x1_mem_prepare-IsPrepared_example = x1_mem_prepare-IsPrepared register_file zeroed [] refl

x1_mem_prepare_succeeds_example :
    let q = x1_mem_prepare (some register_file) (some fresh) (write_register 0x1204 0 zeroed) in
    (q.0 ≡ ok) × (q.1.0 ≡ some ready) × InPlace zeroed q.1.1
x1_mem_prepare_succeeds_example = x1_mem_prepare_succeeds zeroed
