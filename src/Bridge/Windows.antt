-- ===== src/Bridge/Windows.antt =====
-- The configuration windows on hardware that keeps what is written.
use yoga_slim7x_usb.Base.{ℕ, ◌≡◌, refl, arith, All, if◌then◌else◌, ok, ◌>>>◌, each}
use yoga_slim7x_usb.Bridge.{X1Pci0Io, x1_pw, x1_pv, x1_pm, require, set_values, x1_pci0_windows}
use yoga_slim7x_usb.Bridge.Tables.{X1Pci0Region, x1_root, x1_parf, windows_root, windows_parf}
use yoga_slim7x_usb.Bridge.Alone.{same_place}

-- The registers of the three regions.
abbrev pub Registers : Type 0
Registers = X1Pci0Region → ℕ → ℕ

abbrev pub write_register : X1Pci0Region → (off v : ℕ) → Registers → Registers
write_register r off v regs r' off' = if same_place r off r' off' then v else regs r' off'

abbrev pub register_file : X1Pci0Io Registers
register_file = record {
  read = λ regs r off. (regs r off, regs);
  write = λ regs r off v. write_register r off v regs;
  reset = λ regs b. (ok, regs);
  delay = λ regs ms. regs;
}

-- On hardware that keeps what is written, and whose PARF command register is clear, the windows are
-- set up whatever the other registers hold: both tables are in place, and the two enable bits of
-- the command register are set.
pub x1_pci0_windows_succeeds :
    (regs : Registers)
    → let (ret, after) = x1_pci0_windows register_file (write_register x1_parf 0 0 regs) in
      (ret ≡ ok)
      × All (λ (w : ℕ × ℕ). after x1_root w.0 ≡ w.1) windows_root
      × All (λ (w : ℕ × ℕ). after x1_parf w.0 ≡ w.1) windows_parf
      × (after x1_parf 0 ≡ 0x44000000)
unfolding x1_pci0_windows x1_pv x1_pw x1_pm require set_values each ◌>>>◌
x1_pci0_windows_succeeds regs = (refl, ground arith, ground arith, refl)
