-- ===== src/Bridge/Tables.antt =====
-- The fixed tables of x1-pcie-init.h: registers, their values and masks.
use yoga_slim7x_usb.Base.{ℕ, List, [], ◌∷◌}

-- `enum x1_pci0_region`.
pub data X1Pci0Region : Type 0 where
  x1_root x1_parf x1_router : X1Pci0Region

-- `parf` of `x1_pci0_setup`.
abbrev pub setup_parf : List (ℕ × ℕ)
setup_parf =
    (0x350, 0)
    ∷ (0x354, 4)
    ∷ (0x634, 0x1000)
    ∷ (0x638, 4)
    ∷ (0x64c, 0xffffffff)
    ∷ (0x650, 0xffffffff)
    ∷ (0x358, 0)
    ∷ (0x35c, 0x200)
    ∷ []

-- `dbi` of `x1_pci0_setup`: the entries before and after the gate is used.
abbrev pub setup_dbi_before : List (ℕ × ℕ × ℕ)
setup_dbi_before = (0xb90, 0x100, 0x100) ∷ (0x71c, 0xffff0000, 0x04040000) ∷ []

abbrev pub setup_dbi_after : List (ℕ × ℕ × ℕ)
setup_dbi_after = (0x644, 1, 0) ∷ (0x718, 0x7c000, 0x10000) ∷ (0x20, 0xfff0fff0, 0x4ff04000) ∷ []

-- `root` of `x1_pci0_windows`.
abbrev pub windows_root : List (ℕ × ℕ)
windows_root =
    (0x1008, 0x00100000)
    ∷ (0x100c, 4)
    ∷ (0x1010, 0x001fffff)
    ∷ (0x1014, 0x01000000)
    ∷ (0x1018, 0)
    ∷ (0x1000, 4)
    ∷ (0x1004, 0x90000000)
    ∷ (0x1208, 0x00200000)
    ∷ (0x120c, 4)
    ∷ (0x1210, 0x0fffffff)
    ∷ (0x1200, 5)
    ∷ (0x1204, 0x90000000)
    ∷ []

-- `parf` of `x1_pci0_windows`.
abbrev pub windows_parf : List (ℕ × ℕ)
windows_parf =
    (0x380, 0)
    ∷ (0x360, 0x1000)
    ∷ (0x364, 4)
    ∷ (0x370, 0x1000)
    ∷ (0x374, 4)
    ∷ (0x388, 0x000fffff)
    ∷ (0x390, 0x008fefff)
    ∷ (0x368, 0x000fffff)
    ∷ (0x36c, 4)
    ∷ (0x378, 0x000fffff)
    ∷ (0x37c, 4)
    ∷ (0x398, 0x101000)
    ∷ (0x39c, 4)
    ∷ (0x3a8, 0x101000)
    ∷ (0x3ac, 4)
    ∷ (0x3a0, 0x1fffff)
    ∷ (0x3a4, 4)
    ∷ (0x3b0, 0x1fffff)
    ∷ (0x3b4, 4)
    ∷ []
