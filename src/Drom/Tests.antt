-- ===== src/Drom/Tests.antt =====
-- Concrete descriptors, with a stand-in for the kernel's checksum.
use yoga_slim7x_usb.Base.{
  ℕ, ◌+◌, ◌≡◌, refl, List, [], ◌∷◌, ◌++◌, some, ok, replicate, overwrite, drop, arith,
}
use yoga_slim7x_usb.Drom.{drom_build, drom_bytes, x1_drom_build, x1_patch}
use yoga_slim7x_usb.Drom.Laws.{IsDescriptor, x1_body, x1_drom_build-IsDescriptor}

abbrev sum_crc : ℕ → List ℕ → ℕ
sum_crc crc [] = crc
sum_crc crc (b ∷ bs) = sum_crc (crc + b) bs

abbrev buffer : List ℕ
buffer = replicate 116 0

abbrev built : List ℕ
built = overwrite (drom_bytes sum_crc 7 1) buffer

abbrev x1_built : List ℕ
x1_built = x1_patch sum_crc built

build_stores : drom_build sum_crc (some buffer) 116 7 1 ≡ (ok, some built)
unfolding drom_build
build_stores = refl

x1_build_stores : x1_drom_build sum_crc (some buffer) 116 7 1 ≡ (ok, some x1_built)
unfolding drom_build x1_drom_build
x1_build_stores = refl

x1_drom_build-IsDescriptor_example :
    IsDescriptor sum_crc x1_built 7 1 × (drop 13 x1_built ≡ x1_body ++ drop 116 buffer)
x1_drom_build-IsDescriptor_example =
    x1_drom_build-IsDescriptor sum_crc buffer x1_built 116 7 1 (omega arith) x1_build_stores
