-- ===== src/Window/Registers.antt =====
-- The programming on a device that keeps what is written.
use yoga_slim7x_usb.Base.{
  ℕ, ◌>>>◌, ◌≡◌, refl, some, true, false, arith, ◌==◌, if◌then◌else◌, ok, each,
}
use yoga_slim7x_usb.Window.{
  X1MemIo, mem_ready, x1_mem_offset, x1_mem_read, x1_mem_expect, x1_mem_set, enable_round,
  enable_wait, inactive_phase, program_phase, enable_phase, final_phase, prepare_steps,
  x1_mem_prepare,
}
use yoga_slim7x_usb.Window.Writes.{fresh}

-- A register file: a read returns the last value written, and every callback succeeds.
abbrev pub write_register : ℕ → ℕ → (ℕ → ℕ) → ℕ → ℕ
write_register off v regs i = if i == off then v else regs i

abbrev pub register_file : X1MemIo (ℕ → ℕ)
register_file = record {
  all_set = true;
  check = λ regs. (ok, regs);
  read = λ regs off. (ok, (regs off, regs));
  write = λ regs off v. (ok, write_register off v regs);
  delay = λ regs ms. (ok, regs);
}

-- The registers with the window in place: a region of type 0, from 0x40000000 to 0x4fffffff, with
-- itself as its target, and enabled. What the other registers hold is what they held before.
pub record InPlace (before after : ℕ → ℕ) : Type 0 where
  pub region_type : after 0x1200 ≡ 0
  pub enabled : after 0x1204 ≡ 0x80000000
  pub base_low : after 0x1208 ≡ 0x40000000
  pub base_high : after 0x120c ≡ 0
  pub limit_low : after 0x1210 ≡ 0x4fffffff
  pub limit_high : after 0x1220 ≡ 0
  pub target_low : after 0x1214 ≡ 0x40000000
  pub target_high : after 0x1218 ≡ 0
  pub others : (i : ℕ) → x1_mem_offset i ≡ false → after i ≡ before i

-- On a device that keeps what is written, and whose region is disabled, whatever else its registers
-- hold, the preparation succeeds with eight writes, each of the eight registers holds the word of
-- the window, and every other register is left alone.
pub x1_mem_prepare_succeeds :
    (regs : ℕ → ℕ)
    → let q = x1_mem_prepare (some register_file) (some fresh) (write_register 0x1204 0 regs) in
      (q.0 ≡ ok)
      × (q.1.0
          ≡ some (record {
            attempted = true;
            enable_issued = true;
            complete = true;
            writes = 8;
            error = ok;
            step = mem_ready;
          }))
      × InPlace regs q.1.1
unfolding x1_mem_prepare prepare_steps inactive_phase program_phase enable_phase final_phase
    x1_mem_set x1_mem_expect x1_mem_read x1_mem_offset enable_wait enable_round each ◌>>>◌
x1_mem_prepare_succeeds regs = (
  refl,
  refl,
  record {
    region_type = refl;
    enabled = refl;
    base_low = refl;
    base_high = refl;
    limit_low = refl;
    limit_high = refl;
    target_low = refl;
    target_high = refl;
    others = λ i h. ground arith;
  },
)
