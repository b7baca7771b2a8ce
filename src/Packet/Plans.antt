-- ===== src/Packet/Plans.antt =====
-- snapshot/kernel/drivers/thunderbolt/x1-enum-packet.h: what the enumeration may write into the
-- root router and into the one external router, planned from what it has read.
use yoga_slim7x_usb.Base.{
  ℕ, ◌*◌, ◌^◌, bit_and, bit_or, List, [], ◌∷◌, Option, none, some, ◌||◌, ◌/=◌, if◌then◌else◌,
  byte_at, clear_field, Status, ok, err, eperm, Out, overwrite, Result, done, fail,
}

-- `x1_root_plan` from the five header words; `byte_at h i` reads the word `header[i]`.
unfoldable pub root_plan : List ℕ → Result (List ℕ)
root_plan h =
    if (byte_at h 0 /= 0x093805c6)
      || (byte_at h 1 /= 0x0101c11c)
      || (byte_at h 2 /= 0)
      || (byte_at h 3 /= 0)
      || (byte_at h 4 /= 0x2000000a)
    then fail eperm
    else done (
        byte_at h 1
        ∷ byte_at h 2
        ∷ bit_or (byte_at h 3) 0x80000000
        ∷ bit_or (clear_field (byte_at h 4) 0 16) 0x10ff
        ∷ [])

-- `x1_external_plan`.
unfoldable pub external_plan : List ℕ → Result (List ℕ)
external_plan h =
    if (byte_at h 0 /= 0x113b059f)
      || (byte_at h 1 /= 0x00014120)
      || (byte_at h 2 /= 0)
      || (byte_at h 3 /= 0)
      || (byte_at h 4 /= 0x2000000a)
    then fail eperm
    else done (bit_or (byte_at h 1) (1 * 2 ^ 20) ∷ 2 ∷ 0x80000000 ∷ 0x200010ff ∷ [])

-- A plan whose header or output pointer may be null.
abbrev plan_out : Result (List ℕ) → Out (List ℕ) → Status × Out (List ℕ)
plan_out (fail e) out = (err e, out)
plan_out (done ws) none = (err eperm, none)
plan_out (done ws) (some old) = (ok, some (overwrite ws old))

-- `x1_root_plan`.
unfoldable pub x1_root_plan : Option (List ℕ) → Out (List ℕ) → Status × Out (List ℕ)
x1_root_plan none out = (err eperm, out)
x1_root_plan (some h) out = plan_out (root_plan h) out

-- `x1_external_plan`.
unfoldable pub x1_external_plan : Option (List ℕ) → Out (List ℕ) → Status × Out (List ℕ)
x1_external_plan none out = (err eperm, out)
x1_external_plan (some h) out = plan_out (external_plan h) out

-- The new value of `x1_external_setup_plan`: bit 23 cleared, all others kept.
unfoldable pub setup_plan : ℕ → Result ℕ
setup_plan before =
    if bit_and before 0x8700000f /= 0 then fail eperm else done (clear_field before 23 1)

-- `x1_external_setup_plan`.
unfoldable pub x1_external_setup_plan : ℕ → Out ℕ → Status × Out ℕ
x1_external_setup_plan before none = (err eperm, none)
x1_external_setup_plan before (some old) = elim (setup_plan before) [
  | fail e ↦ (err e, some old)
  | done v ↦ (ok, some v)
]
