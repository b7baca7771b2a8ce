-- ===== src/Window.antt =====
-- experiments/el1-pci0/kernel/drivers/thunderbolt/x1-pci0-mem.h: the one-attempt programming of an
-- outbound memory window. The callbacks of `struct x1_mem_io` act on a context of any type.
pub mod Writes
pub mod Outcome
pub mod Prepare
pub mod Registers
mod Tests
use yoga_slim7x_usb.Base.{
  ℕ, zero, suc, ◌+◌, List, [], ◌∷◌, Option, none, some, Bool, true, false, ◌||◌, not, ◌==◌,
  if◌then◌else◌, Status, ok, err, positive, einval, eio, ealready, etimedout, positive_as, checked,
  is_ok, Step, ◌>>>◌, act, return, each,
}

-- `struct x1_mem_io`; `all_set` says that no callback is a null pointer. A value that could not be
-- read is never used.
pub record X1MemIo (S : Type 0) : Type 0 where
  pub all_set : Bool
  pub check : S → Status × S
  pub read : S → (offset : ℕ) → Status × (ℕ × S)
  pub write : S → (offset value : ℕ) → Status × S
  pub delay : S → (ms : ℕ) → Status × S

-- The values of `step`.
pub data MemStep : Type 0 where
  no_step mem_inactive_ob1 mem_program_ob1 mem_enable_ob1 mem_final_readback mem_ready : MemStep

-- `struct x1_mem_state`.
pub record X1MemState : Type 0 where
  pub attempted : Bool
  pub enable_issued : Bool
  pub complete : Bool
  pub writes : ℕ
  pub error : Status
  pub step : MemStep

-- `x1_mem_offset`.
unfoldable pub x1_mem_offset : ℕ → Bool
x1_mem_offset off =
    (off == 0x1200)
    || (off == 0x1204)
    || (off == 0x1208)
    || (off == 0x120c)
    || (off == 0x1210)
    || (off == 0x1214)
    || (off == 0x1218)
    || (off == 0x1220)

-- `words`: the offsets and values of the window.
abbrev pub window_words : List (ℕ × ℕ)
window_words =
    (0x1208, 0x40000000)
    ∷ (0x120c, 0)
    ∷ (0x1210, 0x4fffffff)
    ∷ (0x1220, 0)
    ∷ (0x1214, 0x40000000)
    ∷ (0x1218, 0)
    ∷ (0x1200, 0)
    ∷ []

-- `ret > 0 ? -EIO : ret` of a call that returns something beside its status.
abbrev pub negative_or_zero : {A : Type 0} → Status × A → Status × A
negative_or_zero (ret, a) = (positive_as eio ret, a)

-- The state of the attempt beside the context.
abbrev pub Attempt : Type 0 → Type 0
Attempt S = X1MemState × S

abbrev pub count_write : X1MemState → X1MemState
count_write m = record m { writes = m.writes + 1 }

module _ {S : Type 0} where
  -- A call that leaves the state of the attempt alone.
  abbrev pub on_context : Step S → Step (Attempt S)
  on_context f (m, s) = let (ret, t) = f s in (ret, (m, t))

  abbrev pub on_state : (X1MemState → X1MemState) → Step (Attempt S)
  on_state f = act (λ p. (f p.0, p.1))

  abbrev pub at_step : MemStep → Step (Attempt S)
  at_step x = on_state (λ m. record m { step = x })

  -- The label `done`.
  abbrev pub prepare_done : Status × Attempt S → Status × Attempt S
  prepare_done (ret, (m, s)) = (ret, (record m { error = ret }, s))

module _ {S : Type 0} (io : X1MemIo S) where
  -- `x1_mem_read`.
  unfoldable pub x1_mem_read : (off : ℕ) → S → Status × (ℕ × S)
  x1_mem_read off s =
      if not (x1_mem_offset off)
      then (err einval, (0, s))
      else negative_or_zero (checked (io.check s) (λ t. io.read t off) (λ ret t. (ret, (0, t))))

  -- `x1_mem_expect`.
  unfoldable pub x1_mem_expect : (off value : ℕ) → Step S
  x1_mem_expect off value s =
      checked (x1_mem_read off s) (λ (p : ℕ × S). (if p.0 == value then ok else err eio, p.1))
        (λ ret p. (ret, p.1))

  -- `io->check` with its result, as the callers of the write use it.
  abbrev pub mem_check : Step S
  mem_check s = negative_or_zero (io.check s)

  abbrev pub mem_write : (off value : ℕ) → Step S
  mem_write off value s = negative_or_zero (io.write s off value)

  -- A write, which is counted before it is made.
  abbrev pub issue : (X1MemState → X1MemState) → (off value : ℕ) → Step (Attempt S)
  issue f off value = on_state f >>> on_context (mem_write off value)

  -- `if (!x1_mem_offset(off)) return -EINVAL;`
  abbrev pub offset_guard : (off : ℕ) → Step S
  offset_guard off s = (if not (x1_mem_offset off) then err einval else ok, s)

  -- `x1_mem_set`.
  unfoldable pub x1_mem_set : (off value : ℕ) → Step (Attempt S)
  x1_mem_set off value =
      on_context (offset_guard off)
      >>> on_context mem_check
      >>> issue count_write off value
      >>> on_context (x1_mem_expect off value)

  -- What a round of the wait for the enable bit decides on the value that it has read, in the last
  -- round or before; `again` follows the delay.
  unfoldable pub enable_round : (last : Bool) → ℕ → Step S → Step S
  enable_round last value again s =
      if value == 0x80000000
      then (ok, s)
      else (if not (value == 0)
          then (err eio, s)
          else (if last
              then (err etimedout, s)
              else checked (negative_or_zero (io.delay s 10)) again (λ ret t. (ret, t))))

  -- The wait for the enable bit, with the rounds that are left after this one.
  unfoldable pub enable_wait : (left : ℕ) → Step S
  enable_wait zero s =
      checked (x1_mem_read 0x1204 s) (λ (p : ℕ × S). enable_round true p.0 (return ok) p.1)
        (λ ret p. (ret, p.1))
  enable_wait (suc left) s =
      checked (x1_mem_read 0x1204 s) (λ (p : ℕ × S). enable_round false p.0 (enable_wait left) p.1)
        (λ ret p. (ret, p.1))

  -- The loops over `words` that write and that compare.
  abbrev pub program_words : Step (Attempt S)
  program_words = each (λ w. x1_mem_set w.0 w.1) window_words

  abbrev pub expect_words : Step (Attempt S)
  expect_words = each (λ w. on_context (x1_mem_expect w.0 w.1)) window_words

  -- The parts of `x1_mem_prepare`, by the value of `step`.
  unfoldable pub inactive_phase : Step (Attempt S)
  inactive_phase = at_step mem_inactive_ob1 >>> on_context (x1_mem_expect 0x1204 0)

  unfoldable pub program_phase : Step (Attempt S)
  program_phase =
      at_step mem_program_ob1
      >>> program_words
      >>> expect_words
      >>> on_context (x1_mem_expect 0x1204 0)

  unfoldable pub enable_phase : Step (Attempt S)
  enable_phase =
      at_step mem_enable_ob1
      >>> on_context mem_check
      >>> issue (λ m. count_write (record m { enable_issued = true })) 0x1204 0x80000000
      >>> on_context (enable_wait 4)

  unfoldable pub final_phase : Step (Attempt S)
  final_phase =
      at_step mem_final_readback
      >>> expect_words
      >>> on_context (x1_mem_expect 0x1204 0x80000000)
      >>> on_state (λ m. record m { complete = true; step = mem_ready })

  -- From the start to the label `done`, once the arguments are checked.
  unfoldable pub prepare_steps : Step (Attempt S)
  prepare_steps = inactive_phase >>> program_phase >>> enable_phase >>> final_phase

-- `x1_mem_prepare`; null pointers are `none`.
unfoldable pub x1_mem_prepare :
    {S : Type 0} → Option (X1MemIo S) → Option X1MemState → S → Status × (Option X1MemState × S)
x1_mem_prepare none m s = (err einval, (m, s))
x1_mem_prepare (some io) none s = (err einval, (none, s))
x1_mem_prepare (some io) (some m) s =
    if not io.all_set
    then (err einval, (some m, s))
    else (if m.attempted
        then (err ealready, (some m, s))
        else (let (ret, (m', t)) =
              prepare_done (prepare_steps io (record m { attempted = true }, s)) in
            (ret, (some m', t))))
