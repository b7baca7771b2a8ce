-- ===== src/Imsi/Target.antt =====
-- The target of the interrupt messages lies in no memory window of the bridge.
use yoga_slim7x_usb.Base.{
  demand, ℕ, ◌+◌, ◌-◌, ◌%◌, ◌≤◌, ◌<◌, ◌≡◌, ◌≢◌, ◌↔◌, refl, ap, ap₂, ◌∙◌, ◌⊎◌, List, [], ◌∷◌, length,
  Option, none, some, Bool, true, false, ltb, if◌then◌else◌, Status, ok, err, positive, einval,
  arith, ◌>>>◌,
}
use yoga_slim7x_usb.Imsi.{
  PolicyIo, ImsiPolicy, ResourceType, bus_resource, memory_resource, other_resource, ResourceWindow,
  check_memory, check_window, after_window, check_windows, u64_max, on_device, x1_policy_admit,
  x1_policy_live, exclude_windows, target_steps, x1_imsi_policy_target,
}

-- A window that does not meet the eight bytes at the target, neither in the addresses of the bus nor
-- in those of the processor.
pub record IsApart (target : ℕ) (w : ResourceWindow) : Type 0 where
  pub ordered : w.start ≤ w.end
  pub translated : w.offset ≤ w.start
  pub bus : (w.end - w.offset < target) ⊎ (target + 7 < w.start - w.offset)
  pub processor : (w.end < target) ⊎ (target + 7 < w.start)

-- What is required of an entry of the list.
unfoldable pub IsExcluded : (target : ℕ) → ResourceType → ResourceWindow → Type 0
IsExcluded target bus_resource w = Unit {0}
IsExcluded target memory_resource w = IsApart target w
IsExcluded target other_resource w = ⊥

unfoldable pub IsClear : (target : ℕ) → List (Option ResourceWindow) → Type 0
IsClear target [] = Unit {0}
IsClear target (none ∷ rest) = ⊥
IsClear target (some w ∷ rest) = IsExcluded target w.type w × IsClear target rest

-- The memory windows of a list.
abbrev pub is_memory : ResourceType → ℕ
is_memory memory_resource = 1
is_memory _ = 0

unfoldable pub memory_count : List (Option ResourceWindow) → ℕ
memory_count [] = 0
memory_count (none ∷ rest) = memory_count rest
memory_count (some w ∷ rest) = is_memory w.type + memory_count rest

check_memory_lem :
    (target n : ℕ) (w : ResourceWindow)
    → check_memory target w ≡ (ok, n)
    → IsApart target w × (n ≡ 1)
unfolding check_memory
check_memory_lem target n w e = (
  record {
    ordered = ground arith;
    translated = ground arith;
    bus = ground arith;
    processor = ground arith;
  },
  ground arith,
)

check_memory_complete :
    (target : ℕ) (w : ResourceWindow) → IsApart target w → check_memory target w ≡ (ok, 1)
unfolding check_memory
check_memory_complete target w h =
    let a = h.ordered in
    let b = h.translated in let c = h.bus in let d = h.processor in ground arith

-- A window that is admitted, with what it adds to the count.
check_window_lem :
    (target n : ℕ) (t : ResourceType) (w : ResourceWindow)
    → check_window target t w ≡ (ok, n)
    → IsExcluded target t w × (n ≡ is_memory t)
unfolding check_window IsExcluded
check_window_lem target n bus_resource w e = (tt, ground arith)
check_window_lem target n memory_resource w e = check_memory_lem target n w e
check_window_lem target n other_resource w e = ground arith

check_window_complete :
    (target : ℕ) (t : ResourceType) (w : ResourceWindow)
    → IsExcluded target t w
    → check_window target t w ≡ (ok, is_memory t)
unfolding check_window IsExcluded
check_window_complete target bus_resource w h = refl
check_window_complete target memory_resource w h = check_memory_complete target w h
check_window_complete target other_resource w h = absurd h

after_window-ok :
    (counted : ℕ) (r : Status × ℕ) (again : ℕ → Status × ℕ) (n : ℕ)
    → after_window counted r again ≡ (ok, n)
    → (k : ℕ) × (r ≡ (ok, k)) × (again (counted + k) ≡ (ok, n))
after_window-ok counted (ok, k) again n e = (k, refl, e)
after_window-ok counted (err c, k) again n e = ground arith
after_window-ok counted (positive c, k) again n e = ground arith

refused_or :
    (b : Bool) (counted : ℕ) (r : Status × ℕ) (n : ℕ)
    → (if b then (err einval, counted) else r) ≡ (ok, n)
    → (b ≡ false) × (r ≡ (ok, n))
refused_or true counted r n e = ground arith
refused_or false counted r n e = (refl, e)

check_windows_lem :
    (target entries counted n : ℕ) (ws : List (Option ResourceWindow))
    → entries ≤ 16
    → check_windows target entries counted ws ≡ (ok, n)
    → IsClear target ws × (entries + length ws ≤ 16) × (n ≡ counted + memory_count ws)
unfolding check_windows IsClear memory_count
check_windows_lem target entries counted n [] b e = (tt, omega arith, ground arith)
check_windows_lem target entries counted n (none ∷ rest) b e = ground arith
check_windows_lem target entries counted n (some w ∷ rest) b e =
    let again : ℕ → Status × ℕ = λ m. check_windows target (entries + 1) m rest in
    let (few, e') =
      refused_or (ltb 16 (entries + 1)) counted
        (after_window counted (check_window target w.type w) again) n e in
    let (k, first, e'') = after_window-ok counted (check_window target w.type w) again n e' in
    let (apart, one) = check_window_lem target k w.type w first in
    let (clear, bound, total) =
      check_windows_lem target (entries + 1) (counted + k) n rest (ground arith) e'' in
    ((apart, clear), omega (arith, bound), omega (arith, total, one))

check_windows_complete :
    (target entries counted : ℕ) (ws : List (Option ResourceWindow))
    → IsClear target ws
    → entries + length ws ≤ 16
    → check_windows target entries counted ws ≡ (ok, counted + memory_count ws)
unfolding check_windows IsClear memory_count
check_windows_complete target entries counted [] h b = ground arith
check_windows_complete target entries counted (none ∷ rest) h b = absurd h
check_windows_complete target entries counted (some w ∷ rest) (a, h) b =
    let first = check_window_complete target w.type w a in
    let later =
      check_windows_complete target (entries + 1) (counted + is_memory w.type) rest h
        (omega (arith, b)) in
    let few : ltb 16 (entries + 1) ≡ false = ground arith in
    rw (few, first) (later ∙ ap (λ (n : ℕ). (ok, n)) (omega arith))

-- What makes an eight-byte target acceptable to a bridge with these windows.
pub record IsTarget (target : ℕ) (ws : List (Option ResourceWindow)) : Type 0 where
  pub aligned : target % 8 ≡ 0
  pub representable : target + 7 ≤ u64_max
  pub few : length ws ≤ 16
  pub clear : IsClear target ws
  pub some_memory : 1 ≤ memory_count ws

module _ {S : Type 0} (io : PolicyIo S) where
  -- The result of the steps, from those of the calls.
  target_steps_iff :
      (target : ℕ) (p : ImsiPolicy) (s : S)
      → let (r, t) = x1_policy_admit io s in
        let (c, n) = check_windows target 0 p.memory_windows (io.windows t) in
        ((target_steps io target (p, s)).0 ≡ ok) ↔ (
          (r ≡ ok)
          × (target % 8 ≡ 0)
          × (target + 7 ≤ u64_max)
          × (c ≡ ok)
          × (n ≢ 0)
          × ((x1_policy_live io t).0 ≡ ok))
  unfolding target_steps on_device demand exclude_windows ◌>>>◌
  target_steps_iff target p s = ground arith

  first_target :
      (target : ℕ) (p : ImsiPolicy) (s : S)
      → p.target_attempted ≡ false
      → x1_imsi_policy_target io (some p) target s ≡ (
          let (ret, (q, t)) =
            target_steps io target (record p { target_attempted = true; target = target }, s) in
          (ret, (some (record q { target_error = ret }), t)))
  unfolding x1_imsi_policy_target
  first_target target p s h = ground arith

-- A list of windows that the loop accepts, and how many of them are of memory.
check_windows_ok :
    (target counted : ℕ) (ws : List (Option ResourceWindow))
    → counted ≡ 0
    → (let (c, n) = check_windows target 0 counted ws in (c ≡ ok) × (n ≢ 0))
      ↔ ((length ws ≤ 16) × IsClear target ws × (1 ≤ memory_count ws))
check_windows_ok target counted ws z = (
  λ (c, n).
      let (clear, few, total) =
        check_windows_lem target 0 counted _ ws (omega arith)
          (ap₂ (λ (a : Status) (b : ℕ). (a, b)) c refl) in
      (omega (arith, few), clear, ground arith),
  λ (few, clear, memory).
      let e = check_windows_complete target 0 counted ws clear (omega (arith, few)) in
      (ground arith, λ h. ground arith),
)

-- A first attempt, whose count starts at 0, accepts a target exactly when the kernel admits the
-- devices and the owner is still live, the target is aligned to eight bytes that do not wrap
-- around, and the bridge has at most 16 windows, all of them known, at least one of them of memory,
-- and none that meets these bytes, in the addresses of the bus or of the processor.
pub x1_imsi_policy_target_iff :
    {S : Type 0} (io : PolicyIo S) (p : ImsiPolicy) (target : ℕ) (s : S)
    → p.target_attempted ≡ false
    → p.memory_windows ≡ 0
    → let (r, t) = x1_policy_admit io s in
      ((x1_imsi_policy_target io (some p) target s).0 ≡ ok)
      ↔ ((r ≡ ok) × IsTarget target (io.windows t) × ((x1_policy_live io t).0 ≡ ok))
x1_imsi_policy_target_iff io p target s a b =
    let q : ImsiPolicy = record p { target_attempted = true; target = target } in
    let (r, t) = x1_policy_admit io s in
    let steps = target_steps_iff io target q s in
    let windows = check_windows_ok target p.memory_windows (io.windows t) b in
    rw (first_target io target p s a) (
      (λ h.
          let (admitted, aligned, wrap, c, n, live) = steps.0 h in
          let (few, clear, memory) = windows.0 (c, n) in
          (
            admitted,
            record {
              aligned = aligned;
              representable = wrap;
              few = few;
              clear = clear;
              some_memory = memory;
            },
            live,
          )),
      (λ (admitted, x, live).
          let (c, n) = windows.1 (x.few, x.clear, x.some_memory) in
          steps.1 (admitted, x.aligned, x.representable, c, n, live)),
    )
