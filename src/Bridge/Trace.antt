-- ===== src/Bridge/Trace.antt =====
-- The accesses of the initialisation as a trace, and what it says of the writes.
use yoga_slim7x_usb.Base.{ℕ, ◌≡◌, ◌≢◌, List, [], ◌∷◌, Bool, bit_and, bit_or, not32}
use yoga_slim7x_usb.Bridge.{X1Pci0Io}
use yoga_slim7x_usb.Bridge.Tables.{X1Pci0Region}

-- One call of a callback.
pub data Access : Type 0 where
  was_read was_written : X1Pci0Region → (offset value : ℕ) → Access
  was_reset : Bool → Access
  was_delayed : (ms : ℕ) → Access

-- A context with the trace of its accesses, the last one first.
abbrev pub Traced : Type 0 → Type 0
Traced S = S × List Access

-- Callbacks that keep the trace beside what they do.
abbrev pub traced : {S : Type 0} → X1Pci0Io S → X1Pci0Io (Traced S)
traced io = record {
  read = λ s r off. let (v, t) = io.read s.0 r off in (v, (t, was_read r off v ∷ s.1));
  write = λ s r off v. (io.write s.0 r off v, was_written r off v ∷ s.1);
  reset = λ s b. let (ret, t) = io.reset s.0 b in (ret, (t, was_reset b ∷ s.1));
  delay = λ s ms. (io.delay s.0 ms, was_delayed ms ∷ s.1);
}

-- What a write may be: a fixed word, the word that was just read with the bits of a mask replaced,
-- or the word that was just read with a request bit set.
pub data WritePlan : Type 0 where
  fixed : X1Pci0Region → (off v : ℕ) → WritePlan
  masked : X1Pci0Region → (off mask v : ℕ) → WritePlan
  requested : X1Pci0Region → (off bit : ℕ) → WritePlan

-- A write of `w` after the trace `before` is the one that the plan allows.
unfoldable pub Justified : WritePlan → X1Pci0Region → (off w : ℕ) → (before : List Access) → Type 0
Justified (fixed r o v) r' off w before = (r' ≡ r) × (off ≡ o) × (w ≡ v)
Justified (masked r o mask v) r' off w before =
    (old : ℕ) × (earlier : List Access) × (r' ≡ r)
    × (off ≡ o)
    × (before ≡ was_read r o old ∷ earlier)
    × (old ≢ 0xffffffff)
    × (w ≡ bit_or (bit_and old (not32 mask)) v)
Justified (requested r o bit) r' off w before =
    (old : ℕ) × (earlier : List Access) × (r' ≡ r)
    × (off ≡ o)
    × (before ≡ was_read r o old ∷ earlier)
    × (bit_and old 3 ≡ 0)
    × (w ≡ bit_or old bit)

-- Every write of the trace is one of the plans in `A`.
unfoldable pub IsPlanned : (A : WritePlan → Type 0) → List Access → Type 0
IsPlanned A [] = Unit {0}
IsPlanned A (was_read r off v ∷ before) = IsPlanned A before
IsPlanned A (was_written r off w ∷ before) =
    ((p : WritePlan) × A p × Justified p r off w before) × IsPlanned A before
IsPlanned A (was_reset b ∷ before) = IsPlanned A before
IsPlanned A (was_delayed ms ∷ before) = IsPlanned A before
