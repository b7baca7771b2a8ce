-- ===== src/Manager/Log.antt =====
-- What the owner of the connection manager asks of the hardware, beside what it does.
use yoga_slim7x_usb.Base.{
  ℕ, ◌≡◌, ◌≢◌, ◌⊎◌, refl, List, [], ◌∷◌, Option, Bool, true, false, ◌&&◌, ◌||◌, not, ◌==◌, ◌∙◌,
  if_cases, Status,
}
use yoga_slim7x_usb.Manager.{
  X1Native, Switch, ScanReport, ManagerKernel, PcieCalls, Managed, is_terminal, scan_results,
  x1_native_scan_result,
}

-- What is asked: a command to the microcontroller, a rescan, a tunnel to a router.
pub data Act : Type 0 where
  command : ℕ → Act
  rescan_act : Act
  tunnel : Switch → Act

-- The callbacks, with what was asked beside what they do, the last first.
abbrev pub Logged : Type 0 → Type 0
Logged S = S × List Act

abbrev pub silently : {S A : Type 0} → (S → A × S) → Logged S → A × Logged S
silently f (s, log) = let (a, t) = f s in (a, (t, log))

abbrev pub with_value : {S A B : Type 0} → List Act → A × (B × S) → A × (B × Logged S)
with_value log (a, (b, t)) = (a, (b, (t, log)))

unfoldable pub logged : {S : Type 0} → ManagerKernel S → ManagerKernel (Logged S)
logged k = record {
  lacie_uid = k.lacie_uid;
  is_test = λ s. k.is_test s.0;
  read_uid = λ s r. with_value s.1 (k.read_uid s.0 r);
  alloc_owner = silently k.alloc_owner;
  read_caps = silently k.read_caps;
  ring_enabled = λ s i. silently (λ t. k.ring_enabled t i) s;
  alloc_rings = silently k.alloc_rings;
  prepare = silently k.prepare;
  prepared = λ s. k.prepared s.0;
  init_interrupts = silently k.init_interrupts;
  disable_interrupts = λ s. (k.disable_interrupts s.0, s.1);
  tb_probe = silently k.tb_probe;
  domain_add = silently k.domain_add;
  schedule_watchdog = λ s. (k.schedule_watchdog s.0, s.1);
  ctl_stop = λ s. (k.ctl_stop s.0, s.1);
  valid = silently k.valid;
  connect = λ s w. with_value (command w ∷ s.1) (k.connect s.0 w);
  set_deadline = λ s. (k.set_deadline s.0, s.1);
  before = λ s ms. k.before s.0 ms;
  try_lock = silently k.try_lock;
  find_switch = silently k.find_switch;
  rescan = λ s. with_value (rescan_act ∷ s.1) (k.rescan s.0);
  sleep = silently k.sleep;
  approve = λ s w a. let (ret, t) = k.approve s.0 w a in (ret, (t, tunnel w ∷ s.1));
  set_authorized = λ s. (k.set_authorized s.0, s.1);
}

unfoldable pub logged_calls : {S : Type 0} → PcieCalls S → PcieCalls (Logged S)
logged_calls p = record {
  start = λ r. silently (p.start r);
  train = silently p.train;
  scan = silently p.scan;
}

-- The words that the microcontroller may be given.
abbrev pub IsPermitted : ℕ → Type 0
IsPermitted w = (w ≡ 0x2501) ⊎ (w ≡ 0x2701)

-- A router to which a tunnel may be opened.
pub record MayTunnel (lacie_uid : ℕ) (w : Switch) : Type 0 where
  pub chosen : lacie_uid ≢ 0
  pub identity : w.uid ≡ lacie_uid
  pub attached : w.is_unplugged ≡ false
  pub usb4 : w.link_usb4 ≡ true
  pub upstream : w.has_pcie_up ≡ true
  pub unauthorized : w.authorized ≡ false

-- What was asked while the owner waits: one command with a word that is permitted, and one rescan
-- at most after it.
pub data IsWaiting : (rescanned : Bool) → List Act → Type 0 where
  commanded : (w : ℕ) → IsPermitted w → IsWaiting false (command w ∷ [])
  rescanned : (w : ℕ) → IsPermitted w → IsWaiting true (rescan_act ∷ command w ∷ [])

-- The same, and one tunnel at most after it, to a router of the permitted identity that can be
-- reached and has no tunnel yet.
pub data IsAsked (lacie_uid : ℕ) : List Act → Type 0 where
  waiting : (r : Bool) (log : List Act) → IsWaiting r log → IsAsked lacie_uid log
  tunnelled :
      (r : Bool) (log : List Act) (w : Switch)
      → IsWaiting r log
      → MayTunnel lacie_uid w
      → IsAsked lacie_uid (tunnel w ∷ log)

-- Whether the owner has been asked to connect, and whether it lets a tunnel through.
abbrev pub latch : X1Native → Bool × Bool
latch n = (n.attempted, n.allow_pcie)

pub x1_native_scan_result-latch :
    (r : ScanReport) (n : X1Native) → latch (x1_native_scan_result r n) ≡ latch n
unfolding x1_native_scan_result
x1_native_scan_result-latch r n =
    if_cases (λ (m : X1Native). latch m ≡ latch n)
      (not (r.is_own && n.live && n.attempted && not n.stopped && (r.route == 2) && (r.port == 2))
        || is_terminal n)
      _ _ (λ _. refl) (λ _. refl)

pub scan_results-latch :
    (rs : List ScanReport) (n : X1Native)
    → latch n ≡ (true, false)
    → latch (scan_results rs n) ≡ (true, false)
unfolding scan_results
scan_results-latch [] n h = h
scan_results-latch (r ∷ rest) n h =
    scan_results-latch rest (x1_native_scan_result r n) (x1_native_scan_result-latch r n ∙ h)

-- The owner with the log.
abbrev pub Held : Type 0 → Type 0
Held S = Managed (Logged S)

-- The owner waits.
abbrev pub Waits : {S : Type 0} → (r : Bool) → Held S → Type 0
Waits r t = (latch t.0 ≡ (true, false)) × IsWaiting r t.1.1

abbrev pub WaitsSome : {S : Type 0} → Held S → Type 0
WaitsSome t = (r : Bool) × Waits r t

-- The owner has asked.
abbrev pub Asked : {S : Type 0} → (lacie_uid : ℕ) → Held S → Type 0
Asked lacie_uid t = (latch t.0 ≡ (true, false)) × IsAsked lacie_uid t.1.1

abbrev pub LoopEnds : {S : Type 0} → Option Status × Held S → Type 0
LoopEnds q = WaitsSome q.1
