-- ===== src/Manager.antt =====
-- snapshot/kernel/drivers/thunderbolt/qcom-x1-native.c: the one owner of the connection manager. What
-- the Thunderbolt core, the kernel and the callbacks of the caller do is a parameter.
pub mod Start
pub mod Connect
pub mod Storage
pub mod Log
pub mod Wait
pub mod Ask
pub mod Fresh
pub mod Once
pub mod Deadline
pub mod Joined
pub mod Admission
mod Tests
use yoga_slim7x_usb.Base.{
  ℕ, ◌+◌, ◌*◌, ◌^◌, List, [], ◌∷◌, get_or, Option, none, some, Bool, true, false, ◌&&◌, ◌||◌, not,
  ◌==◌, ◌/=◌, if◌then◌else◌, Status, ok, err, eperm, is_ok, is_null, checked,
}
use yoga_slim7x_usb.Native.{x1_native_header_allowed, x1_native_uid_allowed}
use yoga_slim7x_usb.Base.{Step}

-- `struct x1_native`, without the pointers that are never tested; of `tb` and `connect` it keeps
-- whether they are set.
pub record X1Native : Type 0 where
  pub tb : Bool
  pub connect : Bool
  pub live : Bool
  pub attempted : Bool
  pub stopped : Bool
  pub allow_pcie : Bool
  pub scan_results : ℕ
  pub scan_error : Status
  pub scan_preconfig : Bool

-- A zeroed `struct x1_native`.
abbrev pub new_native : X1Native
new_native = record {
  tb = false;
  connect = false;
  live = false;
  attempted = false;
  stopped = false;
  allow_pcie = false;
  scan_results = 0;
  scan_error = ok;
  scan_preconfig = false;
}

-- What the Thunderbolt core knows of a router.
pub record Switch : Type 0 where
  pub uid : ℕ
  pub is_unplugged : Bool
  pub link_usb4 : Bool
  pub authorized : Bool
  pub has_pcie_up : Bool

-- A call of `x1_native_scan_result` by the Thunderbolt core.
pub record ScanReport : Type 0 where
  pub is_own : Bool
  pub route : ℕ
  pub port : ℕ
  pub error : Status
  pub preconfig : Bool

-- The core, the kernel and the callbacks, on a machine of any type. `valid` is the check of the live
-- PAN; a step during which the core may report scans has the reports; `approve` has the answer of
-- `x1_native_pcie_authorizing` at that moment; `before` is whether so many milliseconds from now
-- are still before the deadline that `set_deadline` has set.
pub record ManagerKernel (S : Type 0) : Type 0 where
  pub lacie_uid : ℕ
  pub is_test : S → Bool
  pub read_uid : S → (route : ℕ) → Status × (List ℕ × S)
  pub alloc_owner : S → Bool × S
  pub read_caps : S → ℕ × S
  pub ring_enabled : S → ℕ → Bool × S
  pub alloc_rings : S → Bool × S
  pub prepare : S → Status × S
  pub prepared : S → Bool
  pub init_interrupts : S → Status × S
  pub disable_interrupts : S → S
  pub tb_probe : S → Bool × S
  pub domain_add : S → Status × S
  pub schedule_watchdog : S → S
  pub ctl_stop : S → S
  pub valid : S → Bool × S
  pub connect : S → (word : ℕ) → Status × (List ScanReport × S)
  pub set_deadline : S → S
  pub before : S → (ms : ℕ) → Bool
  pub try_lock : S → Bool × S
  pub find_switch : S → Option Switch × S
  pub rescan : S → Status × (List ScanReport × S)
  pub sleep : S → List ScanReport × S
  pub approve : S → Switch → (authorizing : Bool) → Status × S
  pub set_authorized : S → S

-- The calls of the PCIe bridge.
pub record PcieCalls (S : Type 0) : Type 0 where
  pub start : (router : Bool) → Step S
  pub train : Step S
  pub scan : Step S

-- An owner with the machine, and the static with the machine.
abbrev pub Managed : Type 0 → Type 0
Managed S = X1Native × S

abbrev pub ManagerState : Type 0 → Type 0
ManagerState S = Option X1Native × S

-- `x1_native_pcie_authorizing`; `same` is whether the domain is that of the owner.
unfoldable pub x1_native_pcie_authorizing : Option X1Native → (same : Bool) → Bool
x1_native_pcie_authorizing none same = false
x1_native_pcie_authorizing (some n) same = same && n.live && not n.stopped && n.allow_pcie

-- The native order of the two words of an identity.
abbrev pub native_uid : List ℕ → ℕ
native_uid words = get_or words 1 0 * 2 ^ 32 + get_or words 0 0

-- `x1_native_guard_router`.
unfoldable pub x1_native_guard_router :
    {S : Type 0} → ManagerKernel S → (route : ℕ) → (header : Option (List ℕ)) → S → Status × S
x1_native_guard_router k route header s =
    if not (k.is_test s)
    then (ok, s)
    else (if not (is_ok (x1_native_header_allowed route header))
        then (x1_native_header_allowed route header, s)
        else (if route == 0
            then (ok, s)
            else checked (k.read_uid s route)
                (λ p. (x1_native_uid_allowed k.lacie_uid route (native_uid p.0), p.1))
                (λ ret p. (ret, p.1))))

-- A refusal that a later report does not erase.
unfoldable pub is_terminal : X1Native → Bool
is_terminal n = (n.scan_results /= 0) && not (is_ok n.scan_error) && not n.scan_preconfig

-- `x1_native_scan_result` on the owner, of a domain that is the native one.
unfoldable pub x1_native_scan_result : ScanReport → X1Native → X1Native
x1_native_scan_result r n =
    if not (r.is_own && n.live && n.attempted && not n.stopped && (r.route == 2) && (r.port == 2))
      || is_terminal n
    then n
    else record n {
      scan_results = n.scan_results + 1;
      scan_error = r.error;
      scan_preconfig = r.preconfig;
    }

unfoldable pub scan_results : List ScanReport → X1Native → X1Native
scan_results [] n = n
scan_results (r ∷ rest) n = scan_results rest (x1_native_scan_result r n)

-- `x1_native_register_connect`; `connect` and `ctx` are whether the pointers are not null.
unfoldable pub x1_native_register_connect :
    (connect ctx : Bool) → Option X1Native → Status × Option X1Native
x1_native_register_connect connect ctx none = (err eperm, none)
x1_native_register_connect connect ctx (some n) =
    if not n.live || n.stopped || n.connect || not connect || not ctx
    then (err eperm, some n)
    else (ok, some (record n { connect = true }))

-- `x1_native_stop`, which the watchdog also calls.
abbrev pub channel_stopped : {S : Type 0} → ManagerKernel S → X1Native → S → S
channel_stopped k n s = if n.tb then k.ctl_stop s else s

abbrev pub interrupts_disabled : {S : Type 0} → ManagerKernel S → S → S
interrupts_disabled k s = if k.prepared s then k.disable_interrupts s else s

unfoldable pub x1_native_stop :
    {S : Type 0} → ManagerKernel S → Option X1Native → S → Option X1Native × S
x1_native_stop k none s = (none, s)
x1_native_stop k (some n) s = if n.stopped then (some n, s) else (
  some (record n { stopped = true; live = false }),
  interrupts_disabled k (channel_stopped k n s),
)
