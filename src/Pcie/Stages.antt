-- ===== src/Pcie/Stages.antt =====
-- The stages of the owner of the root port, and the steps between them.
use yoga_slim7x_usb.Base.{
  ℕ, ◌+◌, ◌≡◌, ◌≢◌, refl, sym, ap, subst, ◌⊎◌, inl, inr, List, Option, none, some, Bool, true,
  false, if◌then◌else◌, Bool-cases, Status, ok, err, positive, enodev, is_ok, arith, Step,
}
use yoga_slim7x_usb.Pcie.{X1Bridge, PciDevice, EndpointScan}
use yoga_slim7x_usb.Pcie.Probe.{PcieKernel}
use yoga_slim7x_usb.Pcie.Calls.{
  PcieState, owner_verdict, train_admitted, scan_admitted, scan_verdict, x1_pcie_start,
  x1_pcie_train, x1_pcie_scan,
}
use yoga_slim7x_usb.Pcie.Endpoint.{IsOnly, Marks}
use yoga_slim7x_usb.Pcie.Ready.{Late, late, IsFresh, IsPrepared, IsReady, IsFailed}

-- No owner; an owner whose bring-up has failed; one that is ready; one whose training has failed or
-- succeeded; and one whose scan has refused or admitted an endpoint.
pub data Stage : Type 0 where
  absent failed ready untrained trained refused admitted : Stage

-- What the owner has tried, and whether it has an error, at a stage.
abbrev pub IsAt : Stage → X1Bridge → List PciDevice → Type 0
IsAt absent b ds = ⊥
IsAt failed b ds = IsFailed b
IsAt ready b ds = IsReady b
IsAt untrained b ds =
    IsPrepared b × (late b ≡ (true, true, false, false, none, false)) × (is_ok b.error ≡ false)
IsAt trained b ds =
    IsPrepared b × (late b ≡ (true, true, true, false, none, false)) × (b.error ≡ ok)
IsAt refused b ds =
    IsPrepared b × (late b ≡ (true, true, true, true, b.endpoint, false)) × (is_ok b.error ≡ false)
IsAt admitted b ds =
    IsPrepared b
    × (late b ≡ (true, true, true, true, b.endpoint, true))
    × (b.error ≡ ok)
    × ((e : ℕ) × (b.endpoint ≡ some e) × IsOnly e ds)

abbrev pub OwnerAt : Stage → Option X1Bridge → List PciDevice → Type 0
OwnerAt st none ds = st ≡ absent
OwnerAt st (some b) ds = IsAt st b ds

-- The state between two calls: without a registration there is no owner and no device.
pub record StateAt {S : Type 0} (st : Stage) (m : PcieState S) : Type 0 where
  pub closed : m.window ≡ false
  pub unregistered : m.registered ≡ false → (st ≡ absent)
  pub stage : OwnerAt st m.owner m.devices

-- The calls.
pub data PcieCall : Type 0 where
  start_call : (router : Bool) → PcieCall
  train_call scan_call : PcieCall

unfoldable pub pcie_call : {S : Type 0} → PcieKernel S → PcieCall → Step (PcieState S)
pcie_call k (start_call router) = x1_pcie_start k router
pcie_call k train_call = x1_pcie_train k
pcie_call k scan_call = x1_pcie_scan k

-- What a call may answer and do to the stage. The registration of the driver may report an error after
-- its probe has made the owner ready, so that any answer goes with `start_ready`.
pub data Next : PcieCall → Stage → Status → Stage → Type 0 where
  call_refused : (c : PcieCall) (st : Stage) (ret : Status) → is_ok ret ≡ false → Next c st ret st
  start_failed :
      (r : Bool) (ret : Status) → is_ok ret ≡ false → Next (start_call r) absent ret failed
  start_ready : (r : Bool) (ret : Status) → Next (start_call r) absent ret ready
  train_failed : (ret : Status) → is_ok ret ≡ false → Next train_call ready ret untrained
  train_done : Next train_call ready ok trained
  scan_refused : Next scan_call trained (err enodev) refused
  scan_admitted_one : Next scan_call trained ok admitted

-- A call goes from a stage to one that it may reach.
pub record Steps {S : Type 0} (c : PcieCall) (st : Stage) (r : Status × PcieState S) : Type 0 where
  pub stage : Stage
  pub next : Next c st r.0 stage
  pub at : StateAt stage r.1

-- The only stage that admits a training, and the only one that admits a scan.
pub train_admitted-ready :
    (st : Stage) (b : X1Bridge) (ds : List PciDevice)
    → IsAt st b ds
    → train_admitted b ≡ true
    → (st ≡ ready) × IsReady b
unfolding train_admitted
train_admitted-ready absent b ds h e = absurd h
train_admitted-ready failed b ds h e = let f = h.fresh in ground arith
train_admitted-ready ready b ds h e = (refl, h)
train_admitted-ready untrained b ds h e = let f = h.1 in ground arith
train_admitted-ready trained b ds h e = let f = h.1 in ground arith
train_admitted-ready refused b ds h e = let f = h.1 in ground arith
train_admitted-ready admitted b ds h e = let f = h.1 in ground arith

abbrev pub IsTrained : X1Bridge → Type 0
IsTrained b = IsPrepared b × (late b ≡ (true, true, true, false, none, false)) × (b.error ≡ ok)

pub scan_admitted-trained :
    (st : Stage) (b : X1Bridge) (ds : List PciDevice)
    → IsAt st b ds
    → scan_admitted b ≡ true
    → (st ≡ trained) × IsTrained b
unfolding scan_admitted
scan_admitted-trained absent b ds h e = absurd h
scan_admitted-trained failed b ds h e = let f = h.fresh in ground arith
scan_admitted-trained ready b ds h e = let f = h.idle in ground arith
scan_admitted-trained untrained b ds h e = let f = h.1 in ground arith
scan_admitted-trained trained b ds h e = (refl, h)
scan_admitted-trained refused b ds h e = let f = h.1 in ground arith
scan_admitted-trained admitted b ds h e = let f = h.1 in ground arith

-- The owner after a probe from nothing.
pub record ProbeAt {S : Type 0} (m : PcieState S) : Type 0 where
  pub registered : m.registered ≡ true
  pub outcome : (m.owner ≡ none) ⊎ ((b : X1Bridge) × (m.owner ≡ some b) × (IsReady b ⊎ IsFailed b))

pub failed_verdict :
    (ret : Status) (o : Option X1Bridge) (b : X1Bridge)
    → o ≡ some b
    → IsFailed b
    → is_ok (if is_ok ret then owner_verdict o else ret) ≡ false
failed_verdict ret o b e f = rw e (split ret f.fresh f.broken)
  where
    split :
        (ret : Status)
        → IsFresh b
        → is_ok b.error ≡ false
        → is_ok (if is_ok ret then owner_verdict (some b) else ret) ≡ false
    split ok h k = ground arith
    split (err c) h k = refl
    split (positive n) h k = refl

pub absent-none : (o : Option X1Bridge) (ds : List PciDevice) → OwnerAt absent o ds → o ≡ none
absent-none none ds h = refl
absent-none (some b) ds h = absurd h

pub registered_lem :
    {S : Type 0} (st : Stage) (m : PcieState S) → StateAt st m → st ≢ absent → m.registered ≡ true
registered_lem st m h n = elim (Bool-cases m.registered) [
  | inl e ↦ e
  | inr e ↦ absurd (n (h.unregistered e))
]

-- An owner that has just scanned.
abbrev pub IsScanned : X1Bridge → Option ℕ → Type 0
IsScanned b e = IsPrepared b × (late b ≡ (true, true, true, true, e, false)) × (b.error ≡ ok)

pub downstream-IsScanned :
    (b : X1Bridge) → IsTrained b → IsScanned (record b { downstream = true }) none
downstream-IsScanned b h = (h.0, ap (λ (l : Late). (l.0, l.1, l.2, true, l.4, l.5)) h.1, h.2)

pub Marks-IsScanned : (b c : X1Bridge) → IsScanned b none → Marks b c → IsScanned c none
Marks-IsScanned b c h (inl p) = subst (λ (x : X1Bridge). IsScanned x none) (sym p) h
Marks-IsScanned b c h (inr p) =
    let (a, d, g, f, i) = h.0 in
    subst (λ (x : X1Bridge). IsScanned x none) (sym p) ((a, d, g, refl, i), h.1, h.2)

pub endpoint-IsScanned :
    (c o : X1Bridge) (e : Option ℕ)
    → IsScanned c none
    → o ≡ record c { endpoint = e }
    → IsScanned o o.endpoint
endpoint-IsScanned c o e h p =
    subst (λ (x : X1Bridge). IsScanned x x.endpoint) (sym p)
      (h.0, ap (λ (l : Late). (l.0, l.1, l.2, l.3, e, l.5)) h.1, h.2)

pub verdict-counts :
    (f : EndpointScan) → is_ok (scan_verdict f) ≡ true → (f.nvmes ≡ 0 + 1) × (f.others ≡ 0)
verdict-counts f h = ground arith

pub verdict-enodev :
    (f : EndpointScan) → is_ok (scan_verdict f) ≡ false → scan_verdict f ≡ err enodev
verdict-enodev f h = ground arith
