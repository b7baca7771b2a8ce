-- ===== src/Pcie/Admission.antt =====
-- What may pass the root port, whatever calls are made.
use yoga_slim7x_usb.Base.{
  ℕ, ◌≡◌, ◌≢◌, refl, ap, ◌⊎◌, inl, inr, List, [], ◌∷◌, ◌++◌, Option, none, some, true, ◌&&◌, subst,
  Status, ok, ◌>>>◌, arith,
}
use yoga_slim7x_usb.Bridge.{x1_pci0_train, x1_pci0_windows}
use yoga_slim7x_usb.Pcie.{X1Bridge, PciDevice, x1_native_nvme_allowed, ecam_admitted, is_endpoint}
use yoga_slim7x_usb.Pcie.Probe.{PcieKernel}
use yoga_slim7x_usb.Pcie.Calls.{PcieState, cold_state, on_owner, train_owner, x1_pcie_train}
use yoga_slim7x_usb.Pcie.Endpoint.{IsOnly}
use yoga_slim7x_usb.Pcie.Ready.{Late, IsPrepared}
use yoga_slim7x_usb.Pcie.Stages.{
  Stage, absent, failed, ready, untrained, trained, refused, admitted, OwnerAt, StateAt, PcieCall,
  train_call, pcie_call, Next, call_refused, start_failed, start_ready, train_failed, train_done,
  scan_refused, scan_admitted_one,
}
use yoga_slim7x_usb.Pcie.Order.{pcie_call-Steps}

-- The calls one after the other.
unfoldable pub pcie_calls : {S : Type 0} → PcieKernel S → List PcieCall → PcieState S → PcieState S
pcie_calls k [] m = m
pcie_calls k (c ∷ cs) m = pcie_calls k cs (pcie_call k c m).1

-- The stages that a training has led to.
abbrev IsTrainedStage : Stage → Type 0
IsTrainedStage absent = ⊥
IsTrainedStage failed = ⊥
IsTrainedStage ready = ⊥
IsTrainedStage untrained = ⊥
IsTrainedStage trained = Unit
IsTrainedStage refused = Unit
IsTrainedStage admitted = Unit

trained_stage_lem :
    (st : Stage) (o : Option X1Bridge) (ds : List PciDevice) (b : X1Bridge)
    → o ≡ some b
    → OwnerAt st o ds
    → b.trained ≡ true
    → IsTrainedStage st
trained_stage_lem st none ds b p h e = ground arith
trained_stage_lem absent (some a) ds b p h e = absurd h
trained_stage_lem failed (some a) ds b p h e = let f = h.fresh in ground arith
trained_stage_lem ready (some a) ds b p h e = let f = h.idle in ground arith
trained_stage_lem untrained (some a) ds b p h e = let f = h.1 in ground arith
trained_stage_lem trained (some a) ds b p h e = tt
trained_stage_lem refused (some a) ds b p h e = tt
trained_stage_lem admitted (some a) ds b p h e = tt

module _ {S : Type 0} (k : PcieKernel S) where
  -- The training and the windows, which `x1_pcie_train` asks the port for.
  abbrev pub training : S → Status × S
  training = x1_pci0_train k.io >>> x1_pci0_windows k.io

  train_call-ok : (m : PcieState S) → (pcie_call k train_call m).0 ≡ ok → (training m.rest).0 ≡ ok
  unfolding pcie_call x1_pcie_train
  train_call-ok m e = split m.owner e
    where
      split :
          (o : Option X1Bridge)
          → (on_owner k m (train_owner k m) o).0 ≡ ok
          → (training m.rest).0 ≡ ok
      split none e = ground arith
      split (some b) e = ground arith

  Next-IsTrained :
      (c : PcieCall) (st : Stage) (ret : Status) (end : Stage)
      → Next c st ret end
      → IsTrainedStage end
      → IsTrainedStage st ⊎ ((c ≡ train_call) × (ret ≡ ok))
  Next-IsTrained c st ret end (call_refused c0 st0 ret0 e) h = inl h
  Next-IsTrained c absent ret failed (start_failed r ret0 e) h = absurd h
  Next-IsTrained c absent ret ready (start_ready r ret0) h = absurd h
  Next-IsTrained c ready ret untrained (train_failed ret0 e) h = absurd h
  Next-IsTrained c ready ok trained train_done h = inr (refl, refl)
  Next-IsTrained c trained ret refused scan_refused h = inl tt
  Next-IsTrained c trained ok admitted scan_admitted_one h = inl tt

  -- One of the calls was a training in which the port answered as it must.
  abbrev pub WasTrained : List PcieCall → PcieState S → Type 0
  WasTrained cs m =
      (before : List PcieCall) × (after : List PcieCall) × (cs ≡ before ++ (train_call ∷ after))
      × ((training (pcie_calls k before m).rest).0 ≡ ok)

  -- The stage that calls lead to, and what has trained the port when it is trained.
  pcie_calls-StateAt :
      (cs : List PcieCall) (st : Stage) (m : PcieState S)
      → StateAt st m
      → (end : Stage) × StateAt end (pcie_calls k cs m)
        × (IsTrainedStage end → IsTrainedStage st ⊎ WasTrained cs m)
  unfolding pcie_calls
  pcie_calls-StateAt [] st m h = (st, h, λ e. inl e)
  pcie_calls-StateAt (c ∷ cs) st m h =
      let q = pcie_call-Steps k c st m h in
      let (end, at, history) = pcie_calls-StateAt cs q.stage (pcie_call k c m).1 q.at in
      (
        end,
        at,
        λ e. elim (history e) [
          | inl a ↦ elim (Next-IsTrained c st (pcie_call k c m).0 q.stage q.next a) [
            | inl b ↦ inl b
            | inr (p, r) ↦ inr (
              [],
              cs,
              ap (λ (x : PcieCall). x ∷ cs) p,
              train_call-ok m (subst (λ (x : PcieCall). (pcie_call k x m).0 ≡ ok) p r),
            )
          ]
          | inr (before, after, p, r) ↦
              inr (c ∷ before, after, ap (λ (x : List PcieCall). c ∷ x) p, r)
        ],
      )

  from_cold :
      (cs : List PcieCall) (s : S)
      → (end : Stage) × StateAt end (pcie_calls k cs (cold_state s))
        × (IsTrainedStage end → IsTrainedStage absent ⊎ WasTrained cs (cold_state s))
  from_cold cs s =
      pcie_calls-StateAt cs absent (cold_state s)
        (record { closed = refl; unregistered = λ _. refl; stage = refl })

  allowed-lem :
      (st : Stage) (o : Option X1Bridge) (ds : List PciDevice) (d : PciDevice)
      → OwnerAt st o ds
      → x1_native_nvme_allowed o d ≡ true
      → IsOnly d.identity ds
  unfolding x1_native_nvme_allowed
  allowed-lem st none ds d h e = ground arith
  allowed-lem absent (some b) ds d h e = absurd h
  allowed-lem failed (some b) ds d h e = let f = h.fresh in ground arith
  allowed-lem ready (some b) ds d h e = let f = h.idle in ground arith
  allowed-lem untrained (some b) ds d h e = let f = h.1 in ground arith
  allowed-lem trained (some b) ds d h e = let f = h.1 in ground arith
  allowed-lem refused (some b) ds d h e = let f = h.1 in ground arith
  allowed-lem admitted (some b) ds d h e =
      let (i, q, only) = h.3 in subst (λ (x : ℕ). IsOnly x ds) (same i q e) only
    where
      same :
          (i : ℕ)
          → b.endpoint ≡ some i
          → (b.endpoint_validated && is_endpoint b.endpoint d.identity) ≡ true
          → i ≡ d.identity
      same i q e =
          let f =
            subst (λ (o : Option ℕ). (b.endpoint_validated && is_endpoint o d.identity) ≡ true) q
              e in
          ground arith

  -- Whatever calls are made after power-on, and whatever the kernel and the port answer, a storage
  -- device is permitted only when it is the only device below the root port that is not a bridge,
  -- an NVMe device in domain 0 that had no driver when the devices were walked.
  pub pcie_calls-IsOnly :
      (cs : List PcieCall) (s : S) (d : PciDevice)
      → x1_native_nvme_allowed (pcie_calls k cs (cold_state s)).owner d ≡ true
      → IsOnly d.identity (pcie_calls k cs (cold_state s)).devices
  pcie_calls-IsOnly cs s d e =
      let (st, h, _) = from_cold cs s in
      let m = pcie_calls k cs (cold_state s) in allowed-lem st m.owner m.devices d h.stage e

  -- An owner through which the bus behind the root port is read.
  beyond_lem :
      (st : Stage) (o : Option X1Bridge) (ds : List PciDevice) (first bus devfn : ℕ)
      (offset : Option ℕ)
      → OwnerAt st o ds
      → bus ≢ first
      → ecam_admitted o first bus devfn offset ≡ true
      → (b : X1Bridge) × (o ≡ some b) × IsPrepared b × (b.ready ≡ true) × (b.trained ≡ true)
  unfolding ecam_admitted
  beyond_lem st none ds first bus devfn offset h n e = ground arith
  beyond_lem st (some b) ds first bus devfn none h n e = ground arith
  beyond_lem absent (some b) ds first bus devfn (some w) h n e = absurd h
  beyond_lem failed (some b) ds first bus devfn (some w) h n e = let f = h.fresh in ground arith
  beyond_lem ready (some b) ds first bus devfn (some w) h n e = let f = h.idle in ground arith
  beyond_lem untrained (some b) ds first bus devfn (some w) h n e = let f = h.1 in ground arith
  beyond_lem trained (some b) ds first bus devfn (some w) h n e = let f = h.1 in ground arith
  beyond_lem refused (some b) ds first bus devfn (some w) h n e =
      (b, refl, h.0, ap (λ (l : Late). l.0) h.1, ap (λ (l : Late). l.2) h.1)
  beyond_lem admitted (some b) ds first bus devfn (some w) h n e =
      (b, refl, h.0, ap (λ (l : Late). l.0) h.1, ap (λ (l : Late). l.2) h.1)

  -- Whatever calls are made after power-on, and whatever the kernel and the port answer, an access
  -- to a bus other than the first is let through only when the owner is ready, with its eight clocks
  -- and its power, a validated root port whose class is fixed, and one of the calls was a training
  -- in which both the training of the link and the windows of the port had returned 0.
  pub pcie_calls-beyond :
      (cs : List PcieCall) (s : S) (first bus devfn : ℕ) (offset : Option ℕ)
      → bus ≢ first
      → ecam_admitted (pcie_calls k cs (cold_state s)).owner first bus devfn offset ≡ true
      → ((b : X1Bridge) × ((pcie_calls k cs (cold_state s)).owner ≡ some b)
          × IsPrepared b
          × (b.ready ≡ true)
          × (b.trained ≡ true))
        × WasTrained cs (cold_state s)
  pcie_calls-beyond cs s first bus devfn offset n e =
      let (st, h, history) = from_cold cs s in
      let m = pcie_calls k cs (cold_state s) in
      let (b, p, r, y, t) = beyond_lem st m.owner m.devices first bus devfn offset h.stage n e in
      elim (history (trained_stage_lem st m.owner m.devices b p h.stage t)) [
        | inl a ↦ absurd a
        | inr w ↦ ((b, p, r, y, t), w)
      ]
