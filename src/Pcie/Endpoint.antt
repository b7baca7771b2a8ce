-- ===== src/Pcie/Endpoint.antt =====
-- What the scan of the devices and the fixups change, and the one endpoint.
use yoga_slim7x_usb.Base.{
  ℕ, ◌+◌, ◌/◌, ◌^◌, ◌≤◌, ◌≡◌, refl, sym, ap, ◌∙◌, ◌⊎◌, inl, inr, subst, List, [], ◌∷◌, All, Option,
  none, some, Bool, true, false, ◌&&◌, ◌||◌, not, ◌==◌, ◌/=◌, if_cases, arith,
}
use yoga_slim7x_usb.Pcie.{
  X1Bridge, PciDevice, EndpointScan, class_bridge, class_bridge_normal, class_nvme, fixup_admitted,
  fixed_class, x1_root_fixup_class, fixup_all, first_endpoint, find_endpoint, find_endpoints,
}

abbrev pub is_bridge : PciDevice → Bool
is_bridge d = d.class / 2 ^ 8 == class_bridge

abbrev pub is_free_nvme : PciDevice → Bool
is_free_nvme d = (d.class == class_nvme) && not d.driver && (d.domain == 0)

-- One device is an NVMe device without a driver, in domain 0, and all the others are bridges.
pub data IsOnly (e : ℕ) : List PciDevice → Type 0 where
  found :
      (d : PciDevice) (rest : List PciDevice)
      → is_bridge d ≡ false
      → is_free_nvme d ≡ true
      → d.identity ≡ e
      → All (λ (b : PciDevice). is_bridge b ≡ true) rest
      → IsOnly e (d ∷ rest)
  after :
      (d : PciDevice) (rest : List PciDevice)
      → is_bridge d ≡ true
      → IsOnly e rest
      → IsOnly e (d ∷ rest)

-- One device.
data FindResult (d : PciDevice) (s : EndpointScan) : EndpointScan → Type 0 where
  bridge_result : is_bridge d ≡ true → FindResult d s s
  nvme_result :
      is_bridge d ≡ false
      → is_free_nvme d ≡ true
      → FindResult d s (record s {
        nvmes = s.nvmes + 1;
        owner = record s.owner { endpoint = first_endpoint s.owner.endpoint d.identity };
      })
  other_result : FindResult d s (record s { others = s.others + 1 })

find_endpoint-FindResult : (d : PciDevice) (s : EndpointScan) → FindResult d s (find_endpoint d s)
unfolding find_endpoint
find_endpoint-FindResult d s = if_cases (FindResult d s) (is_bridge d) _ _ bridge_result (λ b.
    if_cases (FindResult d s) ((d.class /= class_nvme) || d.driver || (d.domain /= 0)) _ _
      (λ _. other_result) (λ n. nvme_result b (ground arith)))

-- The scan changes the owner in its endpoint only.
pub find_endpoints-owner :
    (ds : List PciDevice) (s : EndpointScan)
    → (e : Option ℕ) × ((find_endpoints ds s).owner ≡ record s.owner { endpoint = e })
unfolding find_endpoints
find_endpoints-owner [] s = (s.owner.endpoint, refl)
find_endpoints-owner (d ∷ rest) s =
    let (e, h) = find_endpoints-owner rest (find_endpoint d s) in
    (e, h ∙ same e (find_endpoint d s) (find_endpoint-FindResult d s))
  where
    same :
        (e : Option ℕ) (t : EndpointScan)
        → FindResult d s t
        → ◌≡◌ {A = X1Bridge} (record t.owner { endpoint = e }) (record s.owner { endpoint = e })
    same e t (bridge_result b) = refl
    same e t (nvme_result b n) = refl
    same e t other_result = refl

-- The counts only grow.
find_endpoints-le :
    (ds : List PciDevice) (s : EndpointScan)
    → (s.nvmes ≤ (find_endpoints ds s).nvmes) × (s.others ≤ (find_endpoints ds s).others)
unfolding find_endpoints
find_endpoints-le [] s = ground arith
find_endpoints-le (d ∷ rest) s =
    let h = find_endpoints-le rest (find_endpoint d s) in
    grow _ (find_endpoint-FindResult d s) _ h.0 _ h.1
  where
    grow :
        (t : EndpointScan)
        → FindResult d s t
        → (n : ℕ) → t.nvmes ≤ n
        → (m : ℕ) → t.others ≤ m
        → (s.nvmes ≤ n) × (s.others ≤ m)
    grow t (bridge_result b) n h m k = (h, k)
    grow t (nvme_result b f) n h m k = ground arith
    grow t other_result n h m k = ground arith

-- Without a new count, all the devices are bridges and the owner is the same.
find_endpoints-same :
    (ds : List PciDevice) (s : EndpointScan)
    → (find_endpoints ds s).nvmes ≡ s.nvmes
    → (find_endpoints ds s).others ≡ s.others
    → All (λ (b : PciDevice). is_bridge b ≡ true) ds × ((find_endpoints ds s).owner ≡ s.owner)
unfolding find_endpoints
find_endpoints-same [] s p q = (tt, refl)
find_endpoints-same (d ∷ rest) s p q =
    first (find_endpoints-same rest s) _ (find_endpoint-FindResult d s) p q
  where
    first :
        ((find_endpoints rest s).nvmes ≡ s.nvmes
          → (find_endpoints rest s).others ≡ s.others
          → All (λ (b : PciDevice). is_bridge b ≡ true) rest
            × ((find_endpoints rest s).owner ≡ s.owner))
        → (t : EndpointScan) → FindResult d s t
        → (find_endpoints rest t).nvmes ≡ s.nvmes
        → (find_endpoints rest t).others ≡ s.others
        → All (λ (b : PciDevice). is_bridge b ≡ true) (d ∷ rest)
          × ((find_endpoints rest t).owner ≡ s.owner)
    first again t (bridge_result b) p q = let (h, k) = again p q in ((b, h), k)
    first again t (nvme_result b n) p q = let h = find_endpoints-le rest t in ground arith
    first again t other_result p q = let h = find_endpoints-le rest t in ground arith

-- One NVMe device and no other makes it the endpoint.
pub find_endpoints-IsOnly :
    (ds : List PciDevice) (s : EndpointScan)
    → s.owner.endpoint ≡ none
    → (find_endpoints ds s).nvmes ≡ s.nvmes + 1
    → (find_endpoints ds s).others ≡ s.others
    → (e : ℕ) × ((find_endpoints ds s).owner.endpoint ≡ some e) × IsOnly e ds
unfolding find_endpoints
find_endpoints-IsOnly [] s v p q = ground arith
find_endpoints-IsOnly (d ∷ rest) s v p q =
    first (find_endpoints-IsOnly rest s v) _ (find_endpoint-FindResult d s) p q
  where
    first :
        ((find_endpoints rest s).nvmes ≡ s.nvmes + 1
          → (find_endpoints rest s).others ≡ s.others
          → (e : ℕ) × ((find_endpoints rest s).owner.endpoint ≡ some e) × IsOnly e rest)
        → (t : EndpointScan) → FindResult d s t
        → (find_endpoints rest t).nvmes ≡ s.nvmes + 1
        → (find_endpoints rest t).others ≡ s.others
        → (e : ℕ) × ((find_endpoints rest t).owner.endpoint ≡ some e) × IsOnly e (d ∷ rest)
    first again t (bridge_result b) p q = let (e, h, k) = again p q in (e, h, after d rest b k)
    first again t (nvme_result b n) p q =
        let (h, k) = find_endpoints-same rest t p q in
        (
          d.identity,
          ap (λ (o : X1Bridge). o.endpoint) k
              ∙ ap (λ (o : Option ℕ). first_endpoint o d.identity) v,
          found d rest b n refl h,
        )
    first again t other_result p q = let h = find_endpoints-le rest t in ground arith

-- The class that the root port may have.
abbrev pub IsClassed : X1Bridge → Type 0
IsClassed b = ((b.root_class / 2 ^ 8 == class_bridge_normal) || (b.root_class == 0xff000001)) ≡ true

-- The mark of the fixup is set, or nothing is changed.
abbrev pub marked : X1Bridge → X1Bridge
marked b = record b { root_fixup_done = true }

abbrev pub Marks : X1Bridge → X1Bridge → Type 0
Marks b c = (c ≡ b) ⊎ (c ≡ marked b)

fixed_class-lem :
    (d : PciDevice) (b : X1Bridge)
    → IsClassed b
    → not (fixup_admitted b d) ≡ false
    → (fixed_class b d == class_bridge_normal) ≡ true
unfolding fixup_admitted
fixed_class-lem d b h e = ground arith

x1_root_fixup_class-Marks :
    (d : PciDevice) (b : X1Bridge) → IsClassed b → Marks b (x1_root_fixup_class d b).1
unfolding x1_root_fixup_class
x1_root_fixup_class-Marks d b h =
    if_cases (λ (r : PciDevice × X1Bridge). Marks b r.1) (not (fixup_admitted b d)) _ _
      (λ _. inl refl)
      (λ e. inr (ap (λ (x : Bool). record b { root_fixup_done = x }) (fixed_class-lem d b h e)))

Marks-trans : (b c e : X1Bridge) → Marks b c → Marks c e → Marks b e
Marks-trans b c e h (inl q) = rw q h
Marks-trans b c e (inl p) (inr q) = inr (q ∙ ap marked p)
Marks-trans b c e (inr p) (inr q) = inr (q ∙ ap marked p)

Marks-IsClassed : (b c : X1Bridge) → IsClassed b → Marks b c → IsClassed c
Marks-IsClassed b c h (inl p) = subst IsClassed (sym p) h
Marks-IsClassed b c h (inr p) = subst IsClassed (sym p) h

pub fixup_all-Marks :
    (ds : List PciDevice) (b : X1Bridge) → IsClassed b → Marks b (fixup_all ds b).1
unfolding fixup_all
fixup_all-Marks [] b h = inl refl
fixup_all-Marks (d ∷ rest) b h =
    let m = x1_root_fixup_class-Marks d b h in
    let c = (x1_root_fixup_class d b).1 in
    Marks-trans b c _ m (fixup_all-Marks rest c (Marks-IsClassed b c h m))
