-- ===== src/Topology/Reads.antt =====
-- The reads of the inventory.
use yoga_slim7x_usb.Base.{
  ℕ, zero, suc, ◌+◌, ◌≡◌, ◌≤◌, refl, subst, return, eperm, ◌&&◌, List, [], ◌∷◌, All, length, Option,
  none, some, Bool, true, false, ◌||◌, not, ltb, leb, ◌==◌, if◌then◌else◌, if_cases, Status, ok,
  err, eproto, Result, done, fail, checked, checked-cases, arith, Step, each, each-Keeps, Invariant,
  ◌and_keeps◌,
}
use yoga_slim7x_usb.Packet.Read.{X1ReadSpec, read_refused, read_address}
use yoga_slim7x_usb.Topology.{
  X1Topology, spec_of, TopologyIo, Inventory, Finding, has_been, has_detail, admitted_read,
  x1_topo_read, count, tell, skip, cap_detail, cap_found, cap_round, caps_loop, x1_topo_caps,
  scan_ports, adapter_caps, router_words, x1_topology_router, last_port, in_order, header_admitted,
  cap_id,
}

-- Callbacks that keep the reads beside what they do, the last one first.
abbrev pub watched : {S : Type 0} → TopologyIo S → TopologyIo (S × List X1ReadSpec)
watched io = record {
  read = λ s route port space offset words.
      let (ret, (stored, t)) = io.read s.0 route port space offset words in
      (ret, (stored, (t, spec_of route port space offset words ∷ s.1)));
  report = λ s f route port offset stored. (io.report s.0 f route port offset stored, s.1);
}

-- The reads so far are counted, at most 128, and each is one that the packet layer admits.
pub record IsBounded {S : Type 0} (t : Inventory (S × List X1ReadSpec)) : Type 0 where
  pub counted : t.0.reads ≡ length t.1.1
  pub limited : t.0.reads ≤ 128
  pub admitted : All (λ (spec : X1ReadSpec). read_refused spec ≡ false) t.1.1

admitted-lem :
    (spec : X1ReadSpec) (a : ℕ) → read_address (some spec) ≡ done a → read_refused spec ≡ false
unfolding read_address
admitted-lem spec a e = ground arith

module _ {S : Type 0} (io : TopologyIo S) where
  abbrev Watched : Type 0
  Watched = Inventory (S × List X1ReadSpec)

  admitted_read-IsBounded :
      (route port space offset words : ℕ) (r : Result ℕ) (t : Watched)
      → read_address (some (spec_of route port space offset words)) ≡ r
      → IsBounded t
      → IsBounded (admitted_read (watched io) (spec_of route port space offset words) r t).1.1
  admitted_read-IsBounded route port space offset words (fail e) t q h = h
  admitted_read-IsBounded route port space offset words (done a) t q h =
      if_cases (λ (x : Status × (List ℕ × Watched)). IsBounded x.1.1) (leb 128 t.0.reads) _ _
        (λ e. h)
        (λ e.
          let c = h.counted in
          let b = h.limited in
          record {
            counted = ground arith;
            limited = ground arith;
            admitted = (admitted-lem (spec_of route port space offset words) a q, h.admitted);
          })

  -- A read, with a step on the words that it stores.
  read-Invariant :
      (route port space offset words : ℕ) (f : List ℕ → Step Watched)
      → ((stored : List ℕ) → Invariant IsBounded (f stored))
      → Invariant IsBounded (λ t.
        checked
          (x1_topo_read (watched io) route port space offset words t)
          (λ p. f p.0 p.1)
          (λ ret p. (ret, p.1)))
  unfolding x1_topo_read
  read-Invariant route port space offset words f k = record {
    kept = λ t h.
        let q = x1_topo_read (watched io) route port space offset words t in
        let b = admitted_read-IsBounded route port space offset words _ t refl h in
        checked-cases (λ (x : Status × Watched). IsBounded x.1) q _ _
          (λ p e.
            (k p.0).kept p.1 (subst (λ (x : Status × (List ℕ × Watched)). IsBounded x.1.1) e b))
          (λ ret p e n. subst (λ (x : Status × (List ℕ × Watched)). IsBounded x.1.1) e b);
  }

  -- Counters other than that of the reads.
  count-Invariant :
      (f : X1Topology → X1Topology)
      → ((t : X1Topology) → (f t).reads ≡ t.reads)
      → Invariant IsBounded (count (watched io) f)
  unfolding count
  count-Invariant f k = record {
    kept = λ t h.
        let c = h.counted in
        let b = h.limited in
        let e = k t.0 in
        record { counted = ground arith; limited = ground arith; admitted = h.admitted };
  }

  tell-Invariant :
      (f : Finding) (route port offset : ℕ) (stored : List ℕ)
      → Invariant IsBounded (tell (watched io) f route port offset stored)
  unfolding tell
  tell-Invariant f route port offset stored = record {
    kept = λ t h. record { counted = h.counted; limited = h.limited; admitted = h.admitted };
  }

  return-Invariant : (ret : Status) → Invariant IsBounded (return {S = Watched} ret)
  return-Invariant ret = record { kept = λ t h. h }

  if-Invariant :
      (b : Bool) (f g : Step Watched)
      → Invariant IsBounded f
      → Invariant IsBounded g
      → Invariant IsBounded (λ t. if b then f t else g t)
  if-Invariant true f g h k = h
  if-Invariant false f g h k = k

  skip-Invariant :
      (f : Finding) (route port c : ℕ) (stored : List ℕ)
      → Invariant IsBounded (skip (watched io) f route port c stored)
  skip-Invariant f route port c stored =
      count-Invariant _ (λ t. refl) and_keeps tell-Invariant f route port c stored

  cap_detail-Invariant :
      (route port c type w0 : ℕ)
      → Invariant IsBounded (cap_detail (watched io) route port c type w0)
  unfolding cap_detail
  cap_detail-Invariant route port c type w0 =
      if-Invariant (not (has_detail port type (cap_id w0))) _ _ (return-Invariant ok) (
        read-Invariant route port 1 (c + 1) 1 _
          (λ stored. tell-Invariant _ route port c _ and_keeps count-Invariant _ (λ t. refl)))

  cap_found-Invariant :
      (route port c type w0 w1 : ℕ) (again : ℕ → Step Watched) (n : Option ℕ)
      → ((next : ℕ) → Invariant IsBounded (again next))
      → Invariant IsBounded (cap_found (watched io) route port c type w0 w1 again n)
  unfolding cap_found
  cap_found-Invariant route port c type w0 w1 again none k = skip-Invariant _ route port c _
  cap_found-Invariant route port c type w0 w1 again (some next) k =
      count-Invariant _ (λ t. refl)
      and_keeps tell-Invariant _ route port c _
      and_keeps cap_detail-Invariant route port c type w0
      and_keeps k next

  caps_loop-Invariant :
      (route port type left : ℕ) (seen : List ℕ) (c : ℕ)
      → Invariant IsBounded (caps_loop (watched io) route port type left seen c)
  unfolding caps_loop cap_round
  caps_loop-Invariant route port type zero seen c = record { kept = λ t h. h }
  caps_loop-Invariant route port type (suc left) seen c =
      if-Invariant (c == 0) _ _ (return-Invariant ok) (
        if-Invariant (ltb 254 c) _ _ (skip-Invariant _ route port c _) (
          if-Invariant (ltb c (if port == 0 then 9 else 8) || has_been c seen) _ _
            (return-Invariant (err eproto))
            (read-Invariant route port _ c _ _ (λ stored.
              cap_found-Invariant route port c type _ _ _ _
                (caps_loop-Invariant route port type left (c ∷ seen))))))

  scan_ports-Invariant :
      (route left port : ℕ) (found : List (ℕ × ℕ × ℕ)) (rest : List (ℕ × ℕ × ℕ) → Step Watched)
      → ((found : List (ℕ × ℕ × ℕ)) → Invariant IsBounded (rest found))
      → Invariant IsBounded (scan_ports (watched io) route left port found rest)
  unfolding scan_ports
  scan_ports-Invariant route zero port found rest k = record { kept = λ t h. (k found).kept t h }
  scan_ports-Invariant route (suc left) port found rest k =
      read-Invariant route port 1 0 8 _ (λ stored.
        count-Invariant _ (λ t. refl)
        and_keeps tell-Invariant _ route port 0 stored
        and_keeps scan_ports-Invariant route left (port + 1) _ rest k)

  adapter_caps-Invariant :
      (route : ℕ) (a : ℕ × ℕ × ℕ) → Invariant IsBounded (adapter_caps (watched io) route a)
  unfolding adapter_caps x1_topo_caps
  adapter_caps-Invariant route (port, type, head) =
      if-Invariant (((route == 0) && (port == 1)) || (type == 0)) _ _ (return-Invariant ok)
        (caps_loop-Invariant route port type 16 [] head)

  router_words-Invariant :
      (route : ℕ) (header : List ℕ) → Invariant IsBounded (router_words (watched io) route header)
  unfolding router_words x1_topo_caps
  router_words-Invariant route header =
      read-Invariant route 0 2 5 4 _ (λ stored.
        tell-Invariant _ route 0 5 stored and_keeps caps_loop-Invariant route 0 0 16 [] _)

  x1_topology_router-Invariant :
      (route : ℕ) (header : Option (List ℕ))
      → Invariant IsBounded (x1_topology_router (some (watched io)) route header)
  unfolding x1_topology_router
  x1_topology_router-Invariant route none = record { kept = λ t h. h }
  x1_topology_router-Invariant route (some header) =
      if-Invariant (not (header_admitted route header)) _ _ (return-Invariant (err eperm)) (
        scan_ports-Invariant route (last_port route) 1 [] _ (λ found.
          (record {
            kept =
                each-Keeps IsBounded (adapter_caps (watched io) route) (in_order found [])
                  (λ a m. (adapter_caps-Invariant route a).kept);
          })
          and_keeps router_words-Invariant route header))

-- A zeroed `struct x1_topology`.
abbrev pub no_findings : X1Topology
no_findings = record {
  reads = 0;
  adapters = 0;
  caps = 0;
  lanes = 0;
  pcie_up = 0;
  pcie_down = 0;
  skipped = 0;
}

-- Whatever the routers answer, taking the inventory of any of them one after the other makes at
-- most 128 reads in all, counts each of them, and makes only reads that the packet layer admits.
pub x1_topology_router-IsBounded :
    {S : Type 0} (io : TopologyIo S) (s : S) (routers : List (ℕ × Option (List ℕ)))
    → IsBounded
        (each
          (λ r. x1_topology_router (some (watched io)) r.0 r.1)
          routers
          (no_findings, (s, []))).1
x1_topology_router-IsBounded io s routers =
    each-Keeps IsBounded (λ r. x1_topology_router (some (watched io)) r.0 r.1) routers
      (λ r m. (x1_topology_router-Invariant io r.0 r.1).kept) (no_findings, (s, []))
      (record { counted = refl; limited = omega arith; admitted = tt })
