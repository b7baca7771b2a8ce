-- ===== src/Topology/Tests.antt =====
-- The inventory of an external router whose adapters have one capability each, and of one whose
-- capability refers to itself.
use yoga_slim7x_usb.Base.{
  inr, arith, ℕ, ◌+◌, ◌*◌, ◌≡◌, refl, List, [], ◌∷◌, Option, some, ◌==◌, if◌then◌else◌, ok, err,
  eproto, each, ◌>>>◌,
}
use yoga_slim7x_usb.Packet.Read.{read_address}
use yoga_slim7x_usb.Topology.{
  TopologyIo, Finding, next_cap, has_detail, x1_topo_read, count, tell, cap_detail, cap_found,
  cap_round, caps_loop, x1_topo_caps, scan_ports, adapter_caps, router_words, header_admitted,
  x1_topology_router,
}
use yoga_slim7x_usb.Topology.Chain.{
  configured, IsChain, linked, ended, reported, x1_topo_caps_chain,
}
use yoga_slim7x_usb.Topology.Reads.{watched, no_findings, IsBounded, x1_topology_router-IsBounded}

-- Adapters that are lanes, whose capability at 16 is the last one or, with `next`, refers on.
abbrev lanes_router : (next : ℕ) → TopologyIo (List Finding)
lanes_router next = record {
  read = λ s route port space offset words. (
    ok,
    (
      (if offset == 0
          then 0 ∷ 16 ∷ 1 ∷ []
          else ((0x100 * (if port == 0 then 3 else 1) + next) ∷ 0 ∷ [])),
      s,
    ),
  );
  report = λ s f route port offset stored. f ∷ s;
}

abbrev external_header : List ℕ
external_header = 0x113b059f ∷ 0x00114120 ∷ 2 ∷ 0x80000000 ∷ 0x200010ff ∷ []

abbrev twice : List (ℕ × Option (List ℕ))
twice = (2, some external_header) ∷ (2, some external_header) ∷ []

inventory_ok :
    let (ret, (t, s)) =
      x1_topology_router (some (lanes_router 0)) 2 (some external_header) (no_findings, []) in
    (ret ≡ ok) × (t.adapters ≡ 5) × (t.lanes ≡ 5) × (t.caps ≡ 6) × (t.reads ≡ 17)
unfolding x1_topology_router header_admitted scan_ports adapter_caps router_words x1_topo_caps
    caps_loop cap_round cap_found cap_detail x1_topo_read read_address count tell next_cap
    has_detail each ◌>>>◌
inventory_ok = (refl, refl, refl, refl, refl)

inventory_loop :
    (x1_topology_router (some (lanes_router 16)) 2 (some external_header) (no_findings, [])).0
    ≡ err eproto
unfolding x1_topology_router header_admitted scan_ports adapter_caps router_words x1_topo_caps
    caps_loop cap_round cap_found cap_detail x1_topo_read read_address count tell next_cap
    has_detail each ◌>>>◌
inventory_loop = refl

x1_topology_router-IsBounded_example :
    IsBounded
      (each
        (λ (r : ℕ × Option (List ℕ)). x1_topology_router (some (watched (lanes_router 0))) r.0 r.1)
        twice
        (no_findings, ([], []))).1
x1_topology_router-IsBounded_example = x1_topology_router-IsBounded (lanes_router 0) [] twice

-- A lane at 16, and a protocol adapter's capability at 32.
abbrev two_caps : ℕ → ℕ
two_caps offset = if offset == 16 then 0x120 else (if offset == 32 then 0x400 else 0)

two_caps_chain : IsChain two_caps [] 16 (16 ∷ 32 ∷ [])
two_caps_chain =
    linked 16 (32 ∷ []) (omega arith) (omega arith) refl
      (linked 32 [] (omega arith) (omega arith) refl ended)

x1_topo_caps_chain_example :
    let (ret, u) = x1_topo_caps (configured two_caps 2 1) 2 1 16 1 (no_findings, []) in
    (ret ≡ ok) × (u.0.caps ≡ 2) × (u.1 ≡ reported two_caps 2 1 1 (16 ∷ 32 ∷ []) [])
x1_topo_caps_chain_example =
    x1_topo_caps_chain two_caps 2 1 1 16 (16 ∷ 32 ∷ []) (no_findings, []) (inr refl) (omega arith)
      (omega arith) two_caps_chain (omega arith) (omega arith)
