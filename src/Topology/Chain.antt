-- ===== src/Topology/Chain.antt =====
-- The walk over the capabilities of an adapter, against the chain that its configuration holds.
use yoga_slim7x_usb.Base.{
  ℕ, zero, suc, ◌+◌, ◌*◌, ◌%◌, ◌^◌, ◌≤◌, ◌≡◌, refl, ◌∙◌, ◌⊎◌, inl, inr, List, [], ◌∷◌, length, true,
  false, ltb, ◌&&◌, ◌==◌, ◌/=◌, if◌then◌else◌, Bool-cases, ok, err, eio, arith, Step, ◌>>>◌,
}
use yoga_slim7x_usb.Packet.Read.{read_address}
use yoga_slim7x_usb.Topology.{
  X1Topology, TopologyIo, Inventory, Finding, cap, phy, protocol, has_been, next_cap, has_detail,
  cap_id, x1_topo_read, count, tell, cap_detail, cap_found, cap_round, caps_loop, x1_topo_caps,
  is_lane,
}

-- What is reported: a finding of an adapter of a router, at an offset, with words.
abbrev pub Report : Type 0
Report = Finding × ℕ × ℕ × ℕ × List ℕ

-- One adapter of a router, which answers the reads of a word of its configuration space, and keeps
-- what is reported. Every other read fails.
abbrev pub configured : (mem : ℕ → ℕ) → (own_route own_port : ℕ) → TopologyIo (List Report)
configured mem own_route own_port = record {
  read = λ s route port space offset words.
      if (route == own_route) && (port == own_port) && (space == 1) && (words == 1)
      then (ok, (mem offset ∷ mem (offset + 1) ∷ [], s))
      else (err eio, ([], s));
  report = λ s f route port offset stored. (f, route, port, offset, stored) ∷ s;
}

-- The chain of capabilities from an offset: within the window, without a repetition, to its end.
pub data IsChain (mem : ℕ → ℕ) : (seen : List ℕ) → (c : ℕ) → List ℕ → Type 0 where
  ended : {seen : List ℕ} → IsChain mem seen 0 []
  linked :
      {seen : List ℕ} (c : ℕ) (rest : List ℕ)
      → 8 ≤ c
      → c ≤ 254
      → has_been c seen ≡ false
      → IsChain mem (c ∷ seen) (mem c % 2 ^ 8) rest
      → IsChain mem seen c (c ∷ rest)

-- What is reported of a chain, the last one first.
unfoldable pub reported : (mem : ℕ → ℕ) (route port type : ℕ) → List ℕ → List Report → List Report
reported mem route port type [] s = s
reported mem route port type (c ∷ rest) s = reported mem route port type rest (
    if has_detail port type (cap_id (mem c))
    then (if cap_id (mem c) == 1 then phy else protocol, route, port, c, mem c ∷ mem (c + 1) ∷ [])
      ∷ (cap, route, port, c, mem c ∷ [])
      ∷ s
    else ((cap, route, port, c, mem c ∷ []) ∷ s))

module _ (mem : ℕ → ℕ) (route port type : ℕ) where
  read-lem :
      (c : ℕ) (t : X1Topology) (s : List Report)
      → (route ≡ 0) ⊎ (route ≡ 2)
      → 1 ≤ port
      → port ≤ (if route == 0 then 7 else 5)
      → c ≤ 255
      → t.reads + 1 ≤ 128
      → x1_topo_read (configured mem route port) route port 1 c 1 (t, s)
        ≡ (ok, (mem c ∷ mem (c + 1) ∷ [], (record t { reads = t.reads + 1 }, s)))
  unfolding x1_topo_read read_address
  read-lem c t s r p q b l = ground arith

  -- The state after a capability has been looked at.
  abbrev after_cap : (c : ℕ) → Inventory (List Report) → Inventory (List Report)
  after_cap c (t, s) =
      if has_detail port type (cap_id (mem c))
      then (
        record t {
          reads = t.reads + 1 + 1;
          caps = t.caps + 1;
          lanes = t.lanes + is_lane (cap_id (mem c));
        },
        (if cap_id (mem c) == 1 then phy else protocol, route, port, c, mem c ∷ mem (c + 1) ∷ [])
            ∷ (cap, route, port, c, mem c ∷ [])
            ∷ s,
      )
      else (
        record t { reads = t.reads + 1; caps = t.caps + 1 },
        (cap, route, port, c, mem c ∷ []) ∷ s,
      )

  detail-lem :
      (c : ℕ) (t : X1Topology) (s : List Report)
      → (route ≡ 0) ⊎ (route ≡ 2)
      → 1 ≤ port
      → port ≤ (if route == 0 then 7 else 5)
      → c ≤ 254
      → t.reads + 2 ≤ 128
      → cap_detail (configured mem route port) route port c type (mem c) (
        record t { reads = t.reads + 1; caps = t.caps + 1 },
        (cap, route, port, c, mem c ∷ []) ∷ s,
      )
        ≡ (ok, after_cap c (t, s))
  unfolding cap_detail count tell ◌>>>◌
  detail-lem c t s r p q b l =
      let u : X1Topology = record t { reads = t.reads + 1; caps = t.caps + 1 } in
      let second =
        read-lem (c + 1) u ((cap, route, port, c, mem c ∷ []) ∷ s) r p q (omega arith)
          (omega arith) in
      elim (Bool-cases (has_detail port type (cap_id (mem c)))) [
        | inl e ↦ rw (e, second) refl
        | inr e ↦ rw e refl
      ]

  round-lem :
      (c : ℕ) (t : X1Topology) (s : List Report) (seen : List ℕ)
      (again : List ℕ → ℕ → Step (Inventory (List Report)))
      → (route ≡ 0) ⊎ (route ≡ 2)
      → 1 ≤ port
      → port ≤ (if route == 0 then 7 else 5)
      → 8 ≤ c
      → c ≤ 254
      → has_been c seen ≡ false
      → t.reads + 2 ≤ 128
      → cap_round (configured mem route port) route port c type seen again (t, s)
        ≡ again (c ∷ seen) (mem c % 2 ^ 8) (after_cap c (t, s))
  unfolding cap_round cap_found next_cap count tell ◌>>>◌
  round-lem c t s seen again r p q b d n l =
      let first = read-lem c t s r p q (omega arith) (omega arith) in
      let detail = detail-lem c t s r p q d l in
      let inside : ltb 254 c ≡ false = ground arith in
      let adapter : (port == 0) ≡ false = ground arith in
      let other : (port /= 0) ≡ true = ground arith in
      let low : ltb c 8 ≡ false = ground arith in
      rw (inside, adapter, low, n, first, other, adapter, detail) refl

  after_cap_lem :
      (c : ℕ) (t : Inventory (List Report))
      → ((after_cap c t).0.reads ≤ t.0.reads + 2) × ((after_cap c t).0.caps ≡ t.0.caps + 1)
  after_cap_lem c t = ground arith

  reported-after_cap :
      (c : ℕ) (rest : List ℕ) (t : Inventory (List Report))
      → reported mem route port type rest (after_cap c t).1
        ≡ reported mem route port type (c ∷ rest) t.1
  unfolding reported
  reported-after_cap c rest t = elim (Bool-cases (has_detail port type (cap_id (mem c)))) [
    | inl e ↦ rw e refl
    | inr e ↦ rw e refl
  ]

  -- The rest of a walk.
  caps_loop_chain :
      (seen : List ℕ) (c : ℕ) (cs : List ℕ) (left : ℕ) (t : Inventory (List Report))
      → (route ≡ 0) ⊎ (route ≡ 2)
      → 1 ≤ port
      → port ≤ (if route == 0 then 7 else 5)
      → IsChain mem seen c cs
      → length cs ≤ left
      → t.0.reads + 2 * length cs ≤ 128
      → let (ret, u) = caps_loop (configured mem route port) route port type left seen c t in
        (ret ≡ ok) × (u.0.caps ≡ t.0.caps + length cs) × (u.1 ≡ reported mem route port type cs t.1)
  unfolding caps_loop reported
  caps_loop_chain seen c cs zero t r p q ended b l = (refl, omega arith, refl)
  caps_loop_chain seen c cs (suc left) t r p q ended b l = (refl, omega arith, refl)
  caps_loop_chain seen c cs zero t r p q (linked c' rest lo hi n chain) b l =
      absurd (omega (arith, b))
  caps_loop_chain seen c cs (suc left) t r p q (linked c' rest lo hi n chain) b l =
      let nonzero : (c == 0) ≡ false = ground arith in
      let round =
        round-lem c t.0 t.1 seen (caps_loop (configured mem route port) route port type left) r p q
          lo hi n (omega (arith, l)) in
      let (few, counted) = after_cap_lem c t in
      let (a, k, s) =
        caps_loop_chain (c ∷ seen) (mem c % 2 ^ 8) rest left (after_cap c t) r p q chain
          (omega (arith, b)) (omega (arith, l, few)) in
      rw (nonzero, round) (a, omega (arith, k, counted), s ∙ reported-after_cap c rest t)

-- On an adapter of the host router (ports 1 to 7) or of the external router (ports 1 to 5) whose
-- configuration holds a chain of at most 16 capabilities, with reads enough left, the walk succeeds,
-- counts every capability of the chain and reports each of them once, in order, as one of this
-- adapter, with its first word, and those that have a second word once more with both.
pub x1_topo_caps_chain :
    (mem : ℕ → ℕ) (route port type c : ℕ) (cs : List ℕ) (t : Inventory (List Report))
    → (route ≡ 0) ⊎ (route ≡ 2)
    → 1 ≤ port
    → port ≤ (if route == 0 then 7 else 5)
    → IsChain mem [] c cs
    → length cs ≤ 16
    → t.0.reads + 2 * length cs ≤ 128
    → let (ret, u) = x1_topo_caps (configured mem route port) route port c type t in
      (ret ≡ ok) × (u.0.caps ≡ t.0.caps + length cs) × (u.1 ≡ reported mem route port type cs t.1)
unfolding x1_topo_caps
x1_topo_caps_chain mem route port type c cs t r p q chain b l =
    caps_loop_chain mem route port type [] c cs 16 t r p q chain b l
