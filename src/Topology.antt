-- ===== src/Topology.antt =====
-- snapshot/kernel/drivers/thunderbolt/x1-topology.h: the read-only inventory of a router, over the
-- callbacks that read its configuration and that report what was found.
pub mod Reads
pub mod Chain
mod Tests
use yoga_slim7x_usb.Base.{
  ℕ, zero, suc, ◌+◌, ◌/◌, ◌%◌, ◌^◌, List, [], ◌∷◌, get_or, Option, none, some, Bool, true, false,
  ◌&&◌, ◌||◌, not, ltb, leb, ◌==◌, ◌/=◌, if◌then◌else◌, Status, ok, err, einval, eperm, eproto,
  enospc, eloop, Result, done, fail, checked, Step, ◌>>>◌, act, each,
}
use yoga_slim7x_usb.Packet.Read.{X1ReadSpec, read_address}

-- `struct x1_topology` without its callbacks.
pub record X1Topology : Type 0 where
  pub reads : ℕ
  pub adapters : ℕ
  pub caps : ℕ
  pub lanes : ℕ
  pub pcie_up : ℕ
  pub pcie_down : ℕ
  pub skipped : ℕ

-- The names under which findings are reported.
pub data Finding : Type 0 where
  cap_outside_window unknown_router_cap cap phy protocol adapter router : Finding

-- The callbacks. A read has the words that it stores, which are used only after a result of 0.
pub record TopologyIo (S : Type 0) : Type 0 where
  pub read : S → (route port space offset words : ℕ) → Status × (List ℕ × S)
  pub report : S → Finding → (route port offset : ℕ) → (stored : List ℕ) → S

-- `X1_TOPO_READ_LIMIT` and `X1_TOPO_CAP_LIMIT`.
abbrev pub topo_read_limit : ℕ
topo_read_limit = 128

abbrev pub topo_cap_limit : ℕ
topo_cap_limit = 16

-- The counters beside the context.
abbrev pub Inventory : Type 0 → Type 0
Inventory S = X1Topology × S

abbrev pub has_been : (cap : ℕ) → (seen : List ℕ) → Bool
has_been c [] = false
has_been c (s ∷ seen) = (c == s) || has_been c seen

-- The fields of a capability header.
abbrev pub cap_id : ℕ → ℕ
cap_id w = w / 2 ^ 8 % 2 ^ 8

-- The next capability; `none` where the header of a router is not known.
unfoldable pub next_cap : (port w0 w1 : ℕ) → Option ℕ
next_cap port w0 w1 =
    if port /= 0
    then some (w0 % 2 ^ 8)
    else (if (cap_id w0 == 5) && (w0 / 2 ^ 24 == 0)
        then some (w1 % 2 ^ 16)
        else (if (cap_id w0 /= 3) && (cap_id w0 /= 5) then none else some (w0 % 2 ^ 8)))

-- The capabilities of which a second word is read.
unfoldable pub has_detail : (port type id : ℕ) → Bool
has_detail port type id =
    (port /= 0)
    && (((id == 1) && (type == 1))
        || ((id == 4)
            && ((type == 0x100101)
                || (type == 0x100102)
                || (type == 0x200101)
                || (type == 0x200102))))

abbrev pub is_lane : ℕ → ℕ
is_lane id = if id == 1 then 1 else 0

abbrev pub spec_of : (route port space offset words : ℕ) → X1ReadSpec
spec_of r p s o w = record { route = r; port = p; space = s; offset = o; words = w; seq = 0 }

module _ {S : Type 0} (io : TopologyIo S) where
  -- `x1_topo_read`.
  abbrev pub admitted_read :
      (spec : X1ReadSpec) → Result ℕ → Inventory S → Status × (List ℕ × Inventory S)
  admitted_read spec (fail e) t = (err e, ([], t))
  admitted_read spec (done address) (t, s) =
      if leb topo_read_limit t.reads
      then (err enospc, ([], (t, s)))
      else (let (ret, (stored, u)) =
            io.read s spec.route spec.port spec.space spec.offset spec.words in
          (ret, (stored, (record t { reads = t.reads + 1 }, u))))

  unfoldable pub x1_topo_read :
      (route port space offset words : ℕ) → Inventory S → Status × (List ℕ × Inventory S)
  x1_topo_read route port space offset words =
      let spec = spec_of route port space offset words in
      admitted_read spec (read_address (some spec))

  unfoldable pub count : (X1Topology → X1Topology) → Step (Inventory S)
  count f = act (λ p. (f p.0, p.1))

  unfoldable pub tell : Finding → (route port offset : ℕ) → List ℕ → Step (Inventory S)
  tell f route port offset stored = act (λ p. (p.0, io.report p.1 f route port offset stored))

  -- `t->skipped++` with the report, and `return 0`.
  abbrev pub skip : Finding → (route port cap : ℕ) → List ℕ → Step (Inventory S)
  skip f route port c stored =
      count (λ t. record t { skipped = t.skipped + 1 }) >>> tell f route port c stored

  -- The second word of a capability.
  unfoldable pub cap_detail : (route port cap type w0 : ℕ) → Step (Inventory S)
  cap_detail route port c type w0 t =
      if not (has_detail port type (cap_id w0))
      then (ok, t)
      else checked (x1_topo_read route port 1 (c + 1) 1 t)
          (λ p.
            (tell (if cap_id w0 == 1 then phy else protocol) route port c (w0 ∷ get_or p.0 0 0 ∷ [])
                >>> count (λ u. record u { lanes = u.lanes + is_lane (cap_id w0) }))
              p.1)
          (λ ret p. (ret, p.1))

  -- A round of the walk on the words of a capability; `again` walks on.
  unfoldable pub cap_found :
      (route port cap type w0 w1 : ℕ)
      → (again : ℕ → Step (Inventory S)) → Option ℕ
      → Step (Inventory S)
  cap_found route port c type w0 w1 again none =
      skip unknown_router_cap route port c (if port == 0 then w0 ∷ w1 ∷ [] else w0 ∷ [])
  cap_found route port c type w0 w1 again (some next) =
      count (λ t. record t { caps = t.caps + 1 })
      >>> tell cap route port c (if port == 0 then w0 ∷ w1 ∷ [] else w0 ∷ [])
      >>> cap_detail route port c type w0
      >>> again next

  unfoldable pub cap_round :
      (route port cap type : ℕ)
      → (seen : List ℕ) → (again : List ℕ → ℕ → Step (Inventory S)) → Step (Inventory S)
  cap_round route port c type seen again t =
      if ltb 254 c
      then skip cap_outside_window route port c (c ∷ []) t
      else (if ltb c (if port == 0 then 9 else 8) || has_been c seen
          then (err eproto, t)
          else checked
              (x1_topo_read route port (if port == 0 then 2 else 1) c (if port == 0 then 2 else 1)
                t)
              (λ p.
                let w0 = get_or p.0 0 0 in
                let w1 = get_or p.0 1 0 in
                cap_found route port c type w0 w1 (again (c ∷ seen)) (next_cap port w0 w1) p.1)
              (λ ret p. (ret, p.1)))

  -- `x1_topo_caps`, with the rounds that are left and the offsets that were seen.
  unfoldable pub caps_loop :
      (route port type : ℕ) (left : ℕ) → (seen : List ℕ) → (cap : ℕ) → Step (Inventory S)
  caps_loop route port type zero seen c t = (if c == 0 then ok else err eloop, t)
  caps_loop route port type (suc left) seen c t =
      if c == 0
      then (ok, t)
      else cap_round route port c type seen (caps_loop route port type left) t

  unfoldable pub x1_topo_caps : (route port cap type : ℕ) → Step (Inventory S)
  x1_topo_caps route port c type = caps_loop route port type topo_cap_limit [] c

  -- The words of an adapter's header: its type and its first capability, and the counters.
  abbrev pub adapter_type : List ℕ → ℕ
  adapter_type stored = get_or stored 2 0 % 2 ^ 24

  abbrev pub count_adapter : (route : ℕ) → List ℕ → X1Topology → X1Topology
  count_adapter route stored t = record t {
    adapters = t.adapters + 1;
    pcie_up = t.pcie_up + (if (adapter_type stored == 0x100102) && (route /= 0) then 1 else 0);
    pcie_down = t.pcie_down + (if (adapter_type stored == 0x100101) && (route == 0) then 1 else 0);
  }

  -- The loop over the headers, with the ports that are left; what it has found is the port, the
  -- type and the first capability of each, `rest` goes on with it.
  unfoldable pub scan_ports :
      (route left port : ℕ)
      → (found : List (ℕ × ℕ × ℕ)) → (rest : List (ℕ × ℕ × ℕ) → Step (Inventory S))
      → Step (Inventory S)
  scan_ports route zero port found rest t = rest found t
  scan_ports route (suc left) port found rest t =
      checked (x1_topo_read route port 1 0 8 t)
        (λ p.
          (count (count_adapter route p.0)
              >>> tell adapter route port 0 p.0
              >>> scan_ports route left (port + 1)
                  ((port, adapter_type p.0, get_or p.0 1 0 % 2 ^ 8) ∷ found) rest)
            p.1)
        (λ ret p. (ret, p.1))

  -- The capabilities of an adapter.
  unfoldable pub adapter_caps : (route : ℕ) → ℕ × ℕ × ℕ → Step (Inventory S)
  adapter_caps route (port, type, head) t =
      if ((route == 0) && (port == 1)) || (type == 0)
      then (ok, t)
      else x1_topo_caps route port head type t

  -- The words of the router, and its own capabilities.
  unfoldable pub router_words : (route : ℕ) → (header : List ℕ) → Step (Inventory S)
  router_words route header t =
      checked (x1_topo_read route 0 2 5 4 t)
        (λ p.
          (tell router route 0 5 p.0 >>> x1_topo_caps route 0 (get_or header 1 0 % 2 ^ 8) 0) p.1)
        (λ ret p. (ret, p.1))

-- The header of the two routers that are known.
unfoldable pub header_admitted : (route : ℕ) → (header : List ℕ) → Bool
header_admitted route h =
    ((route == 0)
      && (get_or h 0 0 == 0x093805c6)
      && (get_or h 1 0 == 0x0101c11c)
      && (get_or h 2 0 == 0)
      && (get_or h 3 0 == 0x80000000)
      && (get_or h 4 0 == 0x200010ff))
    || ((route == 2)
        && (get_or h 0 0 == 0x113b059f)
        && (get_or h 1 0 == 0x00114120)
        && (get_or h 2 0 == 2)
        && (get_or h 3 0 == 0x80000000)
        && (get_or h 4 0 == 0x200010ff))

abbrev pub last_port : (route : ℕ) → ℕ
last_port route = if route == 0 then 7 else 5

-- `reverse` of what the scan has found, so that the ports come in order.
abbrev pub in_order : {A : Type 0} → List A → List A → List A
in_order [] acc = acc
in_order (x ∷ xs) acc = in_order xs (x ∷ acc)

-- `x1_topology_router`; null pointers are `none`.
unfoldable pub x1_topology_router :
    {S : Type 0}
    → Option (TopologyIo S)
    → (route : ℕ) → (header : Option (List ℕ)) → Step (Inventory S)
x1_topology_router none route header t = (err einval, t)
x1_topology_router (some io) route none t = (err einval, t)
x1_topology_router (some io) route (some header) t =
    if not (header_admitted route header)
    then (err eperm, t)
    else scan_ports io route (last_port route) 1 []
        (λ found. each (adapter_caps io route) (in_order found []) >>> router_words io route header)
        t
