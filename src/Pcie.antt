-- ===== src/Pcie.antt =====
-- snapshot/kernel/drivers/thunderbolt/qcom-x1-pcie.c: the owner of the PCIe root port, its gates and
-- the scan for the one endpoint. What the kernel looks up or does is a parameter.
pub mod Root
pub mod Probe
pub mod Calls
pub mod Room
pub mod CapList
pub mod Capabilities
pub mod Endpoint
pub mod Ready
pub mod Stages
pub mod Started
pub mod Order
pub mod Admission
pub mod Sample
mod Tests
use yoga_slim7x_usb.Base.{
  ℕ, ◌+◌, ◌/◌, ◌%◌, ◌^◌, List, [], ◌∷◌, Option, none, some, Bool, true, false, ◌&&◌, ◌||◌, not, ltb,
  ◌==◌, ◌/=◌, if◌then◌else◌, Status, ok, err, is_ok,
}

-- `struct x1_bridge`, without the pointers that are set once and never tested. An endpoint is kept
-- by a number that identifies the device.
pub record X1Bridge : Type 0 where
  pub attempted : Bool
  pub powered : Bool
  pub downstream : Bool
  pub ready : Bool
  pub error : Status
  pub enabled : ℕ
  pub endpoint : Option ℕ
  pub endpoint_validated : Bool
  pub root_validated : Bool
  pub root_fixup_done : Bool
  pub root_class : ℕ
  pub trained : Bool
  pub train_attempted : Bool

-- A zeroed `struct x1_bridge`.
abbrev pub no_bridge : X1Bridge
no_bridge = record {
  attempted = false;
  powered = false;
  downstream = false;
  ready = false;
  error = ok;
  enabled = 0;
  endpoint = none;
  endpoint_validated = false;
  root_validated = false;
  root_fixup_done = false;
  root_class = 0;
  trained = false;
  train_attempted = false;
}

-- What the PCI core knows of a device: `own_window` says that its bus uses the window of the owner.
pub record PciDevice : Type 0 where
  pub identity : ℕ
  pub class : ℕ
  pub driver : Bool
  pub domain : ℕ
  pub bus_number : ℕ
  pub on_root_bus : Bool
  pub own_window : Bool
  pub devfn : ℕ
  pub vendor : ℕ
  pub device : ℕ
  pub hdr_type : ℕ
  pub multifunction : Bool
  pub is_pcie : Bool
  pub pcie_type : ℕ
  pub revision : ℕ

-- Classes and types of the PCI headers.
abbrev pub class_bridge : ℕ
class_bridge = 0x0604

abbrev pub class_bridge_normal : ℕ
class_bridge_normal = 0x060400

abbrev pub class_nvme : ℕ
class_nvme = 0x010802

abbrev pub type_root_port : ℕ
type_root_port = 4

-- The guard of `x1_root_fixup_class`.
unfoldable pub fixup_admitted : X1Bridge → PciDevice → Bool
fixup_admitted b d =
    b.root_validated
    && b.powered
    && is_ok b.error
    && d.on_root_bus
    && d.own_window
    && (d.domain == 0)
    && (d.bus_number == 0)
    && (d.devfn == 0)
    && (d.vendor == 0x17cb)
    && (d.device == 0x0111)
    && (d.hdr_type == 1)
    && not d.multifunction
    && d.is_pcie
    && (d.pcie_type == type_root_port)
    && (d.class == b.root_class / 2 ^ 8)
    && (d.revision == b.root_class % 2 ^ 8)

-- The class that the kernel sees after the fixup.
abbrev pub fixed_class : X1Bridge → PciDevice → ℕ
fixed_class b d = if b.root_class == 0xff000001 then class_bridge_normal else d.class

-- `x1_root_fixup_class` on the device and on the owner.
unfoldable pub x1_root_fixup_class : PciDevice → X1Bridge → PciDevice × X1Bridge
x1_root_fixup_class d b = if not (fixup_admitted b d) then (d, b) else (
  record d { class = fixed_class b d },
  record b { root_fixup_done = fixed_class b d == class_bridge_normal },
)

-- The fixups of the devices that the PCI core has found, in order.
unfoldable pub fixup_all : List PciDevice → X1Bridge → List PciDevice × X1Bridge
fixup_all [] b = ([], b)
fixup_all (d ∷ rest) b =
    let (d', c) = x1_root_fixup_class d b in let (rest', c') = fixup_all rest c in (d' ∷ rest', c')

abbrev pub is_endpoint : Option ℕ → ℕ → Bool
is_endpoint none d = false
is_endpoint (some e) d = e == d

-- `x1_native_nvme_allowed`; without an owner it is `none`.
unfoldable pub x1_native_nvme_allowed : Option X1Bridge → PciDevice → Bool
x1_native_nvme_allowed none d = false
x1_native_nvme_allowed (some b) d = b.endpoint_validated && is_endpoint b.endpoint d.identity

-- `endpoint_show`, as the endpoint that it names.
unfoldable pub endpoint_show : X1Bridge → Option ℕ
endpoint_show b = if b.ready && is_ok b.error then b.endpoint else none

-- `x1_ecam_map`, as whether an access is let through: `first` is the bus of the root port, and a
-- negative offset is `none`.
unfoldable pub ecam_admitted : Option X1Bridge → (first bus devfn : ℕ) → (offset : Option ℕ) → Bool
ecam_admitted none first bus devfn offset = false
ecam_admitted (some b) first bus devfn none = false
ecam_admitted (some b) first bus devfn (some offset) =
    b.powered && ltb offset 4096 && (if bus == first then devfn == 0 else b.downstream)

-- `struct endpoint_scan`.
pub record EndpointScan : Type 0 where
  pub owner : X1Bridge
  pub nvmes : ℕ
  pub others : ℕ

-- `if (!s->b->endpoint) s->b->endpoint = pci_dev_get(pdev);`
abbrev pub first_endpoint : Option ℕ → ℕ → Option ℕ
first_endpoint none e = some e
first_endpoint (some e) _ = some e

-- `find_endpoint`.
unfoldable pub find_endpoint : PciDevice → EndpointScan → EndpointScan
find_endpoint d s =
    if d.class / 2 ^ 8 == class_bridge
    then s
    else (if (d.class /= class_nvme) || d.driver || (d.domain /= 0)
        then record s { others = s.others + 1 }
        else record s {
          nvmes = s.nvmes + 1;
          owner = record s.owner { endpoint = first_endpoint s.owner.endpoint d.identity };
        })

-- `pci_walk_bus` with it.
unfoldable pub find_endpoints : List PciDevice → EndpointScan → EndpointScan
find_endpoints [] s = s
find_endpoints (d ∷ rest) s = find_endpoints rest (find_endpoint d s)
