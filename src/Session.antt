-- ===== src/Session.antt =====
-- experiments/omarchy1/kernel/drivers/nvme/host/x1-private-read.h: the one session that admits a
-- private read of a storage device. What the PCI core and the allocator report is a parameter.
pub mod Claims
mod Tests
use yoga_slim7x_usb.Base.{
  ℕ, ◌+◌, ◌-◌, ◌^◌, Option, none, some, Bool, true, false, ◌&&◌, ◌||◌, not, ◌==◌, ◌/=◌,
  if◌then◌else◌, Status, ok, err, einval, eperm, enomem, estale, Out,
}

-- `struct x1_nvme_session`; a device is known by a number.
pub record NvmeSession : Type 0 where
  pub pdev : ℕ
  pub id : ℕ
  pub consumed : Bool
  pub resources_retired : Bool

-- The two static variables.
pub record SessionStore : Type 0 where
  pub session : Option NvmeSession
  pub sequence : ℕ

-- What the kernel reports of a device at a call: whether it is the admitted one, has a driver,
-- driver data or an MSI domain, is registered, and whether memory can be had.
pub record PciReport : Type 0 where
  pub admitted : Bool
  pub driver : Bool
  pub drvdata : Bool
  pub msi_data : Bool
  pub registered : Bool
  pub memory : Bool

abbrev pub is_open : Option NvmeSession → Bool
is_open none = false
is_open (some s) = true

-- `nvme_x1_open_session` under its lock.
unfoldable pub opened : ℕ → PciReport → ℕ → SessionStore → Status × (Out ℕ × SessionStore)
opened pdev r old store =
    if is_open store.session
      || r.driver
      || r.drvdata
      || not r.registered
      || (store.sequence == 2 ^ 64 - 1)
    then (err eperm, (some old, store))
    else (if not r.memory then (err enomem, (some old, store)) else (
      ok,
      (
        some (store.sequence + 1),
        record {
          session = some (record {
            pdev = pdev;
            id = store.sequence + 1;
            consumed = false;
            resources_retired = false;
          });
          sequence = store.sequence + 1;
        },
      ),
    ))

-- `nvme_x1_open_session`.
unfoldable pub nvme_x1_open_session :
    Option ℕ → PciReport → Out ℕ → SessionStore → Status × (Out ℕ × SessionStore)
nvme_x1_open_session none r id store = (err einval, (id, store))
nvme_x1_open_session (some pdev) r none store = (err einval, (none, store))
nvme_x1_open_session (some pdev) r (some old) store =
    if not r.admitted then (err einval, (some old, store)) else opened pdev r old store

-- `x1_nvme_claim_session`, from what the session points to.
abbrev pub claimed : Option NvmeSession → ℕ → SessionStore → Bool × SessionStore
claimed none pdev store = (false, store)
claimed (some s) pdev store =
    if (s.pdev == pdev) && not s.consumed && not s.resources_retired
    then (true, record store { session = some (record s { consumed = true }) })
    else (false, store)

-- `x1_nvme_claim_session`.
unfoldable pub x1_nvme_claim_session : ℕ → SessionStore → Bool × SessionStore
x1_nvme_claim_session pdev store = claimed store.session pdev store

abbrev pub retired : Option NvmeSession → ℕ → SessionStore → Status × SessionStore
retired none pdev store = (err estale, store)
retired (some s) pdev store =
    if (s.pdev == pdev) && s.consumed && not s.resources_retired
    then (ok, record store { session = some (record s { resources_retired = true }) })
    else (err estale, store)

-- `x1_nvme_session_resources_retired`.
unfoldable pub x1_nvme_session_resources_retired : ℕ → SessionStore → Status × SessionStore
x1_nvme_session_resources_retired pdev store = retired store.session pdev store

abbrev pub closed : Option NvmeSession → ℕ → PciReport → ℕ → SessionStore → Status × SessionStore
closed none pdev r id store = (err eperm, store)
closed (some s) pdev r id store =
    if (s.pdev /= pdev)
      || (s.id /= id)
      || not s.consumed
      || not s.resources_retired
      || r.driver
      || r.drvdata
      || r.msi_data
      || r.registered
    then (err eperm, store)
    else (ok, record store { session = none })

-- `nvme_x1_close_session`.
unfoldable pub nvme_x1_close_session :
    Option ℕ → PciReport → ℕ → SessionStore → Status × SessionStore
nvme_x1_close_session none r id store = (err einval, store)
nvme_x1_close_session (some pdev) r id store =
    if id == 0 then (err einval, store) else closed store.session pdev r id store
