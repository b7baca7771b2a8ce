-- ===== src/Native/Laws.antt =====
-- The admission policy fails closed, and the link planner stays inside it.
use yoga_slim7x_usb.Base.{ℕ, ◌≡◌, ◌≢◌, ◌↔◌, List, take, Option, none, ok, arith}
use yoga_slim7x_usb.Pan.{Pan}
use yoga_slim7x_usb.Pan.Plan.{last_of_port0}
use yoga_slim7x_usb.Native.{x1_native_uid_allowed, public_lacie_uid}

-- The event that the link planner chose is the last one of port 0.
abbrev pub chosen : List Pan → ℕ → Option Pan
chosen events count = last_of_port0 (take count events) none

-- The public snapshot admits no external storage device at all; a build with an identity of its
-- own admits that one identity on the one external route, and nothing else.
pub uid_allowed_iff :
    (lacie_uid route uid : ℕ)
    → (x1_native_uid_allowed public_lacie_uid route uid ≢ ok)
      × ((x1_native_uid_allowed lacie_uid route uid ≡ ok)
          ↔ ((lacie_uid ≢ 0) × (route ≡ 2) × (uid ≡ lacie_uid)))
unfolding x1_native_uid_allowed
uid_allowed_iff lacie_uid route uid = (ground arith, (λ h. ground arith, λ h. ground arith))
