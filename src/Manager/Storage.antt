-- ===== src/Manager/Storage.antt =====
-- `x1_native_prepare_storage`.
use yoga_slim7x_usb.Base.{
  Option, none, some, Bool, true, false, ◌&&◌, not, if◌then◌else◌, Status, err, enodev, enotconn,
  is_ok, Step, ◌>>>◌, demand, on_rest,
}
use yoga_slim7x_usb.Native.{x1_native_uid_allowed}
use yoga_slim7x_usb.Manager.{
  X1Native, Switch, ManagerKernel, PcieCalls, Managed, x1_native_pcie_authorizing,
}

-- The conditions on a router that the identity does not cover.
abbrev pub is_reachable : Switch → Bool
is_reachable w = not w.is_unplugged && w.link_usb4 && w.has_pcie_up

module _ {S : Type 0} (k : ManagerKernel S) (p : PcieCalls S) where
  -- `if (!valid(ctx)) return -ENOTCONN;`
  unfoldable pub check_live : Step S
  check_live s = let (v, t) = k.valid s in demand v (err enotconn) t

  -- `tb_domain_approve_switch` between the two changes of `allow_pcie`.
  abbrev pub approve_ended : X1Native → Status × S → Status × Managed S
  approve_ended n (ret, s) =
      (ret, (record n { allow_pcie = false }, (if is_ok ret then k.set_authorized s else s)))

  unfoldable pub approve_switch : Switch → Step (Managed S)
  approve_switch w (n, s) =
      let opened = record n { allow_pcie = true } in
      approve_ended opened (k.approve s w (x1_native_pcie_authorizing (some opened) true))

  unfoldable pub tunnel_to : Option Switch → Step (Managed S)
  tunnel_to none t = (err enodev, t)
  tunnel_to (some w) (n, s) =
      if not (is_ok (x1_native_uid_allowed k.lacie_uid 2 w.uid))
      then (x1_native_uid_allowed k.lacie_uid 2 w.uid, (n, s))
      else (let (v, t) = k.valid s in
          if not (v && is_reachable w && not w.authorized)
          then (err enodev, (n, t))
          else approve_switch w (n, t))

  unfoldable pub open_tunnel : Step (Managed S)
  open_tunnel (n, s) = let (found, t) = k.find_switch s in tunnel_to found (n, t)

  unfoldable pub x1_native_prepare_storage : Step (Managed S)
  x1_native_prepare_storage =
      on_rest check_live
      >>> on_rest (p.start true)
      >>> open_tunnel
      >>> on_rest check_live
      >>> on_rest p.train
      >>> on_rest check_live
      >>> on_rest p.scan
      >>> on_rest check_live
