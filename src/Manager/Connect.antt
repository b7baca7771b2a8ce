-- ===== src/Manager/Connect.antt =====
-- `x1_native_connect`: one command, a wait with at most one rescan, and the storage.
use yoga_slim7x_usb.Base.{
  ℕ, zero, suc, List, Option, none, some, Bool, true, false, ◌&&◌, not, if◌then◌else◌, Status, ok,
  err, eperm, einval, enodev, enotconn, etimedout, is_ok,
}
use yoga_slim7x_usb.Native.{
  x1_native_uid_allowed, x1_native_connect_word_allowed, x1_native_rescan_allowed,
}
use yoga_slim7x_usb.Manager.{
  X1Native, Switch, ScanReport, ManagerKernel, PcieCalls, Managed, ManagerState, is_terminal,
  scan_results,
}
use yoga_slim7x_usb.Manager.Storage.{is_reachable, x1_native_prepare_storage}

-- How a round of the wait ends: with a result, or with another round, and whether it was rescanned.
pub data Round : Type 0 where
  finished : Status → Round
  again : (rescanned : Bool) → Round

-- The guard of the call.
unfoldable pub connect_admitted : X1Native → Bool
connect_admitted n = n.live && not n.stopped && not n.attempted && n.connect

module _ {S : Type 0} (k : ManagerKernel S) (p : PcieCalls S) where
  -- The result on the router that was found.
  unfoldable pub switch_verdict : Switch → Status
  switch_verdict w =
      if not (is_ok (x1_native_uid_allowed k.lacie_uid 2 w.uid))
      then x1_native_uid_allowed k.lacie_uid 2 w.uid
      else (if is_reachable w then ok else err enodev)

  -- The rescan, with its check of the live PAN.
  abbrev pub rescan_ended : X1Native → Status × (List ScanReport × S) → Round × Managed S
  rescan_ended n (ret, (reports, s)) =
      ((if is_ok ret then again true else finished ret), (scan_results reports n, s))

  unfoldable pub rescan_now : Managed S → Round × Managed S
  rescan_now (n, s) =
      let (v, t) = k.valid s in
      if v then rescan_ended n (k.rescan t) else (finished (err enotconn), (n, t))

  -- A round without a router.
  unfoldable pub round_absent : (rescanned : Bool) → Managed S → Round × Managed S
  round_absent rescanned (n, s) =
      if is_terminal n
      then (finished n.scan_error, (n, s))
      else (if x1_native_rescan_allowed rescanned n.scan_preconfig n.scan_error && k.before s 8000
          then rescan_now (n, s)
          else (again rescanned, (n, s)))

  abbrev pub round_found : (rescanned : Bool) → Option Switch → Managed S → Round × Managed S
  round_found rescanned none t = round_absent rescanned t
  round_found rescanned (some w) t = (finished (switch_verdict w), t)

  -- A round that holds the lock.
  unfoldable pub round_locked : (rescanned : Bool) → Managed S → Round × Managed S
  round_locked rescanned (n, s) =
      if is_terminal n
      then (finished n.scan_error, (n, s))
      else (let (found, t) = k.find_switch s in round_found rescanned found (n, t))

  unfoldable pub connect_round : (rescanned : Bool) → Managed S → Round × Managed S
  connect_round rescanned (n, s) =
      let (v, t) = k.valid s in
      if not v
      then (finished (err enotconn), (n, t))
      else (let (locked, u) = k.try_lock t in
          if locked then round_locked rescanned (n, u) else (again rescanned, (n, u)))

  -- `msleep(20)`, during which the core may report, and the test of the deadline: `more` goes on.
  unfoldable pub next_round :
      Round × Managed S
      → (more : Bool → Managed S → Option Status × Managed S) → Option Status × Managed S
  next_round (finished ret, t) more = (some ret, t)
  next_round (again rescanned, (n, s)) more =
      let (reports, t) = k.sleep s in
      if k.before t 0
      then more rescanned (scan_results reports n, t)
      else (some (err etimedout), (scan_results reports n, t))

  -- The loop, with the rounds that are left; `none` is a wait that has not ended in them.
  unfoldable pub connect_loop :
      (left : ℕ) → (rescanned : Bool) → Managed S → Option Status × Managed S
  connect_loop zero rescanned t = (none, t)
  connect_loop (suc left) rescanned t = next_round (connect_round rescanned t) (connect_loop left)

  -- `if (!ret) ret = x1_native_prepare_storage(n, valid, ctx);`
  abbrev pub with_result : Status × Managed S → Option Status × Managed S
  with_result (ret, t) = (some ret, t)

  unfoldable pub storage_after : Option Status × Managed S → Option Status × Managed S
  storage_after (none, t) = (none, t)
  storage_after (some ok, t) = with_result (x1_native_prepare_storage k p t)
  storage_after (some ret, t) = (some ret, t)

  -- What follows the command.
  unfoldable pub command_ended :
      (left : ℕ) → X1Native → Status × (List ScanReport × S) → Option Status × Managed S
  command_ended left n (ret, (reports, s)) =
      if not (is_ok ret)
      then (some ret, (scan_results reports n, s))
      else storage_after (connect_loop left false (scan_results reports n, k.set_deadline s))

  unfoldable pub connect_owner : (left word : ℕ) → Managed S → Option Status × Managed S
  connect_owner left word (n, s) =
      let (v, t) = k.valid s in
      if not v then (some (err enotconn), (n, t)) else command_ended left n (k.connect t word)

  abbrev pub as_owner : Option Status × Managed S → Option Status × ManagerState S
  as_owner (ret, (n, s)) = (ret, (some n, s))

  abbrev pub connect_static : (left word : ℕ) → Option X1Native → S → Option Status × ManagerState S
  connect_static left word none s = (some (err eperm), (none, s))
  connect_static left word (some n) s =
      if not (connect_admitted n)
      then (some (err eperm), (some n, s))
      else as_owner (connect_owner left word (record n { attempted = true }, s))

  -- `x1_native_connect`, with at most `left` rounds of its loop; `valid` is whether the pointer is
  -- not null.
  unfoldable pub x1_native_connect :
      (left word : ℕ) → (valid : Bool) → ManagerState S → Option Status × ManagerState S
  x1_native_connect left word valid (o, s) =
      if not (is_ok (x1_native_connect_word_allowed word))
      then (some (x1_native_connect_word_allowed word), (o, s))
      else (if not valid then (some (err einval), (o, s)) else connect_static left word o s)
