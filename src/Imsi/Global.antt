-- ===== src/Imsi/Global.antt =====
-- What the policy of the global interrupt writes, and when it reports that it is ready.
use yoga_slim7x_usb.Base.{◌≡◌, ◌⊎◌, List, false, Status, ok, is_ok}
use yoga_slim7x_usb.Imsi.{ImsiPolicy}
use yoga_slim7x_usb.Imsi.Receipts.{Access, IsStopped, IsReady}

-- How an attempt has ended, with its result.
pub record IsOver (ret : Status) (p : ImsiPolicy) (log : List Access) : Type 0 where
  pub error_kept : p.global_error ≡ ret
  pub outcome : ((ret ≡ ok) × IsReady p log) ⊎ ((is_ok ret ≡ false) × IsStopped p log)

-- The label `out`.
abbrev finished : ImsiPolicy → Status → ImsiPolicy
finished p ret = record p { global_error = ret }
