-- ===== src/Session/Claims.antt =====
-- Each session is claimed once, whatever calls are made.
use yoga_slim7x_usb.Base.{
  ℕ, ◌+◌, ◌≤◌, ◌<◌, ◌≡◌, ◌⊎◌, List, [], ◌∷◌, Option, none, some, false, ◌==◌, if◌then◌else◌, arith,
  Out,
}
use yoga_slim7x_usb.Session.{
  NvmeSession, SessionStore, PciReport, opened, nvme_x1_open_session, x1_nvme_claim_session,
  x1_nvme_session_resources_retired, nvme_x1_close_session,
}

-- The calls of the drivers, each with what the kernel reports at that moment.
pub data SessionCall : Type 0 where
  open_call : Option ℕ → PciReport → Out ℕ → SessionCall
  claim_call : ℕ → SessionCall
  retire_call : ℕ → SessionCall
  close_call : Option ℕ → PciReport → ℕ → SessionCall

-- The identity of the session, or 0.
abbrev pub id_of : Option NvmeSession → ℕ
id_of none = 0
id_of (some s) = s.id

-- One call, with the identities whose claim has succeeded, the last one first.
unfoldable pub session_call : SessionStore × List ℕ → SessionCall → SessionStore × List ℕ
session_call (store, claims) (open_call pdev r id) =
    ((nvme_x1_open_session pdev r id store).1.1, claims)
session_call (store, claims) (claim_call pdev) =
    let (admitted, t) = x1_nvme_claim_session pdev store in
    (t, (if admitted then id_of store.session ∷ claims else claims))
session_call (store, claims) (retire_call pdev) =
    ((x1_nvme_session_resources_retired pdev store).1, claims)
session_call (store, claims) (close_call pdev r id) =
    ((nvme_x1_close_session pdev r id store).1, claims)

unfoldable pub session_calls : SessionStore × List ℕ → List SessionCall → SessionStore × List ℕ
session_calls s [] = s
session_calls s (c ∷ cs) = session_calls (session_call s c) cs

-- How often an identity has been claimed.
unfoldable pub claims_of : ℕ → List ℕ → ℕ
claims_of id [] = 0
claims_of id (x ∷ xs) = (if x == id then 1 else 0) + claims_of id xs

-- What holds of the session that is open: it has the last identity, and is unclaimed until it is
-- consumed.
abbrev pub Current : ℕ → ℕ → List ℕ → Option NvmeSession → Type 0
Current id sequence claims none = Unit
Current id sequence claims (some s) =
    (s.id ≡ sequence) × ((s.consumed ≡ false) → (s.id ≡ id) → claims_of id claims ≡ 0)

pub record ClaimedOnce (id : ℕ) (s : SessionStore × List ℕ) : Type 0 where
  pub once : claims_of id s.1 ≤ 1
  pub not_yet : s.0.sequence < id → claims_of id s.1 ≡ 0
  pub current : Current id s.0.sequence s.1 s.0.session

session_call-ClaimedOnce :
    (id : ℕ) (store : SessionStore) (claims : List ℕ) (c : SessionCall)
    → ClaimedOnce id (store, claims)
    → ClaimedOnce id (session_call (store, claims) c)
unfolding session_call nvme_x1_open_session opened x1_nvme_claim_session
    x1_nvme_session_resources_retired nvme_x1_close_session claims_of
session_call-ClaimedOnce id store claims (open_call none r o) h = h
session_call-ClaimedOnce id store claims (open_call (some p) r none) h = h
session_call-ClaimedOnce id store claims (open_call (some p) r (some o)) h = ground arith
session_call-ClaimedOnce id store claims (claim_call p) h = ground arith
session_call-ClaimedOnce id store claims (retire_call p) h = ground arith
session_call-ClaimedOnce id store claims (close_call none r i) h = h
session_call-ClaimedOnce id store claims (close_call (some p) r i) h = ground arith

session_calls-ClaimedOnce :
    (id : ℕ) (s : SessionStore × List ℕ) (cs : List SessionCall)
    → ClaimedOnce id s
    → ClaimedOnce id (session_calls s cs)
unfolding session_calls
session_calls-ClaimedOnce id s [] h = h
session_calls-ClaimedOnce id s (c ∷ cs) h =
    session_calls-ClaimedOnce id (session_call s c) cs (session_call-ClaimedOnce id s.0 s.1 c h)

abbrev pub no_session : SessionStore × List ℕ
no_session = (record { session = none; sequence = 0 }, [])

-- Whatever calls are made from a cold boot, in any order and whatever the kernel reports, no
-- session is claimed more than once, and no identity is claimed before it is handed out.
pub session_calls_once :
    (id : ℕ) (cs : List SessionCall)
    → let (store, claims) = session_calls no_session cs in
      (claims_of id claims ≤ 1) × ((id ≤ store.sequence) ⊎ (claims_of id claims ≡ 0))
session_calls_once id cs =
    let h = session_calls-ClaimedOnce id no_session cs (unfold claims_of in ground arith) in
    ground arith
