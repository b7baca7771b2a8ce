-- ===== src/Session/Tests.antt =====
-- A session of a device that is opened, claimed, claimed again, retired and closed.
use yoga_slim7x_usb.Base.{◌≤◌, ◌≡◌, refl, ◌⊎◌, List, [], ◌∷◌, some, true, false}
use yoga_slim7x_usb.Session.{
  PciReport, opened, nvme_x1_open_session, x1_nvme_claim_session, x1_nvme_session_resources_retired,
  nvme_x1_close_session,
}
use yoga_slim7x_usb.Session.Claims.{
  SessionCall, open_call, claim_call, retire_call, close_call, session_call, session_calls,
  claims_of, no_session, session_calls_once,
}

abbrev unbound : PciReport
unbound = record {
  admitted = true;
  driver = false;
  drvdata = false;
  msi_data = false;
  registered = true;
  memory = true;
}

abbrev gone : PciReport
gone = record unbound { registered = false }

abbrev one_read : List SessionCall
one_read =
    open_call (some 5) unbound (some 0)
    ∷ claim_call 5
    ∷ claim_call 5
    ∷ retire_call 5
    ∷ close_call (some 5) gone 1
    ∷ []

one_read_claims : (session_calls no_session one_read).1 ≡ 1 ∷ []
unfolding session_calls session_call nvme_x1_open_session opened x1_nvme_claim_session
    x1_nvme_session_resources_retired nvme_x1_close_session
one_read_claims = refl

session_calls_once_example :
    let (store, claims) = session_calls no_session one_read in
    (claims_of 1 claims ≤ 1) × ((1 ≤ store.sequence) ⊎ (claims_of 1 claims ≡ 0))
session_calls_once_example = session_calls_once 1 one_read
