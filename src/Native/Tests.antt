-- ===== src/Native/Tests.antt =====
-- Concrete decisions of the native policy.
use yoga_slim7x_usb.Base.{ℕ, List, [], ◌∷◌}
use yoga_slim7x_usb.Pan.{Pan}
use yoga_slim7x_usb.Pan.Plan.{YogaPortPlan, yoga_safe}

abbrev unplugged : Pan
unplugged = record {
  port = 0;
  orientation_raw = 2;
  mux_raw = 0;
  ext = 0 ∷ 0 ∷ 0 ∷ 0 ∷ 0 ∷ 0 ∷ 0 ∷ 0 ∷ [];
  vid = 0;
  svid_header = 0;
  svid_payload = 0;
}

abbrev plugged : Pan
plugged = record {
  port = 0;
  orientation_raw = 0;
  mux_raw = 4;
  ext = 1 ∷ 0 ∷ 0 ∷ 0 ∷ 0 ∷ 0 ∷ 0 ∷ 0 ∷ [];
  vid = 0x059f;
  svid_header = 0xff00;
  svid_payload = 0xff00;
}

abbrev empty_plan : YogaPortPlan
empty_plan = record {
  orientation = 0;
  mode = yoga_safe;
  cable_type = 0;
  speed = 0;
  rounded = 0;
  connect_word = 0;
}

abbrev event_log : List Pan
event_log = unplugged ∷ plugged ∷ record unplugged { port = 1 } ∷ []

abbrev drive_uid : ℕ
drive_uid = 77

abbrev drive_route : ℕ
drive_route = 2
