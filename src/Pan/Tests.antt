-- ===== src/Pan/Tests.antt =====
-- Concrete PAN events: a message, a USB4 connection of the LaCie drive, and its plan.
use yoga_slim7x_usb.Base.{◌≡◌, refl, inl, [], ◌∷◌, some, ok, arith}
use yoga_slim7x_usb.Pan.{Pan, yoga_pan_decode}
use yoga_slim7x_usb.Pan.Wire.{pan_wire, decode-pan_wire}
use yoga_slim7x_usb.Pan.Plan.{
  YogaPortPlan, yoga_usb4, yoga_safe, yoga_plan, planned, plan_alternate, connect_word_of,
}
use yoga_slim7x_usb.Pan.Plan.Laws.{connect_of, yoga_plan-connect_command}
use yoga_slim7x_usb.Typec.{connect_command}

abbrev lacie : Pan
lacie = record {
  port = 0;
  orientation_raw = 1;
  mux_raw = 4;
  ext = 1 ∷ 0 ∷ 0 ∷ 0 ∷ 0 ∷ 0 ∷ 0 ∷ 0 ∷ [];
  vid = 0x059f;
  svid_header = 0xff00;
  svid_payload = 0xff00;
}

abbrev lacie_plan : YogaPortPlan
lacie_plan = record {
  orientation = 1;
  mode = yoga_usb4;
  cable_type = 0;
  speed = 1;
  rounded = 0;
  connect_word = 0x2701;
}

abbrev zero_plan : YogaPortPlan
zero_plan = record {
  orientation = 0;
  mode = yoga_safe;
  cable_type = 0;
  speed = 0;
  rounded = 0;
  connect_word = 0;
}

lacie_planned : yoga_plan (some lacie) (some zero_plan) ≡ (ok, some lacie_plan)
unfolding yoga_plan planned plan_alternate connect_word_of
lacie_planned = refl

decode-pan_wire_example :
    yoga_pan_decode (some (pan_wire lacie 5 (6 ∷ []))) 32 (some lacie) ≡ (ok, some lacie)
decode-pan_wire_example =
    decode-pan_wire 0 1 4 0x059f 0xff00 0xff00 1 0 0 0 0 0 0 0 5 (6 ∷ []) lacie (omega arith)
      (omega arith) (omega arith) (omega arith)

yoga_plan-connect_command_example :
    connect_command (some (connect_of lacie_plan)) (some 3) ≡ (ok, some 0x2701)
yoga_plan-connect_command_example =
    yoga_plan-connect_command lacie lacie_plan zero_plan 3 lacie_planned (inl refl)
