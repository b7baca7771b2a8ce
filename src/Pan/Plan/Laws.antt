-- ===== src/Pan/Plan/Laws.antt =====
-- The planner of a port against the encoder of the mailbox words.
use yoga_slim7x_usb.Base.{ℕ, ◌≤◌, ◌≡◌, ◌⊎◌, ◌==◌, if◌then◌else◌, some, ok, done, arith, finish-ok}
use yoga_slim7x_usb.Pan.{Pan}
use yoga_slim7x_usb.Pan.Plan.{
  YogaPortMode, yoga_usb4, yoga_tbt, YogaPortPlan, is_usb4, connect_word_of, plan_alternate,
  planned, yoga_plan,
}
use yoga_slim7x_usb.Typec.{PanConnect, class_of, connect_bits, connect_word, connect_command}
use yoga_slim7x_usb.Typec.Laws.{connect_word-done}

-- The fields that the planner would hand to the mailbox encoder, on a board with a retimer.
abbrev pub connect_of : YogaPortPlan → PanConnect
connect_of p = record {
  mode = if is_usb4 p.mode then 1 else 0;
  orientation = p.orientation;
  cable_type = p.cable_type;
  cable_speed = p.speed;
  rounded = p.rounded;
  board_retimer = 1;
}

-- The modes in which a connect word is planned.
abbrev pub IsTunnel : YogaPortMode → Type 0
IsTunnel m = (m ≡ yoga_usb4) ⊎ (m ≡ yoga_tbt)

-- What a plan holds besides the connect word.
pub record IsPlanned (e : Pan) (p : YogaPortPlan) : Type 0 where
  pub cable_fits : p.cable_type ≤ 1
  pub speed_fits : p.speed ≤ 1
  pub rounded_fits : p.rounded ≤ 1
  pub tunnel_orientation : IsTunnel p.mode → p.orientation ≤ 1
  pub word : p.connect_word ≡ (
      if e.mux_raw == 4
      then connect_word_of p.mode p.orientation p.cable_type p.speed p.rounded
      else 0)
  pub tunnel_mux : IsTunnel p.mode → e.mux_raw ≡ 4
  pub port0 : e.port ≡ 0

alternate-IsPlanned :
    (e : Pan) (p : YogaPortPlan)
    → e.port ≡ 0
    → e.orientation_raw ≤ 2
    → e.mux_raw ≡ 4
    → plan_alternate e ≡ done p
    → IsPlanned e p
unfolding plan_alternate
alternate-IsPlanned e p hp ho hm h = ground arith

planned-IsPlanned : (e : Pan) (p : YogaPortPlan) → planned e ≡ done p → IsPlanned e p
unfolding planned
planned-IsPlanned e p h = ground (arith, alternate-IsPlanned e p)

connect_word_of-eq :
    (p : YogaPortPlan)
    → IsTunnel p.mode
    → p.cable_type ≤ 1
    → connect_word_of p.mode p.orientation p.cable_type p.speed p.rounded
      ≡ connect_bits (connect_of p).mode p.orientation 1 (class_of (connect_of p)) p.speed
unfolding connect_word_of connect_bits
connect_word_of-eq p t c = ground arith

-- Whenever the planner plans a USB4 or Thunderbolt connection, its connect word is exactly the word
-- that the mailbox encoder of the startup module stores for the planned fields on a board with a
-- retimer, so the two independent encoders never disagree.
pub yoga_plan-connect_command :
    (e : Pan) (p before : YogaPortPlan) (old : ℕ)
    → yoga_plan (some e) (some before) ≡ (ok, some p)
    → IsTunnel p.mode
    → connect_command (some (connect_of p)) (some old) ≡ (ok, some p.connect_word)
unfolding yoga_plan connect_command
yoga_plan-connect_command e p before old h t =
    let v = planned-IsPlanned e p (finish-ok (planned e) before p h) in
    let w : connect_word (connect_of p)
        ≡ done
            (connect_bits (connect_of p).mode p.orientation 1 (class_of (connect_of p)) p.speed) =
      connect_word-done (connect_of p) (ground arith) in
    let q = connect_word_of-eq p t v.cable_fits in ground (arith, w, q)
