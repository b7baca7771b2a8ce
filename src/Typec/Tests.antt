-- ===== src/Typec/Tests.antt =====
-- Concrete runs of the mailbox encoders, on fields laid out as in the kernel's headers.
use yoga_slim7x_usb.Base.{ℕ, ◌+◌, ◌*◌, ◌^◌, ◌≡◌, ◌≢◌, refl, ◌⊎◌, true, false, some, ok, field}
use yoga_slim7x_usb.Typec.{
  PanConnect, connect_bits, connect_word, usb4_connect, tbt_connect, connect_command, EnterUsbData,
  EudoFields, usb4_command, ThunderboltData, TbtFields, tbt_command, orientation_normal,
  orientation_reverse, disconnect_command,
}
use yoga_slim7x_usb.Typec.Laws.{IsConnectable, Carries, connect_command_lem}

abbrev retimer_pan : PanConnect
retimer_pan = record {
  mode = 0;
  orientation = 1;
  cable_type = 1;
  cable_speed = 1;
  rounded = 0;
  board_retimer = 1;
}

abbrev eudo_fields : EudoFields
eudo_fields = record {
  usb_mode = λ x. field x 28 3;
  cable_speed = λ x. field x 21 3;
  cable_type = λ x. field x 19 2;
  mode_usb4 = 2;
  speed_gen2 = 2;
  speed_gen3 = 3;
}

abbrev gen3_retimer : EnterUsbData
gen3_retimer = record { eudo = 2 * 2 ^ 28 + 3 * 2 ^ 21 + 1 * 2 ^ 19; active_link_training = false }

abbrev training : EnterUsbData
training = record gen3_retimer { active_link_training = true }

abbrev tbt_fields : TbtFields
tbt_fields = record {
  tbt_mode = 1;
  optical_or_training = 2 ^ 21 + 2 ^ 23;
  active_passive = 2 ^ 25;
  cable_retimer = 2 ^ 22;
  enter_active_cable = 2 ^ 24;
  adapter = λ x. field x 16 1;
  adapter_tbt3 = 1;
  cable_speed = λ x. field x 16 3;
  usb3_passive = 2;
  gbps_10_and_20 = 3;
  rounded_support = λ x. field x 19 2;
}

abbrev tbt_retimer : ThunderboltData
tbt_retimer = record {
  device_mode = 1 + 2 ^ 16;
  cable_mode = 1 + 3 * 2 ^ 16 + 2 ^ 22 + 2 ^ 25;
  enter_vdo = 1 + 3 * 2 ^ 16 + 2 ^ 22 + 2 ^ 24;
}

connect_stores : connect_command (some retimer_pan) (some 0) ≡ (ok, some 0x3e01)
unfolding connect_command connect_word connect_bits
connect_stores = refl

disconnect_stores : disconnect_command (some 0) ≡ (ok, some 6)
unfolding disconnect_command
disconnect_stores = refl

usb4_stores :
    usb4_command eudo_fields (some gen3_retimer) orientation_normal 1 (some 0) ≡ (ok, some 0x2d01)
unfolding usb4_command connect_command usb4_connect connect_word connect_bits
usb4_stores = refl

tbt_stores :
    tbt_command tbt_fields (some tbt_retimer) orientation_reverse 1 (some 0) ≡ (ok, some 0x3e01)
unfolding tbt_command connect_command tbt_connect connect_word connect_bits
tbt_stores = refl

connect_command_lem_example :
    (IsConnectable retimer_pan
      × (w : ℕ) × (connect_command (some retimer_pan) (some 7) ≡ (ok, some w))
      × Carries w retimer_pan)
    ⊎ ((¬ IsConnectable retimer_pan)
        × ((connect_command (some retimer_pan) (some 7)).0 ≢ ok)
        × ((connect_command (some retimer_pan) (some 7)).1 ≡ some 7))
connect_command_lem_example = connect_command_lem retimer_pan 7
