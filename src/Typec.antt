-- ===== src/Typec.antt =====
-- snapshot/module/qcom-usb4-typec.c and qcom-usb4-typec.h: the words of the USB4 MCU's mailbox for
-- a Type-C connection. The fields of the kernel's Type-C payloads (linux/usb/pd.h,
-- linux/usb/typec_tbt.h) are parameters.
pub mod Word
pub mod Laws
mod Tests
use yoga_slim7x_usb.Base.{
  ℕ, ◌*◌, ◌^◌, bit_and, bit_or, Option, none, some, Bool, true, false, ◌&&◌, ◌||◌, not, ltb, ◌==◌,
  ◌/=◌, if◌then◌else◌, Status, ok, err, einval, eopnotsupp, Result, done, fail, ◌>>=◌, ◌>>◌, refuse,
  Out, store, finish, is_null,
}

-- `enum qcom_usb4_tunnel_mode`: 0 is TBT, 1 is USB4.
abbrev pub tunnel_tbt : ℕ
tunnel_tbt = 0

abbrev pub tunnel_usb4 : ℕ
tunnel_usb4 = 1

-- `struct qcom_usb4_pan_connect`, of `u8` fields.
pub record PanConnect : Type 0 where
  pub mode : ℕ
  pub orientation : ℕ
  pub cable_type : ℕ
  pub cable_speed : ℕ
  pub rounded : ℕ
  pub board_retimer : ℕ

-- `cable_class`.
abbrev pub class_of : PanConnect → ℕ
class_of pan =
    if pan.cable_type == 1
    then (if (pan.mode == tunnel_tbt) && (pan.rounded == 0) then 3 else 1)
    else 0

-- The word that `qcom_usb4_typec_connect_command` stores.
unfoldable pub connect_bits : (mode orientation board_retimer class speed : ℕ) → ℕ
connect_bits mode orientation board_retimer class speed =
    bit_or
      (bit_or
        (bit_or (bit_or (bit_or 1 (mode * 2 ^ 8)) (orientation * 2 ^ 9)) (board_retimer * 2 ^ 10))
        (class * 2 ^ 11))
      (speed * 2 ^ 13)

unfoldable pub connect_word : PanConnect → Result ℕ
connect_word pan = do
  refuse (ltb 1 pan.mode || ltb 1 pan.orientation || ltb 1 pan.rounded || ltb 1 pan.board_retimer)
      einval
  refuse (ltb 1 pan.cable_type || ltb 1 pan.cable_speed) eopnotsupp
  done (connect_bits pan.mode pan.orientation pan.board_retimer (class_of pan) pan.cable_speed)

-- `qcom_usb4_typec_connect_command`.
unfoldable pub connect_command : Option PanConnect → Out ℕ → Status × Out ℕ
connect_command none command = (err einval, command)
connect_command (some pan) none = (err einval, none)
connect_command (some pan) (some c) = finish (connect_word pan) (some c)

-- `return qcom_usb4_typec_connect_command(&pan, command);` after the adapter has filled `pan`.
abbrev pub send : Result PanConnect → ℕ → Status × Out ℕ
send (done pan) c = connect_command (some pan) (some c)
send (fail e) c = (err e, some c)

-- `enum typec_orientation`, whose third value is no orientation.
pub data TypecOrientation : Type 0 where
  orientation_none orientation_normal orientation_reverse : TypecOrientation

-- The switch on `orientation` of both adapters.
abbrev pub pan_orientation : TypecOrientation → Result ℕ
pan_orientation orientation_none = fail einval
pan_orientation orientation_normal = done 0
pan_orientation orientation_reverse = done 1

-- `struct enter_usb_data`.
pub record EnterUsbData : Type 0 where
  pub eudo : ℕ
  pub active_link_training : Bool

-- What linux/usb/pd.h says of an Enter_USB data object: how its fields are read, and the values
-- that the code compares them with, of which a `switch` wants the speeds to differ.
pub record EudoFields : Type 0 where
  pub usb_mode : ℕ → ℕ
  pub cable_speed : ℕ → ℕ
  pub cable_type : ℕ → ℕ
  pub mode_usb4 : ℕ
  pub speed_gen2 : ℕ
  pub speed_gen3 : ℕ

-- `struct typec_thunderbolt_data`.
pub record ThunderboltData : Type 0 where
  pub device_mode : ℕ
  pub cable_mode : ℕ
  pub enter_vdo : ℕ

-- What linux/usb/typec_tbt.h says of the Thunderbolt mode words: single-bit masks, and fields.
pub record TbtFields : Type 0 where
  pub tbt_mode : ℕ
  pub optical_or_training : ℕ
  pub active_passive : ℕ
  pub cable_retimer : ℕ
  pub enter_active_cable : ℕ
  pub adapter : ℕ → ℕ
  pub adapter_tbt3 : ℕ
  pub cable_speed : ℕ → ℕ
  pub usb3_passive : ℕ
  pub gbps_10_and_20 : ℕ
  pub rounded_support : ℕ → ℕ

-- A `switch` on a speed with two accepted values.
abbrev pub speed_code : (speed slow fast : ℕ) → Result ℕ
speed_code speed slow fast =
    if speed == slow then done 0 else (if speed == fast then done 1 else fail eopnotsupp)

-- `!!(x & mask)`.
abbrev pub has : ℕ → ℕ → Bool
has x mask = bit_and x mask /= 0

abbrev pub differ : Bool → Bool → Bool
differ true b = not b
differ false b = b

module _ (f : EudoFields) where
  unfoldable pub usb4_connect : EnterUsbData → TypecOrientation → ℕ → Result PanConnect
  usb4_connect data' orientation board_retimer = do
    refuse (f.usb_mode data'.eudo /= f.mode_usb4) einval
    refuse data'.active_link_training eopnotsupp
    o ← pan_orientation orientation
    s ← speed_code (f.cable_speed data'.eudo) f.speed_gen2 f.speed_gen3
    done (record {
      mode = tunnel_usb4;
      orientation = o;
      cable_type = f.cable_type data'.eudo;
      cable_speed = s;
      rounded = 0;
      board_retimer = board_retimer;
    })

  -- `qcom_usb4_typec_usb4_command`.
  unfoldable pub usb4_command : Option EnterUsbData → TypecOrientation → ℕ → Out ℕ → Status × Out ℕ
  usb4_command none orientation board_retimer command = (err einval, command)
  usb4_command (some d) orientation board_retimer none = (err einval, none)
  usb4_command (some d) orientation board_retimer (some c) =
      send (usb4_connect d orientation board_retimer) c

module _ (f : TbtFields) where
  unfoldable pub tbt_connect : ThunderboltData → TypecOrientation → ℕ → Result PanConnect
  tbt_connect data' orientation board_retimer = do
    let cable = data'.cable_mode
    let enter = data'.enter_vdo
    refuse
        (not (has data'.device_mode f.tbt_mode)
          || not (has cable f.tbt_mode)
          || not (has enter f.tbt_mode))
        einval
    refuse (f.adapter data'.device_mode /= f.adapter_tbt3) eopnotsupp
    refuse (has (bit_or cable enter) f.optical_or_training) eopnotsupp
    let active = has cable f.active_passive
    let retimer = has cable f.cable_retimer
    refuse
        (differ active (has enter f.enter_active_cable)
          || differ retimer (has enter f.cable_retimer)
          || (not active && retimer))
        einval
    refuse (active && not retimer) eopnotsupp
    refuse (f.cable_speed cable /= f.cable_speed enter) einval
    s ← speed_code (f.cable_speed cable) f.usb3_passive f.gbps_10_and_20
    let rounded = f.rounded_support cable
    refuse (rounded /= f.rounded_support enter) einval
    refuse (ltb 1 rounded) eopnotsupp
    o ← pan_orientation orientation
    done (record {
      mode = tunnel_tbt;
      orientation = o;
      cable_type = if retimer then 1 else 0;
      cable_speed = s;
      rounded = rounded;
      board_retimer = board_retimer;
    })

  -- `qcom_usb4_typec_tbt_command`.
  unfoldable pub tbt_command :
      Option ThunderboltData → TypecOrientation → ℕ → Out ℕ → Status × Out ℕ
  tbt_command none orientation board_retimer command = (err einval, command)
  tbt_command (some d) orientation board_retimer none = (err einval, none)
  tbt_command (some d) orientation board_retimer (some c) =
      send (tbt_connect d orientation board_retimer) c

-- `qcom_usb4_typec_preset_command`.
unfoldable pub preset_command : ℕ → Out ℕ → Status × Out ℕ
preset_command preset none = (err einval, none)
preset_command preset (some c) =
    if ltb 0xffff preset then (err einval, some c) else (ok, some (bit_or 2 (preset * 2 ^ 8)))

-- `qcom_usb4_typec_disconnect_command`.
unfoldable pub disconnect_command : Out ℕ → Status × Out ℕ
disconnect_command none = (err einval, none)
disconnect_command (some c) = (ok, some 6)
