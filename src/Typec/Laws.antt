-- ===== src/Typec/Laws.antt =====
-- What the three encoders of a connect word guarantee.
use yoga_slim7x_usb.Base.{
  ℕ, ◌%◌, ◌^◌, ◌≤◌, ◌<◌, ◌≡◌, ◌≢◌, refl, sym, subst, ◌⊎◌, inl, inr, false, ◌==◌, none, some, ok,
  Result, done, fail, ◌>>=◌, Out, field, arith, Result-cases, finish-ok, if◌then◌else◌,
}
use yoga_slim7x_usb.Typec.{
  PanConnect, class_of, connect_bits, connect_word, connect_command, EnterUsbData, EudoFields,
  usb4_connect, usb4_command, ThunderboltData, TbtFields, tbt_connect, tbt_command,
  TypecOrientation, orientation_none, orientation_reverse, send, has, preset_command,
}
use yoga_slim7x_usb.Typec.Word.{connect_bits-eq-sum}

-- The PAN fields that the mailbox can express.
pub record IsConnectable (pan : PanConnect) : Type 0 where
  pub mode_fits : pan.mode ≤ 1
  pub orientation_fits : pan.orientation ≤ 1
  pub rounded_fits : pan.rounded ≤ 1
  pub board_fits : pan.board_retimer ≤ 1
  pub cable_fits : pan.cable_type ≤ 1
  pub speed_fits : pan.cable_speed ≤ 1

-- The two bits of the cable's class, spelled out: 0 without a retimer, 3 for a Thunderbolt connection
-- through a retimer without rounded support, and 1 for every other connection through one.
pub record HasClass (c : ℕ) (pan : PanConnect) : Type 0 where
  pub passive : pan.cable_type ≢ 1 → c ≡ 0
  pub thunderbolt : pan.cable_type ≡ 1 → pan.mode ≡ 0 → pan.rounded ≡ 0 → c ≡ 3
  pub usb4 : pan.cable_type ≡ 1 → pan.mode ≢ 0 → c ≡ 1
  pub rounded : pan.cable_type ≡ 1 → pan.rounded ≢ 0 → c ≡ 1

-- The word carries the fields of `pan`, each in bits of its own, and nothing above bit 13.
pub record Carries (w : ℕ) (pan : PanConnect) : Type 0 where
  pub opcode : w % 256 ≡ 1
  pub mode_bit : field w 8 1 ≡ pan.mode
  pub orientation_bit : field w 9 1 ≡ pan.orientation
  pub board_bit : field w 10 1 ≡ pan.board_retimer
  pub class_bits : HasClass (field w 11 2) pan
  pub speed_bit : field w 13 1 ≡ pan.cable_speed
  pub bounded : w < 2 ^ 14

pub connect_word-done :
    (pan : PanConnect)
    → IsConnectable pan
    → connect_word pan
      ≡ done
          (connect_bits pan.mode pan.orientation pan.board_retimer (class_of pan) pan.cable_speed)
unfolding connect_word
connect_word-done pan v = ground arith

pub connect_word-IsConnectable :
    (pan : PanConnect) (w : ℕ)
    → connect_word pan ≡ done w
    → IsConnectable pan
      × (connect_bits pan.mode pan.orientation pan.board_retimer (class_of pan) pan.cable_speed ≡ w)
unfolding connect_word
connect_word-IsConnectable pan w h = ground arith

class_of-lt : (pan : PanConnect) → class_of pan < 4
class_of-lt pan = ground arith

class_of-HasClass : (pan : PanConnect) → HasClass (class_of pan) pan
class_of-HasClass pan = record {
  passive = λ h. ground arith;
  thunderbolt = λ a b c. ground arith;
  usb4 = λ a b. ground arith;
  rounded = λ a b. ground arith;
}

connect_bits-Fields :
    (pan : PanConnect)
    → IsConnectable pan
    → let w =
        connect_bits pan.mode pan.orientation pan.board_retimer (class_of pan) pan.cable_speed in
      (w % 256 ≡ 1)
      × (field w 8 1 ≡ pan.mode)
      × (field w 9 1 ≡ pan.orientation)
      × (field w 10 1 ≡ pan.board_retimer)
      × (field w 11 2 ≡ class_of pan)
      × (field w 13 1 ≡ pan.cable_speed)
      × (w < 2 ^ 14)
connect_bits-Fields pan v =
    let lt = class_of-lt pan in
    let e =
      connect_bits-eq-sum pan.mode pan.orientation pan.board_retimer (class_of pan) pan.cable_speed
        (omega (arith, v)) (omega (arith, v)) (omega (arith, v)) lt in
    (
      omega (arith, e, lt, v),
      omega (arith, e, lt, v),
      omega (arith, e, lt, v),
      omega (arith, e, lt, v),
      omega (arith, e, lt, v),
      omega (arith, e, lt, v),
      omega (arith, e, lt, v),
    )

connect_bits-Carries :
    (pan : PanConnect)
    → IsConnectable pan
    → Carries
        (connect_bits pan.mode pan.orientation pan.board_retimer (class_of pan) pan.cable_speed)
        pan
connect_bits-Carries pan v =
    let b = connect_bits-Fields pan v in
    record {
      opcode = b.0;
      mode_bit = b.1;
      orientation_bit = b.2;
      board_bit = b.3;
      class_bits = subst (λ (c : ℕ). HasClass c pan) (sym b.4) (class_of-HasClass pan);
      speed_bit = b.5;
      bounded = b.6;
    }

pub connect_word-Carries : (pan : PanConnect) (w : ℕ) → connect_word pan ≡ done w → Carries w pan
connect_word-Carries pan w h =
    let (v, e) = connect_word-IsConnectable pan w h in rw e at (connect_bits-Carries pan v)

-- The encoder succeeds exactly on the connections that the mailbox can express, and then the
-- stored word carries them; otherwise it returns an error and leaves the caller's word alone.
pub connect_command_lem :
    (pan : PanConnect) (old : ℕ)
    → ((IsConnectable pan)
        × (w : ℕ) × (connect_command (some pan) (some old) ≡ (ok, some w))
        × Carries w pan)
      ⊎ ((¬ IsConnectable pan)
          × ((connect_command (some pan) (some old)).0 ≢ ok)
          × ((connect_command (some pan) (some old)).1 ≡ some old))
unfolding connect_command
connect_command_lem pan old = elim (Result-cases (connect_word pan)) [
  | inl (w, e) ↦ inl ((connect_word-IsConnectable pan w e).0, w, rw e, connect_word-Carries pan w e)
  | inr (x, e) ↦ inr ((λ v. cc (e, connect_word-done pan v)), (λ h. cc (rw e at h)), rw e)
]

send-ok :
    (r : Result PanConnect) (old w : ℕ)
    → send r old ≡ (ok, some w)
    → (pan : PanConnect) × (r ≡ done pan) × (connect_word pan ≡ done w)
unfolding connect_command
send-ok (done pan) old w h = (pan, refl, finish-ok (connect_word pan) old w h)
send-ok (fail e) old w h = ground arith

-- How the plug lies, as the mailbox counts it.
abbrev pub orientation_bit_of : TypecOrientation → ℕ
orientation_bit_of orientation_reverse = 1
orientation_bit_of _ = 0

usb4_connect_fields :
    (f : EudoFields) (d : EnterUsbData) (o : TypecOrientation) (board : ℕ) (pan : PanConnect)
    → usb4_connect f d o board ≡ done pan
    → (f.usb_mode d.eudo ≡ f.mode_usb4)
      × (d.active_link_training ≡ false)
      × (o ≢ orientation_none)
      × (pan.mode ≡ 1)
      × (pan.orientation ≡ orientation_bit_of o)
      × (pan.board_retimer ≡ board)
      × (pan.cable_type ≡ f.cable_type d.eudo)
      × (pan.cable_speed ≡ (if f.cable_speed d.eudo == f.speed_gen2 then 0 else 1))
      × ((f.cable_speed d.eudo ≡ f.speed_gen2) ⊎ (f.cable_speed d.eudo ≡ f.speed_gen3))
unfolding usb4_connect
usb4_connect_fields f d o board pan h = ground arith

-- A word that the USB4 adapter stores says USB4, the plug's orientation, the board's retimer and
-- the cable's generation, never the unrounded-retimer class, and comes only from a USB4 payload
-- without active link training and with a known orientation and speed.
pub usb4_command_lem :
    (f : EudoFields) (d : EnterUsbData) (o : TypecOrientation) (board old w : ℕ)
    → usb4_command f (some d) o board (some old) ≡ (ok, some w)
    → (f.usb_mode d.eudo ≡ f.mode_usb4)
      × (d.active_link_training ≡ false)
      × (o ≢ orientation_none)
      × ((f.cable_speed d.eudo ≡ f.speed_gen2) ⊎ (f.cable_speed d.eudo ≡ f.speed_gen3))
      × (w % 256 ≡ 1)
      × (field w 8 1 ≡ 1)
      × (field w 9 1 ≡ orientation_bit_of o)
      × (field w 10 1 ≡ board)
      × (field w 11 2 ≡ f.cable_type d.eudo)
      × (f.cable_type d.eudo ≤ 1)
      × (field w 13 1 ≡ (if f.cable_speed d.eudo == f.speed_gen2 then 0 else 1))
      × (w < 2 ^ 14)
unfolding usb4_command
usb4_command_lem f d o board old w h =
    let (pan, e, c) = send-ok (usb4_connect f d o board) old w h in
    let s = usb4_connect_fields f d o board pan e in
    let k = connect_word-Carries pan w c in
    let v = (connect_word-IsConnectable pan w c).0 in ground arith

tbt_connect_fields :
    (f : TbtFields) (d : ThunderboltData) (o : TypecOrientation) (board : ℕ) (pan : PanConnect)
    → tbt_connect f d o board ≡ done pan
    → (f.adapter d.device_mode ≡ f.adapter_tbt3)
      × (o ≢ orientation_none)
      × (has d.cable_mode f.cable_retimer ≡ has d.enter_vdo f.cable_retimer)
      × (has d.cable_mode f.active_passive ≡ has d.cable_mode f.cable_retimer)
      × (f.cable_speed d.cable_mode ≡ f.cable_speed d.enter_vdo)
      × (f.rounded_support d.cable_mode ≡ f.rounded_support d.enter_vdo)
      × (pan.mode ≡ 0)
      × (pan.orientation ≡ orientation_bit_of o)
      × (pan.board_retimer ≡ board)
      × (pan.cable_type ≡ (if has d.cable_mode f.cable_retimer then 1 else 0))
      × (pan.rounded ≡ f.rounded_support d.cable_mode)
      × (pan.cable_speed ≡ (if f.cable_speed d.cable_mode == f.usb3_passive then 0 else 1))
unfolding tbt_connect
tbt_connect_fields f d o board pan h = ground arith

-- A word that the Thunderbolt adapter stores says Thunderbolt, the plug's orientation and the
-- board's retimer; its class is 0 for a passive cable, 3 for a retimer without rounded support
-- and 1 for a rounded retimer; the cable and the Enter Mode payload agree on speed, retimer and
-- rounded support, and an active cable that is no retimer is never encoded.
pub tbt_command_lem :
    (f : TbtFields) (d : ThunderboltData) (o : TypecOrientation) (board old w : ℕ)
    → tbt_command f (some d) o board (some old) ≡ (ok, some w)
    → (f.adapter d.device_mode ≡ f.adapter_tbt3)
      × (o ≢ orientation_none)
      × (has d.cable_mode f.cable_retimer ≡ has d.enter_vdo f.cable_retimer)
      × (has d.cable_mode f.active_passive ≡ has d.cable_mode f.cable_retimer)
      × (f.cable_speed d.cable_mode ≡ f.cable_speed d.enter_vdo)
      × (f.rounded_support d.cable_mode ≡ f.rounded_support d.enter_vdo)
      × (w % 256 ≡ 1)
      × (field w 8 1 ≡ 0)
      × (field w 9 1 ≡ orientation_bit_of o)
      × (field w 10 1 ≡ board)
      × (field w 11 2 ≡ (
          if has d.cable_mode f.cable_retimer
          then (if f.rounded_support d.cable_mode == 0 then 3 else 1)
          else 0))
      × (w < 2 ^ 14)
unfolding tbt_command
tbt_command_lem f d o board old w h =
    let (pan, e, c) = send-ok (tbt_connect f d o board) old w h in
    let s = tbt_connect_fields f d o board pan e in
    let k = connect_word-Carries pan w c in ground arith

-- Every USB4 payload of a known cable, speed and orientation is encoded: a passive or retimer
-- cable of either generation without active link training never gets an error.
pub usb4_command_accepts :
    (f : EudoFields) (d : EnterUsbData) (o : TypecOrientation) (board old : ℕ)
    → f.usb_mode d.eudo ≡ f.mode_usb4
    → d.active_link_training ≡ false
    → o ≢ orientation_none
    → (f.cable_speed d.eudo ≡ f.speed_gen2) ⊎ (f.cable_speed d.eudo ≡ f.speed_gen3)
    → f.cable_type d.eudo ≤ 1
    → board ≤ 1
    → (w : ℕ) × (usb4_command f (some d) o board (some old) ≡ (ok, some w))
unfolding usb4_command usb4_connect connect_command
usb4_command_accepts f d o board old hm ht ho hs hc hb =
    elim (Result-cases (usb4_connect f d o board >>= connect_word)) [
      | inl (w, e) ↦ (w, unfold connect_word in ground (arith, e))
      | inr (x, e) ↦ absurd (unfold connect_word in ground (arith, e))
    ]

-- Whatever the Type-C payload, an encoder that returns an error has not touched the caller's word.
pub command_kept_on_error :
    (f : EudoFields) (g : TbtFields) (d : EnterUsbData) (t : ThunderboltData) (o : TypecOrientation)
    (board preset : ℕ) (out : Out ℕ)
    → let a = usb4_command f (some d) o board out in
      let b = tbt_command g (some t) o board out in
      let c = preset_command preset out in
      ((a.0 ≡ ok) ⊎ (a.1 ≡ out)) × ((b.0 ≡ ok) ⊎ (b.1 ≡ out)) × ((c.0 ≡ ok) ⊎ (c.1 ≡ out))
unfolding usb4_command tbt_command connect_command preset_command
command_kept_on_error f g d t o board preset none = ground arith
command_kept_on_error f g d t o board preset (some old) = ground arith
