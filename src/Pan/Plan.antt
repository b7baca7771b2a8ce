-- ===== src/Pan/Plan.antt =====
-- snapshot/kernel/drivers/soc/qcom/yoga_pan_plan.h and yoga_link_plan.h: from a PAN state to the
-- plan of the port, and to the one connect word that the link experiment may send.
pub mod Laws
use yoga_slim7x_usb.Base.{
  ℕ, ◌*◌, ◌^◌, bit_or, List, [], ◌∷◌, Option, none, some, Bool, true, false, ◌&&◌, ◌||◌, not, ltb,
  leb, ◌==◌, ◌/=◌, if◌then◌else◌, length, take, drop, Status, err, einval, eopnotsupp, eagain,
  enotconn, Result, done, fail, ◌>>=◌, ◌>>◌, refuse, Out, finish, is_null, field, bit, byte_at,
}
use yoga_slim7x_usb.Pan.{Pan}

-- `enum yoga_port_mode`.
pub data YogaPortMode : Type 0 where
  yoga_safe yoga_usb3 yoga_usb4 yoga_tbt : YogaPortMode

-- `struct yoga_port_plan`.
pub record YogaPortPlan : Type 0 where
  pub orientation : ℕ
  pub mode : YogaPortMode
  pub cable_type : ℕ
  pub speed : ℕ
  pub rounded : ℕ
  pub connect_word : ℕ

abbrev pub is_usb4 : YogaPortMode → Bool
is_usb4 yoga_usb4 = true
is_usb4 _ = false

abbrev pub is_tbt : YogaPortMode → Bool
is_tbt yoga_tbt = true
is_tbt _ = false

-- `for (i = 1; i < 8; i++) if (e->ext[i]) return ...` as a test.
abbrev all_zero : List ℕ → Bool
all_zero [] = true
all_zero (x ∷ xs) = (x == 0) && all_zero xs

-- `cable_class` of the planner.
abbrev pub cable_class : YogaPortMode → (cable_type rounded : ℕ) → ℕ
cable_class mode cable_type rounded =
    if cable_type /= 0 then (if is_tbt mode && (rounded == 0) then 3 else 1) else 0

-- `p.connect_word` of the planner, with the board retimer's bit always set.
unfoldable pub connect_word_of : YogaPortMode → (orientation cable_type speed rounded : ℕ) → ℕ
connect_word_of mode orientation cable_type speed rounded =
    bit_or
      (bit_or
        (bit_or (bit_or (bit_or 1 (if is_usb4 mode then 1 * 2 ^ 8 else 0)) (orientation * 2 ^ 9))
          (1 * 2 ^ 10))
        (cable_class mode cable_type rounded * 2 ^ 11))
      (speed * 2 ^ 13)

-- The choice of the alternate mode at `mux_raw == 4`.
abbrev alt_mode : ℕ → Result YogaPortMode
alt_mode svid =
    if svid == 0xff00
    then done yoga_usb4
    else (if svid == 0x8087 then done yoga_tbt else fail eopnotsupp)

-- The branch `e->mux_raw == 4`.
unfoldable pub plan_alternate : Pan → Result YogaPortPlan
plan_alternate e = do
  refuse ((e.orientation_raw == 2) || (e.svid_header /= e.svid_payload)) einval
  mode ← alt_mode e.svid_header
  let ext0 = byte_at e.ext 0
  refuse (bit ext0 7) eopnotsupp
  refuse (not (all_zero (take 7 (drop 1 e.ext)))) eopnotsupp
  refuse (ltb 1 (field ext0 0 3) || ltb 1 (field ext0 3 3)) eopnotsupp
  done (record {
    orientation = e.orientation_raw;
    mode = mode;
    cable_type = field ext0 3 3;
    speed = field ext0 0 3;
    rounded = field ext0 6 1;
    connect_word =
        connect_word_of mode e.orientation_raw (field ext0 3 3) (field ext0 0 3) (field ext0 6 1);
  })

-- A plan whose other fields are the zeros of `struct yoga_port_plan p = { 0 }`.
abbrev idle_plan : ℕ → YogaPortMode → YogaPortPlan
idle_plan orientation mode = record {
  orientation = orientation;
  mode = mode;
  cable_type = 0;
  speed = 0;
  rounded = 0;
  connect_word = 0;
}

-- The branch `e->mux_raw == 1`.
abbrev plan_usb3 : Pan → Result YogaPortPlan
plan_usb3 e = do
  refuse (e.orientation_raw == 2) einval
  refuse ((e.svid_header /= 0xff00) || (e.svid_payload /= 0xff00)) eopnotsupp
  done (idle_plan e.orientation_raw yoga_usb3)

unfoldable pub planned : Pan → Result YogaPortPlan
planned e =
    if (e.port /= 0) || ltb 2 e.orientation_raw
    then fail einval
    else (if e.mux_raw == 0
        then done (idle_plan 2 yoga_safe)
        else (if e.mux_raw == 1
            then plan_usb3 e
            else (if e.mux_raw == 4 then plan_alternate e else fail eopnotsupp)))

-- `yoga_plan`.
unfoldable pub yoga_plan : Option Pan → Out YogaPortPlan → Status × Out YogaPortPlan
yoga_plan none out = (err einval, out)
yoga_plan (some e) none = (err einval, none)
yoga_plan (some e) (some p) = finish (planned e) (some p)

-- The loop that finds the last event of port 0.
unfoldable pub last_of_port0 : List Pan → Option Pan → Option Pan
last_of_port0 [] found = found
last_of_port0 (e ∷ es) found = last_of_port0 es (if e.port == 0 then some e else found)

-- The last test of `yoga_link_word`, once `yoga_plan` has filled `p`.
abbrev pub link_word_of : YogaPortPlan → Result ℕ
link_word_of p = do
  refuse (not (is_usb4 p.mode) || ((p.connect_word /= 0x2501) && (p.connect_word /= 0x2701)))
      enotconn
  done p.connect_word

-- The chain of tests on the event that was found.
abbrev pub link_of_event : Option Pan → Result ℕ
link_of_event none = fail enotconn
link_of_event (some e) = do
  refuse ((e.vid /= 0x059f) || (byte_at e.ext 0 /= 1)) enotconn
  elim (planned e) [ done p ↦ link_word_of p | fail x ↦ fail enotconn ]

-- `yoga_link_word`.
unfoldable pub yoga_link_word : Option (List Pan) → ℕ → ℕ → Out ℕ → Status × Out ℕ
yoga_link_word none count processed word = (err eagain, word)
yoga_link_word (some events) count processed none = (err eagain, none)
yoga_link_word (some events) count processed (some w) =
    if (count == 0) || ltb 32 count || (count /= processed)
    then (err eagain, some w)
    else finish (link_of_event (last_of_port0 (take count events) none)) (some w)
