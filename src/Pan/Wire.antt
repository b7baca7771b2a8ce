-- ===== src/Pan/Wire.antt =====
-- The PAN message as bytes, and its decoder.
use yoga_slim7x_usb.Base.{
  ℕ, ◌+◌, ◌*◌, ◌/◌, ◌%◌, ◌<◌, ◌≡◌, List, [], ◌∷◌, ◌++◌, some, ok, arith, le16, le32, put_le32,
}
use yoga_slim7x_usb.Pan.{Pan, yoga_pan_decode}

-- The message that carries the fields of `v`, with eight bytes of `ext`; the other bytes, which
-- the decoder does not read, are arguments.
abbrev pub pan_wire : Pan → (unread : ℕ) → (tail : List ℕ) → List ℕ
pan_wire v unread tail =
    put_le32 32780
    ++ (put_le32 2
        ++ (put_le32 (0x16 + v.svid_header * 65536)
            ++ (v.port
                ∷ v.orientation_raw
                ∷ v.mux_raw
                ∷ unread
                ∷ v.vid % 256
                ∷ v.vid / 256
                ∷ v.svid_payload % 256
                ∷ v.svid_payload / 256
                ∷ (v.ext ++ tail))))

-- Decoding the message of a PAN state on one of the three ports, with eight extension bytes
-- and 16-bit identifiers, succeeds and stores exactly that state.
pub decode-pan_wire :
    (port orientation mux vid header payload : ℕ) (a b c d e f g h unread : ℕ) (tail : List ℕ)
    (old : Pan)
    → port < 3
    → vid < 65536
    → header < 65536
    → payload < 65536
    → let v : Pan = record {
      port = port;
      orientation_raw = orientation;
      mux_raw = mux;
      ext = a ∷ b ∷ c ∷ d ∷ e ∷ f ∷ g ∷ h ∷ [];
      vid = vid;
      svid_header = header;
      svid_payload = payload;
    } in
      yoga_pan_decode (some (pan_wire v unread tail)) 32 (some old) ≡ (ok, some v)
unfolding yoga_pan_decode put_le32 le32 le16
decode-pan_wire port o m vid hd pl a b c d e f g h u tail old hp hv hh hl = ground arith
