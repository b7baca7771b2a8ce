-- ===== src/Ucsi/Samples.antt =====
-- What a decoded UCSI sample says of its message.
use yoga_slim7x_usb.Base.{ℕ, ◌-◌, ◌≤◌, ◌<◌, ◌≡◌, ◌⊎◌, List, take, drop, some, ok, le16, le32, arith}
use yoga_slim7x_usb.Ucsi.{UcsiSample, ucsi_decoded, yoga_ucsi_decode}

-- A sample is stored only from a message of one of the two lengths with a good header and no
-- transport error, its version belongs to that length, and its fields are those of the message.
pub yoga_ucsi_decode_sound :
    (p : List ℕ) (len : ℕ) (old x : UcsiSample)
    → yoga_ucsi_decode (some p) len (some old) ≡ (ok, some x)
    → (((len ≡ 64) × (0x100 ≤ x.version) × (x.version < 0x200))
        ⊎ ((len ≡ 544) × (0x200 ≤ x.version) × (x.version ≤ 0x300)))
      × (le32 p 0 ≡ 32779)
      × (le32 p (len - 4) ≡ 0)
      × (x.version ≡ le16 p 12)
      × (x.cci ≡ le32 p 16)
      × (x.prefix ≡ take 32 (drop 12 p))
unfolding yoga_ucsi_decode ucsi_decoded
yoga_ucsi_decode_sound p len old x h = ground arith
