-- ===== src/Ucsi.antt =====
-- snapshot/kernel/drivers/soc/qcom/yoga_ucsi_packet.h: a sample of the UCSI mailbox; its transport
-- and commands, of yoga_ucsi_query.h, are in Ucsi/Query.
pub mod Samples
pub mod Query
mod Tests
use yoga_slim7x_usb.Base.{
  ℕ, ◌+◌, ◌-◌, List, Option, none, some, Bool, ◌&&◌, ◌||◌, ltb, leb, ◌==◌, ◌/=◌, if◌then◌else◌,
  take, drop, Status, err, emsgsize, ebadmsg, eremoteio, eprotonosupport, Result, done, fail, Out,
  finish, le16, le32,
}

-- `struct yoga_ucsi_sample`; `prefix` has 32 bytes.
pub record UcsiSample : Type 0 where
  pub version : ℕ
  pub cci : ℕ
  pub prefix : List ℕ

-- The versions that do not belong to the length of the message.
abbrev pub version_refused : (len version : ℕ) → Bool
version_refused len version =
    ((len == 64) && (ltb version 0x100 || leb 0x200 version))
    || ((len == 544) && (ltb version 0x200 || ltb 0x300 version))

unfoldable pub ucsi_decoded : List ℕ → (len : ℕ) → Result UcsiSample
ucsi_decoded p len =
    if (len /= 64) && (len /= 544)
    then fail emsgsize
    else (if (le32 p 0 /= 32779) || (le32 p 4 /= 1) || (le32 p 8 /= 0x11)
        then fail ebadmsg
        else (if le32 p (len - 4) /= 0
            then fail eremoteio
            else (if version_refused len (le16 p 12)
                then fail eprotonosupport
                else done (record {
                  version = le16 p 12;
                  cci = le32 p 16;
                  prefix = take 32 (drop 12 p);
                }))))

-- `yoga_ucsi_decode`.
unfoldable pub yoga_ucsi_decode :
    Option (List ℕ) → (len : ℕ) → Out UcsiSample → Status × Out UcsiSample
yoga_ucsi_decode none len out = (err emsgsize, out)
yoga_ucsi_decode (some p) len none = (err emsgsize, none)
yoga_ucsi_decode (some p) len (some old) = finish (ucsi_decoded p len) (some old)
