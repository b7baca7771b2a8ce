-- ===== src/Native.antt =====
-- snapshot/kernel/drivers/thunderbolt/x1-native-policy.h: which routers, storage devices and
-- connect words the native driver admits, and when it may rescan.
pub mod Laws
mod Tests
use yoga_slim7x_usb.Base.{
  ℕ, ◌%◌, ◌^◌, List, [], Option, none, some, Bool, true, false, ◌&&◌, ◌||◌, not, ◌==◌, ◌/=◌,
  if◌then◌else◌, Status, ok, err, eperm, enodev, etimedout, enotconn, eagain, Errno, is_ok, byte_at,
}

-- `X1_NATIVE_LACIE_UID` of the public snapshot.
abbrev pub public_lacie_uid : ℕ
public_lacie_uid = 0

-- `x1_native_route_allowed`.
unfoldable pub x1_native_route_allowed : ℕ → Status
x1_native_route_allowed route = if (route == 0) || (route == 2) then ok else err eperm

-- `x1_native_header_allowed`; `byte_at h i` reads the word `h[i]`.
unfoldable pub x1_native_header_allowed : ℕ → Option (List ℕ) → Status
unfolding x1_native_route_allowed
x1_native_header_allowed route none = err eperm
x1_native_header_allowed route (some h) =
    if not (is_ok (x1_native_route_allowed route))
    then err eperm
    else (if route == 0
        then (if (byte_at h 0 == 0x093805c6) && (byte_at h 1 % 2 ^ 20 == 0x1c11c)
            then ok
            else err enodev)
        else (if (byte_at h 0 == 0x113b059f) && (byte_at h 1 % 2 ^ 20 == 0x14120)
            then ok
            else err enodev))

-- `x1_native_uid_allowed`, at the identity that the build defines.
unfoldable pub x1_native_uid_allowed : (lacie_uid route uid : ℕ) → Status
x1_native_uid_allowed lacie_uid route uid =
    if (lacie_uid /= 0) && (route == 2) && (uid == lacie_uid) then ok else err enodev

-- `x1_native_connect_word_allowed`.
unfoldable pub x1_native_connect_word_allowed : ℕ → Status
x1_native_connect_word_allowed word = if (word == 0x2501) || (word == 0x2701) then ok else err eperm

-- `error == -ETIMEDOUT || error == -ENOTCONN || error == -EAGAIN`.
abbrev pub is_transient : Status → Bool
is_transient (err etimedout) = true
is_transient (err enotconn) = true
is_transient (err eagain) = true
is_transient _ = false

-- `x1_native_rescan_allowed`.
unfoldable pub x1_native_rescan_allowed : Bool → Bool → Status → Bool
x1_native_rescan_allowed used preconfig error = not used && preconfig && is_transient error
