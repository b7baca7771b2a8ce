-- ===== src/Pdlog.antt =====
-- snapshot/kernel/drivers/soc/qcom/yoga_pdlog_policy.h: the bounded reader of the power-delivery
-- log, its request, its reply decoder and its state machine.
pub mod Text
pub mod States
mod Tests
use yoga_slim7x_usb.Base.{
  ℕ, zero, suc, ◌+◌, List, [], ◌∷◌, ◌++◌, Bool, true, false, ◌&&◌, ◌||◌, not, leb, ◌==◌, ◌/=◌,
  if◌then◌else◌, Status, ok, err, eperm, emsgsize, ebadmsg, is_ok, length, drop, le32, put_le32,
  byte_at,
}

-- `PDLOG_SIZE`.
abbrev pub pdlog_size : ℕ
pdlog_size = 8192

-- `PDLOG_MAX_REQUESTS`.
abbrev pub pdlog_max_requests : ℕ
pdlog_max_requests = 128

-- `struct pdlog_state`; the field `error` is an `int` that is 0 until an error is kept.
pub record PdlogState : Type 0 where
  pub attempted : Bool
  pub active : Bool
  pub awaiting : Bool
  pub limited : Bool
  pub requests : ℕ
  pub replies : ℕ
  pub error : Status

-- `pdlog_start`.
unfoldable pub pdlog_start : PdlogState → Bool → Status × PdlogState
pdlog_start s allowed =
    if not allowed || s.attempted
    then (err eperm, s)
    else (ok, record s { attempted = true; active = true })

-- `pdlog_stop`.
unfoldable pub pdlog_stop : PdlogState → Status → PdlogState
pdlog_stop s error =
    let t = record s { active = false; awaiting = false } in
    if not (is_ok error) && is_ok s.error then record t { error = error } else t

-- `pdlog_next`.
unfoldable pub pdlog_next : PdlogState → Bool → Bool × PdlogState
unfolding pdlog_stop
pdlog_next s expired =
    if not s.active || s.awaiting || not (is_ok s.error)
    then (false, s)
    else (if expired || leb pdlog_max_requests s.requests
        then (false, pdlog_stop (record s { limited = true }) ok)
        else (true, record s { requests = s.requests + 1; awaiting = true }))

-- `pdlog_request`: the 16 bytes that it writes.
unfoldable pub pdlog_request : List ℕ
pdlog_request = put_le32 32778 ++ (put_le32 1 ++ (put_le32 0x18 ++ put_le32 pdlog_size))

-- The character that the loop of `pdlog_decode` stores for a byte of the log.
unfoldable pub shown : ℕ → ℕ
shown c = if (leb 32 c && leb c 126) || (c == 10) || (c == 9) then c else b'.'

-- The loop of `pdlog_decode`, from the byte `i` on, with the rounds that are left.
unfoldable pub copy_text : (rounds : ℕ) → List ℕ → List ℕ
unfolding shown
copy_text zero p = []
copy_text (suc n) [] = []
copy_text (suc n) (c ∷ p) = let rest = copy_text n p in if c == 0 then [] else (shown c ∷ rest)

-- `pdlog_decode`; the list is the caller's text buffer, with what the call writes into it.
unfoldable pub pdlog_decode : List ℕ → ℕ → List ℕ → Status × List ℕ
pdlog_decode p len text =
    if len /= pdlog_size + 12
    then (err emsgsize, text)
    else (if le32 p 0 /= 32778 || le32 p 4 /= 1 || le32 p 8 /= 0x18
        then (err ebadmsg, text)
        else (let written = copy_text pdlog_size (drop 12 p) in
            (ok, written ++ (0 ∷ drop (length written + 1) text))))

-- `pdlog_reply`.
unfoldable pub pdlog_reply : PdlogState → Status → Bool × PdlogState
unfolding pdlog_stop
pdlog_reply s error =
    if not s.active || not s.awaiting || not (is_ok s.error)
    then (false, s)
    else (let t = record s { awaiting = false } in
        (
          true,
          (if not (is_ok error)
              then pdlog_stop t error
              else (record t { replies = s.replies + 1 })),
        ))
