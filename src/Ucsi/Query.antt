-- ===== src/Ucsi/Query.antt =====
-- snapshot/kernel/drivers/soc/qcom/yoga_ucsi_query.h: the allow list of UCSI commands, the bounded
-- poll, one command with its acknowledgement, and the query for a pending connector. The callbacks
-- of `struct uq_io` are parameters and act on a context of any type.
pub mod Writes
pub mod Replies
use yoga_slim7x_usb.Base.{
  ℕ, zero, suc, ◌*◌, ◌^◌, bit_or, Option, none, some, Bool, true, false, ◌&&◌, ◌||◌, not, ltb, ◌==◌,
  ◌/=◌, if◌then◌else◌, field, bit, Status, ok, err, positive, eperm, ebusy, eproto, erange,
  eprotonosupport, eopnotsupp, eremoteio, etimedout, checked,
}
use yoga_slim7x_usb.Ucsi.{UcsiSample}

abbrev pub uq_notify : ℕ
uq_notify = 0x10005

abbrev pub uq_notify_ready : ℕ
uq_notify_ready = 0xdb050005

abbrev pub uq_ack : ℕ
uq_ack = 0x20004

abbrev pub uq_ack_event : ℕ
uq_ack_event = 0x30004

-- `struct uq_io` with its context; `read` gets what the sample holds and returns what it then holds.
pub record UqIo (S : Type 0) : Type 0 where
  pub write : S → ℕ → Status × S
  pub read : S → UcsiSample → Status × (UcsiSample × S)
  pub pause : S → S
  pub deadline : S → S

-- The commands that are admitted for a port.
abbrev pub port_allowed : (port cmd : ℕ) → Bool
port_allowed port cmd =
    (cmd == bit_or (port * 2 ^ 16) 7)
    || (cmd == bit_or (port * 2 ^ 16) 0x11)
    || (cmd == bit_or (port * 2 ^ 16) 0x12)
    || (cmd == bit_or (port * 2 ^ 16) 0x0e)
    || (cmd == bit_or (bit_or (port * 2 ^ 24) (1 * 2 ^ 16)) 0x0c)
    || (cmd == bit_or (bit_or (port * 2 ^ 24) (2 * 2 ^ 16)) 0x0c)

-- `uq_allowed`.
unfoldable pub uq_allowed : ℕ → Bool
uq_allowed cmd =
    (cmd == uq_notify)
    || (cmd == uq_notify_ready)
    || (cmd == uq_ack)
    || (cmd == uq_ack_event)
    || (cmd == 6)
    || port_allowed 1 cmd
    || port_allowed 2 cmd
    || port_allowed 3 cmd

-- `cci & ~(UQ_ACKED | 0xfeU)`: bit 0, the bits 8 to 28, or the bits 30 and 31.
abbrev pub left_over : ℕ → Bool
left_over cci = (field cci 0 1 /= 0) || (field cci 8 21 /= 0) || (field cci 30 2 /= 0)

-- `cci & ~(UQ_COMPLETE | UQ_ERROR | UQ_ACKED | UQ_UNSUPPORTED | 0xfffeU)`: bit 0, the bits 16 to 24,
-- or the bits 26 to 28.
abbrev pub unknown_bits : ℕ → Bool
unknown_bits cci = (field cci 0 1 /= 0) || (field cci 16 9 /= 0) || (field cci 26 3 /= 0)

-- The length of a reply, and the connector of an event.
abbrev pub reply_length : ℕ → ℕ
reply_length cci = field cci 8 8

abbrev pub event_of_cci : ℕ → ℕ
event_of_cci cci = field cci 1 7

-- What a round of `uq_poll` decides on a sample; `none` polls again.
unfoldable pub poll_verdict : (ack : Bool) → ℕ → Option Status
poll_verdict ack cci =
    if bit cci 28
    then none
    else (if unknown_bits cci
        then some (err eproto)
        else (if ack && bit cci 29
            then some (if left_over cci then err eproto else ok)
            else (if not ack && bit cci 31
                then some (if bit cci 29 || ltb 16 (reply_length cci) then err eproto else ok)
                else none)))

-- `ret < 0`.
abbrev pub is_negative : Status → Bool
is_negative (err e) = true
is_negative _ = false

-- A length as the result of a function.
abbrev pub as_status : ℕ → Status
as_status n = if n == 0 then ok else positive n

-- `result` before the test for an event.
abbrev pub plain_result : ℕ → Status
plain_result cci =
    if bit cci 30
    then err eremoteio
    else (if bit cci 25 then err eopnotsupp else as_status (reply_length cci))

-- `result` of a reply, for the pending connector or for 0.
unfoldable pub kind_result : (event cci : ℕ) → Status
kind_result event cci =
    if (event /= 0)
      && not (is_negative (plain_result cci))
      && (ltb (reply_length cci) 9 || ltb 16 (reply_length cci) || (event_of_cci cci /= event))
    then err eproto
    else plain_result cci

-- The two tests of the arguments of `uq_command_kind`.
abbrev pub command_refused : (cmd event : ℕ) → Bool
command_refused cmd event =
    not (uq_allowed cmd)
    || (cmd == uq_ack)
    || (cmd == uq_ack_event)
    || ((event /= 0) && (ltb 3 event || (cmd /= bit_or (event * 2 ^ 16) 0x12)))

module _ {S : Type 0} (io : UqIo S) where
  -- `uq_read`.
  unfoldable pub uq_read : S → UcsiSample → Status × (UcsiSample × S)
  uq_read s sample =
      checked (io.read s sample)
        (λ (p : UcsiSample × S). (if p.0.version == 0x0120 then ok else err eprotonosupport, p))
        (λ ret p. (ret, p))

  -- The loop of `uq_poll`, with the rounds that are left.
  unfoldable pub poll_loop : (left : ℕ) → Bool → S → UcsiSample → Status × (UcsiSample × S)
  poll_loop zero ack s sample = (err etimedout, (sample, s))
  poll_loop (suc left) ack s sample =
      checked (uq_read s sample)
        (λ (p : UcsiSample × S). elim (poll_verdict ack p.0.cci) [
          | some ret ↦ (ret, p)
          | none ↦ poll_loop left ack (io.pause p.1) p.0
        ])
        (λ ret p. (ret, p))

  -- `uq_poll`.
  unfoldable pub uq_poll : Bool → S → UcsiSample → Status × (UcsiSample × S)
  uq_poll ack s sample = poll_loop 50 ack s sample

  -- The end of `uq_command_kind`, once the reply has its result.
  unfoldable pub acknowledge :
      (event : ℕ) → Status → (reply sample : UcsiSample) → S → Status × (UcsiSample × S)
  acknowledge event result reply sample s =
      checked
        (io.write (io.deadline s)
          (if (event /= 0) && not (is_negative result) then uq_ack_event else uq_ack))
        (λ t.
          checked (uq_poll true t sample) (λ (p : UcsiSample × S). (result, (reply, p.1)))
            (λ ret p. (ret, (reply, p.1))))
        (λ ret t. (ret, (reply, t)))

  -- The command itself, once the mailbox is known to be free; `sample` was read before.
  unfoldable pub submit :
      (cmd event : ℕ) → (reply sample : UcsiSample) → S → Status × (UcsiSample × S)
  submit cmd event reply sample s =
      checked (io.write s cmd)
        (λ t.
          checked (uq_poll false t reply)
            (λ (p : UcsiSample × S). acknowledge event (kind_result event p.0.cci) p.0 sample p.1)
            (λ ret p. (ret, p)))
        (λ ret t. (ret, (reply, t)))

  -- `uq_command_kind`; `sample` is what its own variable holds before it is read.
  unfoldable pub uq_command_kind :
      (cmd event : ℕ) → (reply sample : UcsiSample) → S → Status × (UcsiSample × S)
  uq_command_kind cmd event reply sample s =
      if command_refused cmd event
      then (err eperm, (reply, s))
      else checked (uq_read (io.deadline s) sample)
          (λ (p : UcsiSample × S).
            if left_over p.0.cci
            then (err ebusy, (reply, p.1))
            else (if (event /= 0) && (event_of_cci p.0.cci /= event)
                then (err eproto, (reply, p.1))
                else submit cmd event reply p.0 p.1))
          (λ ret p. (ret, (reply, p.1)))

  -- `uq_command`.
  unfoldable pub uq_command :
      (cmd : ℕ) → (reply sample : UcsiSample) → S → Status × (UcsiSample × S)
  uq_command cmd reply sample s = uq_command_kind cmd 0 reply sample s

  -- `uq_pending`.
  unfoldable pub uq_pending : (connectors : ℕ) → UcsiSample → S → Status × S
  uq_pending connectors sample s =
      if (connectors == 0) || ltb 3 connectors
      then (err erange, s)
      else checked (uq_read (io.deadline s) sample)
          (λ (p : UcsiSample × S).
            if left_over p.0.cci
            then (err ebusy, p.1)
            else (if ltb connectors (event_of_cci p.0.cci)
                then (err eproto, p.1)
                else (as_status (event_of_cci p.0.cci), p.1)))
          (λ ret p. (ret, p.1))
