-- ===== src/Ucsi/Tests.antt =====
-- Concrete queries against a mailbox that answers a connector status and then an acknowledgement.
use yoga_slim7x_usb.Base.{
  ℕ, ◌+◌, ◌*◌, ◌^◌, ◌≡◌, refl, List, [], ◌∷◌, ◌++◌, some, ◌==◌, if◌then◌else◌, ok, positive, le16,
  le32, put_le32, take, drop, replicate,
}
use yoga_slim7x_usb.Ucsi.{UcsiSample, yoga_ucsi_decode, ucsi_decoded}
use yoga_slim7x_usb.Ucsi.Query.{
  UqIo, uq_read, poll_loop, uq_poll, poll_verdict, acknowledge, submit, kind_result, uq_allowed,
  uq_command_kind, uq_pending, as_status, reply_length,
}
use yoga_slim7x_usb.Ucsi.Query.Writes.{logged, Written, uq_command_kind_writes}
use yoga_slim7x_usb.Ucsi.Query.Replies.{ReturnsErrno, IsReply, uq_command_kind_replies}

abbrev blank : UcsiSample
blank = record { version = 0; cci = 0; prefix = [] }

-- The indicator word after `n` reads: connector 1 is pending, the command is busy, it is complete
-- with nine bytes, and its acknowledgement is accepted.
abbrev cci_at : ℕ → ℕ
cci_at n =
    if n == 0
    then 2
    else (if n == 1 then 2 ^ 28 else (if n == 2 then 2 ^ 31 + 9 * 2 ^ 8 + 2 else 2 ^ 29))

-- A mailbox whose state is the number of reads.
abbrev mailbox : UqIo ℕ
mailbox = record {
  write = λ n cmd. (ok, n);
  read = λ n x. (ok, (record { version = 0x0120; cci = cci_at n; prefix = [] }, n + 1));
  pause = λ n. n;
  deadline = λ n. n;
}

mailbox-ReturnsErrno : ReturnsErrno mailbox
mailbox-ReturnsErrno = record { write_errno = λ s cmd n h. cc; read_errno = λ s x n h. cc }

abbrev status_reply : UcsiSample
status_reply = record { version = 0x0120; cci = 2 ^ 31 + 9 * 2 ^ 8 + 2; prefix = [] }

status_query : uq_command_kind mailbox 0x10012 1 blank blank 0 ≡ (positive 9, (status_reply, 4))
unfolding uq_command_kind uq_allowed uq_read submit uq_poll poll_loop poll_verdict kind_result
    acknowledge
status_query = refl

pending_query : uq_pending mailbox 2 blank 0 ≡ (positive 1, 1)
unfolding uq_pending uq_read
pending_query = refl

uq_command_kind_writes_example :
    let (ret, (reply', (t, log'))) =
      uq_command_kind (logged mailbox) 0x10012 1 blank blank (0, []) in
    Written 0x10012 1 reply'.cci [] log'
uq_command_kind_writes_example = uq_command_kind_writes mailbox 0x10012 1 blank blank 0 []

uq_command_kind_replies_example :
    IsReply 1 status_reply × (positive 9 ≡ as_status (reply_length status_reply.cci))
uq_command_kind_replies_example =
    uq_command_kind_replies mailbox 0x10012 1 blank blank status_reply 0 4 (positive 9)
      mailbox-ReturnsErrno status_query refl

-- A message of 64 bytes, of version 1.2.
abbrev message : List ℕ
message =
    put_le32 32779 ++ (put_le32 1 ++ (put_le32 0x11 ++ (0x20 ∷ 0x01 ∷ 0 ∷ 0 ∷ replicate 48 0)))

abbrev message_sample : UcsiSample
message_sample = record { version = 0x0120; cci = 0; prefix = take 32 (drop 12 message) }

message_decodes : yoga_ucsi_decode (some message) 64 (some blank) ≡ (ok, some message_sample)
unfolding yoga_ucsi_decode ucsi_decoded le16 le32 put_le32
message_decodes = refl
