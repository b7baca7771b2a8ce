-- ===== src/Pdlog/Tests.antt =====
-- Concrete runs of the log reader.
use yoga_slim7x_usb.Base.{
  ℕ, ◌≤◌, ◌≡◌, refl, inl, List, [], ◌∷◌, ◌++◌, true, false, ok, err, etimedout, take, arith,
}
use yoga_slim7x_usb.Pdlog.{
  PdlogState, pdlog_start, pdlog_next, pdlog_reply, pdlog_stop, pdlog_request, pdlog_decode,
}
use yoga_slim7x_usb.Pdlog.States.{
  Call, start, next, reply, call, calls, sent, zeroed, IsSound, any_calls-IsSound,
}
use yoga_slim7x_usb.Pdlog.Text.{pdlog_decode-request}

-- A start, one chunk, a second request whose reply fails, and a late reply.
abbrev session : List Call
session = start true ∷ next false ∷ reply ok ∷ next false ∷ reply (err etimedout) ∷ reply ok ∷ []

session_failed : (calls zeroed session).error ≡ err etimedout
unfolding calls call pdlog_start pdlog_next pdlog_reply pdlog_stop
session_failed = refl

abbrev started : PdlogState
started = record zeroed { attempted = true; active = true }

abbrev stopped : PdlogState
stopped = record started { active = false }

any_calls-IsSound_example :
    IsSound (calls zeroed session)
    × (sent zeroed session ≡ (calls zeroed session).requests)
    × (sent zeroed session ≤ 128)
any_calls-IsSound_example = any_calls-IsSound session

-- The reply that carries the text "ok", an escape character and a line feed.
abbrev log_reply : List ℕ
log_reply = take 12 pdlog_request ++ (b'o' ∷ b'k' ∷ 27 ∷ 10 ∷ 0 ∷ [])

pdlog_decode-request_example :
    pdlog_decode
      (take 12 pdlog_request ++ ((b'o' ∷ b'k' ∷ []) ++ (0 ∷ 9 ∷ [])))
      8204
      (1 ∷ 1 ∷ 1 ∷ 7 ∷ [])
    ≡ (ok, b'o' ∷ b'k' ∷ 0 ∷ 7 ∷ [])
pdlog_decode-request_example =
    pdlog_decode-request (b'o' ∷ b'k' ∷ []) (9 ∷ []) (1 ∷ 1 ∷ 1 ∷ 7 ∷ [])
      (inl (omega arith, omega arith), (inl (omega arith, omega arith), tt)) (omega arith)
