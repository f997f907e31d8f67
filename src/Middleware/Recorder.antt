-- ===== src/Middleware/Recorder.antt =====
-- statusRecorder against what the handler does.
use lynx_sentinel.Base.{
  ℕ, String, ◌≡◌, refl, sym, ◌∙◌, true, List, [], ◌∷◌, ◌++◌, arith, append-nil, append_assoc,
}
use lynx_sentinel.Middleware.{
  WriterCall, header, content, StatusRecorder, new_recorder, write_header, write_content,
  record_call, record_calls,
}

-- The status that the first call decides: its own if it writes the header, and 200 if it writes
-- content or if there is no call.
unfoldable pub first_status : List WriterCall → ℕ
first_status [] = 200
first_status (header code ∷ calls) = code
first_status (content text ∷ calls) = 200

record_calls-forwarded :
    (calls : List WriterCall) (sr : StatusRecorder)
    → (record_calls sr calls).forwarded ≡ sr.forwarded ++ calls
unfolding record_calls record_call write_header write_content
record_calls-forwarded [] sr = sym (append-nil sr.forwarded)
record_calls-forwarded (header code ∷ calls) sr =
    record_calls-forwarded calls (write_header code sr)
    ∙ append_assoc sr.forwarded (header code ∷ []) calls
record_calls-forwarded (content text ∷ calls) sr =
    record_calls-forwarded calls (write_content text sr)
    ∙ append_assoc sr.forwarded (content text ∷ []) calls

write_header-decided :
    (code : ℕ) (sr : StatusRecorder)
    → sr.wrote_header ≡ true
    → ((write_header code sr).status ≡ sr.status) × ((write_header code sr).wrote_header ≡ true)
unfolding write_header
write_header-decided code sr e = ground arith

write_content-decided :
    (text : String) (sr : StatusRecorder)
    → sr.wrote_header ≡ true
    → ((write_content text sr).status ≡ sr.status) × ((write_content text sr).wrote_header ≡ true)
unfolding write_content
write_content-decided text sr e = ground arith

-- Once the header is written the status stays.
record_calls-decided :
    (calls : List WriterCall) (sr : StatusRecorder)
    → sr.wrote_header ≡ true
    → (record_calls sr calls).status ≡ sr.status
unfolding record_calls record_call write_header write_content
record_calls-decided [] sr e = refl
record_calls-decided (header code ∷ calls) sr e =
    let (same, decided) = write_header-decided code sr e in
    record_calls-decided calls (write_header code sr) decided ∙ same
record_calls-decided (content text ∷ calls) sr e =
    let (same, decided) = write_content-decided text sr e in
    record_calls-decided calls (write_content text sr) decided ∙ same

-- After any calls of a handler a new statusRecorder has the status of the first of them, which is
-- 200 for a write of content, or 200 without any, and has forwarded all of them in order.
pub record_calls-new :
    (calls : List WriterCall)
    → ((record_calls new_recorder calls).status ≡ first_status calls)
      × ((record_calls new_recorder calls).forwarded ≡ calls)
unfolding record_calls record_call write_header write_content new_recorder first_status
record_calls-new [] = (refl, refl)
record_calls-new (header code ∷ calls) = (
  record_calls-decided calls (write_header code new_recorder) refl,
  record_calls-forwarded calls (write_header code new_recorder),
)
record_calls-new (content text ∷ calls) = (
  record_calls-decided calls (write_content text new_recorder) refl,
  record_calls-forwarded calls (write_content text new_recorder),
)
