-- ===== src/Protocol/Make.antt =====
-- golang/protocol/message.go: the constructors of envelopes, `NewHTTPRequest` to `NewError`, and the
-- text-mode ones, which are the same over the other encoder.
use how.Base.{ℕ, Bytes, []}
use how.Outcome.{Result, ok, ◌>>=◌}
use how.Protocol.Message.{
  Envelope, Headers, Payload, request, response, start, chunk, failure, type_http_request,
  type_http_response, type_http_response_start, type_http_response_chunk, type_http_response_end,
  type_error,
}
use how.Protocol.Codecs.{MsgPack, Json}
use how.Protocol.Wire.{encode_payload, encode_text_payload}

module _ (mp : MsgPack) where
  unfoldable pub new_http_request : Bytes → Payload request → Result Envelope
  new_http_request id req = do
    payload ← encode_payload mp request req
    ok (record { type = type_http_request; request_id = id; payload = payload })

  unfoldable pub new_http_response : Bytes → Payload response → Result Envelope
  new_http_response id resp = do
    payload ← encode_payload mp response resp
    ok (record { type = type_http_response; request_id = id; payload = payload })

  unfoldable pub new_http_response_start : Bytes → ℕ → Headers → Result Envelope
  new_http_response_start id status_code headers = do
    payload ← encode_payload mp start (record { status_code = status_code; headers = headers })
    ok (record { type = type_http_response_start; request_id = id; payload = payload })

  unfoldable pub new_http_response_chunk : Bytes → Bytes → Result Envelope
  new_http_response_chunk id bytes = do
    payload ← encode_payload mp chunk (record { chunk_data = bytes })
    ok (record { type = type_http_response_chunk; request_id = id; payload = payload })

  unfoldable pub new_error : Bytes → ℕ → Bytes → Result Envelope
  new_error id code message = do
    payload ← encode_payload mp failure (record { code = code; message = message })
    ok (record { type = type_error; request_id = id; payload = payload })

-- `NewHTTPResponseEnd` encodes no payload and cannot fail.
unfoldable pub new_http_response_end : Bytes → Envelope
new_http_response_end id = record { type = type_http_response_end; request_id = id; payload = [] }

module _ (js : Json) where
  unfoldable pub new_text_http_request : Bytes → Payload request → Result Envelope
  new_text_http_request id req = do
    payload ← encode_text_payload js request req
    ok (record { type = type_http_request; request_id = id; payload = payload })

  unfoldable pub new_text_http_response : Bytes → Payload response → Result Envelope
  new_text_http_response id resp = do
    payload ← encode_text_payload js response resp
    ok (record { type = type_http_response; request_id = id; payload = payload })

  unfoldable pub new_text_http_response_start : Bytes → ℕ → Headers → Result Envelope
  new_text_http_response_start id status_code headers = do
    payload ← encode_text_payload js start (record { status_code = status_code; headers = headers })
    ok (record { type = type_http_response_start; request_id = id; payload = payload })

  unfoldable pub new_text_http_response_chunk : Bytes → Bytes → Result Envelope
  new_text_http_response_chunk id bytes = do
    payload ← encode_text_payload js chunk (record { chunk_data = bytes })
    ok (record { type = type_http_response_chunk; request_id = id; payload = payload })

  unfoldable pub new_text_error : Bytes → ℕ → Bytes → Result Envelope
  new_text_error id code message = do
    payload ← encode_text_payload js failure (record { code = code; message = message })
    ok (record { type = type_error; request_id = id; payload = payload })

unfoldable pub new_text_http_response_end : Bytes → Envelope
new_text_http_response_end id = record {
  type = type_http_response_end;
  request_id = id;
  payload = [];
}
