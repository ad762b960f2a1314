-- ===== src/Handler/Saying.antt =====
-- What the `send…` methods of `HOWHandler` put on the wire, as messages.
use how.Base.{
  ℕ, Bytes, ◌≡◌, List, [], ◌∷◌, ◌++◌, true, false, Option, none, some, arith, Bool-cases, inl, inr,
  if◌then◌else◌, append_assoc, append-nil, sym,
}
use how.Protocol.Message.{
  PayloadType, Headers, Payload, response, start, chunk, failure, type_http_response,
  type_http_response_start, type_http_response_chunk, type_error,
}
use how.Protocol.Wire.{binary_wire, text_wire}
use how.Protocol.Make.{
  new_http_response, new_http_response_start, new_http_response_chunk, new_http_response_end,
  new_error, new_text_http_response, new_text_http_response_start, new_text_http_response_chunk,
  new_text_http_response_end, new_text_error,
}
use how.Protocol.Reading.{
  Message, http_response, http_response_start, http_response_chunk, http_response_end, error,
  read_message, read_envelope, Lossless,
}
use how.Handler.Send.{
  OutFrame, binary, text, Sink, Channel, send_response, send_response_start, send_response_chunk,
  send_error_envelope, send_response_end,
}

-- The message that a frame carries, with its request id; the peer reads only frames of its own mode.
unfoldable pub read_frame : Channel → OutFrame → Option (Bytes × Message)
read_frame h (binary d) = if h.text_mode then none else read_message (binary_wire h.mp) d
read_frame h (text d) = if h.text_mode then read_message (text_wire h.js) d else none

-- The mode of the channel carries what is good.
pub record Reliable (h : Channel) (GoodId : Bytes → Type 0)
    (Good : (t : PayloadType) → Payload t → Type 0) : Type 0 where
  pub binary_ok : h.text_mode ≡ false → Lossless (binary_wire h.mp) GoodId Good
  pub text_ok : h.text_mode ≡ true → Lossless (text_wire h.js) GoodId Good

-- The frames say these messages, in this order, under this id.
abbrev pub Says : Channel → Bytes → List OutFrame → List Message → Type 0
Says h id [] [] = Unit
Says h id (f ∷ fs) (m ∷ ms) = (read_frame h f ≡ some (id, m)) × Says h id fs ms
Says h id _ _ = ⊥

pub Says-append :
    (h : Channel) (id : Bytes) (fs gs : List OutFrame) (ms ns : List Message)
    → Says h id fs ms
    → Says h id gs ns
    → Says h id (fs ++ gs) (ms ++ ns)
Says-append h id [] gs [] ns s t = t
Says-append h id [] gs (m ∷ ms) ns s t = absurd s
Says-append h id (f ∷ fs) gs [] ns s t = absurd s
Says-append h id (f ∷ fs) gs (m ∷ ms) ns s t = (s.0, Says-append h id fs gs ms ns s.1 t)

-- A sink was extended by frames that say these messages.
abbrev pub Extends : Channel → Bytes → Sink → Sink → List Message → Type 0
Extends h id before after ms = (fs : List OutFrame) × (after ≡ before ++ fs) × Says h id fs ms

pub Extends-nil : (h : Channel) (id : Bytes) (sink : Sink) → Extends h id sink sink []
Extends-nil h id sink = ([], sym (append-nil sink), tt)

pub Extends-append :
    (h : Channel) (id : Bytes) (a b c : Sink) (ms ns : List Message)
    → Extends h id a b ms
    → Extends h id b c ns
    → Extends h id a c (ms ++ ns)
Extends-append h id a b c ms ns (fs, e, s) (gs, e', t) =
    (fs ++ gs, ground (arith, append_assoc a fs gs), Says-append h id fs gs ms ns s t)

module _ (h : Channel) {GoodId : Bytes → Type 0} {Good : (t : PayloadType) → Payload t → Type 0}
    (rel : Reliable h GoodId Good) (id : Bytes) (good_id : GoodId id) where
  pub send_response-says :
      (p : Payload response) (sink : Sink)
      → Good response (p)
      → Extends h id sink (send_response h id p sink) (http_response p ∷ [])
  unfolding send_response new_http_response new_text_http_response read_frame read_message
      read_envelope
  send_response-says p sink good = elim (Bool-cases h.text_mode) [
    | inl is_text ↦
        let (b, d, made, sent, received, read) =
          (rel.text_ok is_text).carries response type_http_response id (p) good_id good in
        (text d ∷ [], ground arith, (ground arith, tt))
    | inr is_binary ↦
        let (b, d, made, sent, received, read) =
          (rel.binary_ok is_binary).carries response type_http_response id (p) good_id good in
        (binary d ∷ [], ground arith, (ground arith, tt))
  ]

  pub send_response_start-says :
      (status_code : ℕ) (headers : Headers) (sink : Sink)
      → Good start (record { status_code = status_code; headers = headers })
      → Extends h id sink
          (send_response_start h id status_code headers sink)
          (http_response_start (record { status_code = status_code; headers = headers }) ∷ [])
  unfolding send_response_start new_http_response_start new_text_http_response_start read_frame
      read_message read_envelope
  send_response_start-says status_code headers sink good = elim (Bool-cases h.text_mode) [
    | inl is_text ↦
        let (b, d, made, sent, received, read) =
          (rel.text_ok is_text).carries start type_http_response_start id
            (record { status_code = status_code; headers = headers }) good_id good in
        (text d ∷ [], ground arith, (ground arith, tt))
    | inr is_binary ↦
        let (b, d, made, sent, received, read) =
          (rel.binary_ok is_binary).carries start type_http_response_start id
            (record { status_code = status_code; headers = headers }) good_id good in
        (binary d ∷ [], ground arith, (ground arith, tt))
  ]

  pub send_response_chunk-says :
      (bytes : Bytes) (sink : Sink)
      → Good chunk (record { chunk_data = bytes })
      → Extends h id sink ((send_response_chunk h id bytes sink).1) (http_response_chunk bytes ∷ [])
  unfolding send_response_chunk new_http_response_chunk new_text_http_response_chunk read_frame
      read_message read_envelope
  send_response_chunk-says bytes sink good = elim (Bool-cases h.text_mode) [
    | inl is_text ↦
        let (b, d, made, sent, received, read) =
          (rel.text_ok is_text).carries chunk type_http_response_chunk id
            (record { chunk_data = bytes }) good_id good in
        (text d ∷ [], ground arith, (ground arith, tt))
    | inr is_binary ↦
        let (b, d, made, sent, received, read) =
          (rel.binary_ok is_binary).carries chunk type_http_response_chunk id
            (record { chunk_data = bytes }) good_id good in
        (binary d ∷ [], ground arith, (ground arith, tt))
  ]

  pub send_error_envelope-says :
      (code : ℕ) (message : Bytes) (sink : Sink)
      → Good failure (record { code = code; message = message })
      → Extends h id sink
          (send_error_envelope h id code message sink)
          (error (record { code = code; message = message }) ∷ [])
  unfolding send_error_envelope new_error new_text_error read_frame read_message read_envelope
  send_error_envelope-says code message sink good = elim (Bool-cases h.text_mode) [
    | inl is_text ↦
        let (b, d, made, sent, received, read) =
          (rel.text_ok is_text).carries failure type_error id
            (record { code = code; message = message }) good_id good in
        (text d ∷ [], ground arith, (ground arith, tt))
    | inr is_binary ↦
        let (b, d, made, sent, received, read) =
          (rel.binary_ok is_binary).carries failure type_error id
            (record { code = code; message = message }) good_id good in
        (binary d ∷ [], ground arith, (ground arith, tt))
  ]

  pub send_response_end-says :
      (sink : Sink) → Extends h id sink (send_response_end h id sink) (http_response_end ∷ [])
  unfolding send_response_end new_http_response_end new_text_http_response_end read_frame
      read_message read_envelope
  send_response_end-says sink = elim (Bool-cases h.text_mode) [
    | inl is_text ↦
        let (d, sent, received) = (rel.text_ok is_text).carries_end id good_id in
        (text d ∷ [], ground arith, (ground arith, tt))
    | inr is_binary ↦
        let (d, sent, received) = (rel.binary_ok is_binary).carries_end id good_id in
        (binary d ∷ [], ground arith, (ground arith, tt))
  ]
