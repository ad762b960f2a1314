-- ===== src/Caller/OneMode.antt =====
-- `Request` of golang/client/client.go keeps to the mode of its caller (spec.md, section 5.1).
use how.Base.{
  Bytes, Bool, true, false, ◌≡◌, refl, sym, subst, if◌then◌else◌, List, [], ◌∷◌, ◌++◌, arith,
  append-nil, Bool-cases, Option-cases, inl, inr, All,
}
use how.Outcome.{Result-cases}
use how.Protocol.Message.{Payload, request}
use how.Protocol.Codecs.{MsgPack, Json}
use how.Handler.Send.{OutFrame, binary, text, Transport}
use how.Caller.{Caller, Mode, binary_mode, text_mode, pending_of, register, remove_pending}
use how.Caller.Request.{Begun, begin_request, request_sent}
use how.Caller.Modes.{request_by_mode}

-- A frame of text mode (`true`) or of binary mode.
abbrev pub IsOfMode : Bool → OutFrame → Type 0
IsOfMode is_text (binary d) = is_text ≡ false
IsOfMode is_text (text d) = is_text ≡ true

abbrev other_map : Bool → Bool
other_map true = false
other_map false = true

-- The call sent frames of one mode only, and left the pending map of the other mode alone.
abbrev pub KeepsTo : Bool → Caller → Caller → Type 0
KeepsTo is_text before after =
    ((fs : List OutFrame) × (after.sent ≡ before.sent ++ fs) × All (IsOfMode is_text) fs)
    × (pending_of (other_map is_text) after ≡ pending_of (other_map is_text) before)

module _ (m : Mode) (sender : Transport) (id : Bytes) (req : Payload request) (c : Caller)
    (frames : (d : Bytes) → IsOfMode m.is_text (m.frame d)) where
  begin-other_map :
      pending_of (other_map m.is_text) (begin_request m sender id req c).1
      ≡ pending_of (other_map m.is_text) c
  unfolding begin_request request_sent register remove_pending
  begin-other_map = elim (Bool-cases m.is_text) [ inl e ↦ ground arith | inr e ↦ ground arith ]

  begin-frames :
      (fs : List OutFrame) × ((begin_request m sender id req c).1.sent ≡ c.sent ++ fs)
      × All (IsOfMode m.is_text) fs
  unfolding begin_request request_sent register remove_pending
  begin-frames = elim (Option-cases c.close_err) [
    | inr (e, shut) ↦ ([], ground (arith, append-nil c.sent), tt)
    | inl open_ ↦ elim (Result-cases (m.new_request id req)) [
      | inr (e, broken) ↦ ([], ground (arith, append-nil c.sent), tt)
      | inl (env, made) ↦ elim (Result-cases (m.wire.marshal env)) [
        | inr (e, broken) ↦ ([], ground (arith, append-nil c.sent), tt)
        | inl (bytes, packed) ↦ (m.frame bytes ∷ [], ground arith, (frames bytes, tt))
      ]
    ]
  ]

-- A call of `Request` hands the sender no frame but of its caller's own mode, and does not touch the
-- pending map of the other mode, on every branch.
pub request_keeps_mode :
    (mp : MsgPack) (js : Json) (sender : Transport) (id : Bytes) (req : Payload request)
    (c : Caller)
    → KeepsTo c.text_mode c (request_by_mode mp js sender id req c).1
unfolding request_by_mode
request_keeps_mode mp js sender id req c =
    let begun : Bool → Begun × Caller = λ t.
      if t
      then begin_request (text_mode js) sender id req c
      else begin_request (binary_mode mp) sender id req c in
    elim (Bool-cases c.text_mode) [
      | inl is_text ↦
          subst (λ t. KeepsTo t c (begun t).1) (sym is_text)
            (
              begin-frames (text_mode js) sender id req c (λ d. refl),
              begin-other_map (text_mode js) sender id req c (λ d. refl),
            )
      | inr is_binary ↦
          subst (λ t. KeepsTo t c (begun t).1) (sym is_binary)
            (
              begin-frames (binary_mode mp) sender id req c (λ d. refl),
              begin-other_map (binary_mode mp) sender id req c (λ d. refl),
            )
    ]
