-- ===== src/Caller/Modes.antt =====
-- golang/client/client.go: `Request`, and the methods of `Caller` in either mode. The two families differ
-- in the codec, the pending map, the method of the sender and two labels of errors, so each is the common code at a mode.
use how.Base.{Bytes, List, if◌then◌else◌}
use how.Protocol.Message.{Envelope, Payload, request}
use how.Protocol.Codecs.{MsgPack, Json}
use how.Handler.Send.{Transport}
use how.Caller.{Caller, binary_mode, text_mode, handle_message}
use how.Caller.Request.{
  Begun, Returned, Stopped, begin_request, request_sent, first_frame, first_stopped,
}
use how.Caller.Pump.{Pipe, PipeOp, Pumped, pump_frames}

module _ (mp : MsgPack) where
  unfoldable pub request_binary : Transport → Bytes → Payload request → Caller → Begun × Caller
  request_binary sender id req c = request_sent (binary_mode mp) sender id req c

  unfoldable pub first_binary : Bytes → Envelope → Caller → Returned × Caller
  first_binary id first c = first_frame (binary_mode mp) id first c

  unfoldable pub stopped_binary : Bytes → Stopped → Caller → Returned × Caller
  stopped_binary id stopped c = first_stopped (binary_mode mp) id stopped c

  unfoldable pub pump_binary : Pipe → List Envelope → List PipeOp → Pumped
  pump_binary pipe msgs ops = pump_frames (binary_mode mp) pipe msgs ops

  unfoldable pub handle_binary_message : Bytes → Caller → Caller
  handle_binary_message bytes c = handle_message (binary_mode mp) bytes c

module _ (js : Json) where
  unfoldable pub request_text : Transport → Bytes → Payload request → Caller → Begun × Caller
  request_text sender id req c = request_sent (text_mode js) sender id req c

  unfoldable pub first_text : Bytes → Envelope → Caller → Returned × Caller
  first_text id first c = first_frame (text_mode js) id first c

  unfoldable pub stopped_text : Bytes → Stopped → Caller → Returned × Caller
  stopped_text id stopped c = first_stopped (text_mode js) id stopped c

  unfoldable pub pump_text : Pipe → List Envelope → List PipeOp → Pumped
  pump_text pipe msgs ops = pump_frames (text_mode js) pipe msgs ops

  unfoldable pub handle_text_message : Bytes → Caller → Caller
  handle_text_message bytes c = handle_message (text_mode js) bytes c

-- `Request`, up to its `wait`
unfoldable pub request_by_mode :
    MsgPack → Json → Transport → Bytes → Payload request → Caller → Begun × Caller
request_by_mode mp js sender id req c =
    if c.text_mode
    then begin_request (text_mode js) sender id req c
    else begin_request (binary_mode mp) sender id req c
