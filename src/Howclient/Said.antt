-- ===== src/Howclient/Said.antt =====
-- What the connection of golang/cmd/howclient/main.go was told under one request id.
use how.Base.{Bytes, ◌≡◌, refl, List, [], ◌∷◌, map, Option, none, false}
use how.Outcome.{Error}
use how.Protocol.Codecs.{MsgPack, Json}
use how.Protocol.Wire.{binary_wire}
use how.Protocol.Reading.{Message, read_message}
use how.Handler.Send.{Channel, OutFrame, binary, text, Sink}
use how.Handler.Saying.{read_frame}
use how.Server.Transcript.{keep, said}
use how.Howclient.{Conn, WsMessage, message_binary, message_text, ws_message, ws_sender}

module _ (mp : MsgPack) where
  -- A peer that speaks the subprotocol in binary mode reads the binary WebSocket messages only.
  unfoldable pub read_ws : WsMessage → Option (Bytes × Message)
  read_ws (message_binary d) = read_message (binary_wire mp) d
  read_ws (message_text d) = none

  -- The messages under the id `k` among these WebSocket messages, in their order.
  unfoldable pub said_on : Bytes → List WsMessage → List Message
  said_on k [] = []
  said_on k (w ∷ ws) = keep k (read_ws w) (said_on k ws)

  module _ (js : Json) (error_text : Error → Bytes) where
    -- The sender that the command hands to `NewHandler`, in binary mode.
    abbrev pub channel_over : Conn → Channel
    channel_over conn = record {
      mp = mp;
      js = js;
      error_text = error_text;
      sender = ws_sender conn;
      text_mode = false;
    }

    read_ws-message :
        (conn : Conn) (f : OutFrame) → read_ws (ws_message f) ≡ read_frame (channel_over conn) f
    unfolding read_ws ws_message read_frame
    read_ws-message conn (binary d) = refl
    read_ws-message conn (text d) = refl

    pub said_on-written :
        (conn : Conn) (k : Bytes) (sink : Sink)
        → said_on k (map ws_message sink) ≡ said (channel_over conn) k sink
    unfolding said_on said
    said_on-written conn k [] = refl
    said_on-written conn k (f ∷ sink) = cc (read_ws-message conn f, said_on-written conn k sink)
