-- ===== src/Howclient.antt =====
-- golang/cmd/howclient/main.go: the command that serves a local HTTP service over a WebSocket.
pub mod Exits
pub mod Forwards
pub mod Said
use how.Base.{
  ℕ, Bytes, codes, List, [], ◌∷◌, ◌++◌, ◌||◌, map, Bool, true, false, Option, none, some,
  if◌then◌else◌,
}
use how.Outcome.{Error, Result, ok, err}
use how.Protocol.Codecs.{MsgPack, Json}
use how.Handler.Send.{OutFrame, binary, text, Sink, Transport}
use how.Handler.Http.{HttpLib}
use how.Handler.Service.{Service, HowHandler, new_handler, forward_to}
use how.Server.{Server, Label, arrive, advance, step, run}

-- `websocket.MessageBinary`, `websocket.MessageText`
pub data WsMessage : Type 0 where
  message_binary message_text : Bytes → WsMessage

-- What `websocket.Dial` returned, by what the command sees of it: the frames that `conn.Read` returns
-- until it fails, each with the moves that the goroutines make before it; the error of that last `Read`;
-- whether the context is then done, which is so after SIGINT or SIGTERM; and how `conn.Write` answers.
pub record Conn : Type 0 where
  pub reads : List (List ℕ × Bytes)
  pub read_error : Error
  pub interrupted : Bool
  pub write : List WsMessage → WsMessage → Option Error

-- What `flag.Parse()` makes of the command line: it exits by itself where the help was asked for and
-- where a flag is malformed; else it leaves the values of `--server` and `--target`.
pub data Flags : Type 0 where
  help malformed : Flags
  given : Bytes → Bytes → Flags

-- How the process ends: in `flag.Parse`, with status 0 after the help and 2 after a malformed flag; by
-- `log.Fatal…`, with status 1; or `main` returns.
pub data Exit : Type 0 where
  help_shown flags_malformed missing_flags : Exit
  invalid_target dial_failed read_failed : Error → Exit
  shut_down : Error → Exit

-- `wsSender.SendBytes`, `wsSender.SendText`
unfoldable pub ws_message : OutFrame → WsMessage
ws_message (binary d) = message_binary d
ws_message (text d) = message_text d

unfoldable pub ws_sender : Conn → Transport
ws_sender conn sink frame = conn.write (map ws_message sink) (ws_message frame)

abbrev pub how_v1 : List Bytes
how_v1 = codes "how.v1" ∷ []

-- Before each `Read` returns, the goroutines move; then the frame is handed to `HandleBinaryMessage`.
unfoldable pub read_loop : List (List ℕ × Bytes) → List Label
read_loop [] = []
read_loop ((moves, bytes) ∷ reads) = map advance moves ++ arrive bytes ∷ read_loop reads

is_empty : Bytes → Bool
is_empty [] = true
is_empty (b ∷ s) = false

-- The end of the loop.
unfoldable pub after_read_error : Conn → Exit
after_read_error conn =
    if conn.interrupted then shut_down conn.read_error else read_failed conn.read_error

module _ (mp : MsgPack) (js : Json) (error_text : Error → Bytes) (lib : HttpLib)
    (parse : Bytes → Result Bytes) (dial : Bytes → List Bytes → Result Conn) where
  unfoldable pub serve : Service → Conn → Exit × Server
  serve handler conn =
      let h = new_handler mp js error_text handler (ws_sender conn) [] in
      (
        after_read_error conn,
        run h.channel h.handler (read_loop conn.reads) (record { sink = []; jobs = [] }),
      )

  dialled : Service → Result Conn → Exit × Server
  unfolding serve
  dialled handler (err e) = (dial_failed e, record { sink = []; jobs = [] })
  dialled handler (ok conn) = serve handler conn

  with_handler : Bytes → Result Service → Exit × Server
  unfolding dialled
  with_handler server_url (err e) = (invalid_target e, record { sink = []; jobs = [] })
  with_handler server_url (ok handler) = dialled handler (dial server_url how_v1)

  -- `main`
  unfoldable pub main : Flags → Exit × Server
  unfolding with_handler is_empty
  main help = (help_shown, record { sink = []; jobs = [] })
  main malformed = (flags_malformed, record { sink = []; jobs = [] })
  main (given server_url target) =
      if is_empty server_url || is_empty target
      then (missing_flags, record { sink = []; jobs = [] })
      else with_handler server_url (forward_to lib parse target)

-- The exit status of the process.
unfoldable pub exit_status : Exit → ℕ
exit_status help_shown = 0
exit_status flags_malformed = 2
exit_status (shut_down e) = 0
exit_status missing_flags = 1
exit_status (invalid_target e) = 1
exit_status (dial_failed e) = 1
exit_status (read_failed e) = 1
