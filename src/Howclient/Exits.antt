-- ===== src/Howclient/Exits.antt =====
-- When the command of golang/cmd/howclient/main.go exits with status 0.
use how.Base.{Bytes, ◌≡◌, refl, ap, ◌∙◌, ◌⊎◌, ◌≢◌, List, [], true, arith, inl, inr, List-cases, ◌↔◌}
use how.Outcome.{Error, Result, ok, Result-cases}
use how.Protocol.Codecs.{MsgPack, Json}
use how.Handler.Http.{HttpLib}
use how.Handler.Service.{Service, forward_to}
use how.Howclient.{
  Flags, help, malformed, given, Conn, main, serve, after_read_error, exit_status, how_v1,
}

module _ (mp : MsgPack) (js : Json) (error_text : Error → Bytes) (lib : HttpLib)
    (parse : Bytes → Result Bytes) (dial : Bytes → List Bytes → Result Conn) where
  -- The command got as far as its loop, with this handler and this connection.
  abbrev pub Connected : Bytes → Bytes → Service → Conn → Type 0
  Connected server_url target handler conn =
      (server_url ≢ [])
      × (target ≢ [])
      × (forward_to lib parse target ≡ ok handler)
      × (dial server_url how_v1 ≡ ok conn)

  pub Connected-serves :
      (server_url target : Bytes) (handler : Service) (conn : Conn)
      → Connected server_url target handler conn
      → main mp js error_text lib parse dial (given server_url target)
        ≡ serve mp js error_text lib parse dial handler conn
  unfolding main
  Connected-serves server_url target handler conn (some_server, some_target, parsed, connected) =
      ground arith

  -- The loop of the command ended after a signal.
  abbrev pub Interrupted : Bytes → Bytes → Type 0
  Interrupted server_url target =
      (handler : Service) × (conn : Conn) × Connected server_url target handler conn
      × (conn.interrupted ≡ true)

  given_clean :
      (server_url target : Bytes)
      → exit_status (main mp js error_text lib parse dial (given server_url target)).0 ≡ 0
      → Interrupted server_url target
  unfolding main serve after_read_error exit_status
  given_clean server_url target clean = elim (List-cases server_url) [
    | inl no_server ↦ absurd (ground arith)
    | inr (a, as_, is_server) ↦ elim (List-cases target) [
      | inl no_target ↦ absurd (ground arith)
      | inr (b, bs, is_target) ↦ elim (Result-cases (forward_to lib parse target)) [
        | inr (e, broken) ↦ absurd (ground arith)
        | inl (handler, parsed) ↦ elim (Result-cases (dial server_url how_v1)) [
          | inr (e, refused) ↦ absurd (ground arith)
          | inl (conn, connected) ↦
              (handler, conn, ((λ e. cc), (λ e. cc), parsed, connected), ground arith)
        ]
      ]
    ]
  ]

  -- The command exits with status 0 exactly where the help was asked for, or both flags are given, the
  -- target parses, the dial with the subprotocol how.v1 succeeds, and the context is done when a read
  -- fails. In particular a connection that breaks by itself gives another status.
  pub clean_exit_iff :
      (flags : Flags)
      → (exit_status (main mp js error_text lib parse dial flags).0 ≡ 0) ↔ (
          (flags ≡ help)
          ⊎ ((server_url : Bytes) × (target : Bytes) × (flags ≡ given server_url target)
              × Interrupted server_url target))
  unfolding main serve after_read_error exit_status
  clean_exit_iff flags = (clean flags, λ e. back flags e)
    where
      clean :
          (f : Flags)
          → exit_status (main mp js error_text lib parse dial f).0 ≡ 0
          → (f ≡ help)
            ⊎ ((server_url : Bytes) × (target : Bytes) × (f ≡ given server_url target)
                × Interrupted server_url target)
      clean help ended = inl refl
      clean malformed ended = absurd (ground arith)
      clean (given server_url target) ended =
          inr (server_url, target, refl, given_clean server_url target ended)

      back :
          (f : Flags)
          → (f ≡ help)
            ⊎ ((server_url : Bytes) × (target : Bytes) × (f ≡ given server_url target)
                × Interrupted server_url target)
          → exit_status (main mp js error_text lib parse dial f).0 ≡ 0
      back f (inl asked) = ap (λ g. exit_status (main mp js error_text lib parse dial g).0) asked
      back f (inr (server_url, target, values, ended)) =
          let (handler, conn, (some_server, some_target, parsed, connected), signalled) = ended in
          ap (λ g. exit_status (main mp js error_text lib parse dial g).0) values ∙ ground arith
