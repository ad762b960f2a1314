-- ===== src/Server/Transcript.antt =====
-- What a sender of golang/client/client.go was told under one request id, and what a goroutine of
-- `dispatchRequest` will still say.
use how.Base.{
  ℕ, Bytes, ◌≡◌, refl, sym, ap, ◌∙◌, subst, List, [], ◌∷◌, ◌++◌, Bool, true, false, Option, none,
  some, arith, bytes_eq, if◌then◌else◌,
}
use how.Outcome.{Error}
use how.Protocol.Message.{Headers, err_internal}
use how.Protocol.Reading.{
  Message, http_response, http_response_start, http_response_chunk, http_response_end, error,
}
use how.Protocol.Binary.{AnyId, AnyPayload}
use how.Handler.Send.{Channel, OutFrame, Sink}
use how.Handler.Writer.{
  StreamProgram, ret, do_write_header, do_write, do_close, ResponseWriter, write_header, write,
}
use how.Handler.Dispatch.{bad_gateway, after_stream}
use how.Handler.Saying.{
  Reliable, Says, Extends, Extends-nil, read_frame, send_response-says, send_response_start-says,
  send_error_envelope-says,
}
use how.Handler.StreamSteps.{start_of}
use how.Handler.Forwarding.{Accepts, write_succeeds, write-relays, close-relays}
use how.Server.{Work, answering, writing, finished, advance_work}

-- The message joins the others if it has this id.
unfoldable pub keep : Bytes → Option (Bytes × Message) → List Message → List Message
keep k none ms = ms
keep k (some (id, m)) ms = if bytes_eq id k then m ∷ ms else ms

module _ (h : Channel) where
  -- The messages under the id `k` among these frames, in their order.
  unfoldable pub said : Bytes → List OutFrame → List Message
  unfolding keep
  said k [] = []
  said k (f ∷ fs) = keep k (read_frame h f) (said k fs)

  pub said-append : (k : Bytes) (fs gs : List OutFrame) → said k (fs ++ gs) ≡ said k fs ++ said k gs
  unfolding said
  said-append k [] gs = refl
  said-append k (f ∷ fs) gs = ground (arith, said-append k fs gs)

  said-Says :
      (k id : Bytes) (fs : List OutFrame) (ms : List Message)
      → Says h id fs ms
      → said k fs ≡ (if bytes_eq id k then ms else [])
  unfolding said
  said-Says k id [] [] says = ground arith
  said-Says k id [] (m ∷ ms) says = absurd says
  said-Says k id (f ∷ fs) [] says = absurd says
  said-Says k id (f ∷ fs) (m ∷ ms) says = ground (arith, said-Says k id fs ms says.1)

  pub said-Extends :
      (k id : Bytes) (a b : Sink) (ms : List Message)
      → Extends h id a b ms
      → said k b ≡ said k a ++ (if bytes_eq id k then ms else [])
  said-Extends k id a b ms (fs, e, says) =
      ap (said k) e ∙ said-append k a fs ∙ ap (λ l. said k a ++ l) (said-Says k id fs ms says)

  -- What a streaming handler says from here on where no call of the sender fails; the Boolean tells
  -- whether the start has been sent.
  unfoldable pub says_later : Bool → StreamProgram → List Message
  says_later started (ret none) = []
  says_later true (ret (some e)) =
      error (record { code = err_internal; message = h.error_text e }) ∷ []
  says_later false (ret (some e)) = http_response (bad_gateway h e) ∷ []
  says_later true (do_write_header code headers rest) = says_later true rest
  says_later false (do_write_header code headers rest) =
      http_response_start (start_of code headers) ∷ says_later true rest
  says_later started (do_write bytes rest) =
      http_response_chunk bytes ∷ says_later started (rest none)
  says_later started (do_close rest) = http_response_end ∷ says_later started rest

  unfoldable pub will_say : Work → List Message
  unfolding says_later
  will_say (answering resp) = http_response resp ∷ []
  will_say (writing rw program) = says_later rw.started program
  will_say finished = []

-- A goroutine writes under its own id.
abbrev pub IsUnder : Bytes → Work → Type 0
IsUnder id (answering resp) = Unit {0}
IsUnder id (writing rw program) = rw.request_id ≡ id
IsUnder id finished = Unit {0}

module _ (h : Channel) (rel : Reliable h AnyId AnyPayload) (accepts : Accepts h) (id : Bytes) where
  -- One move: what was said and what will be said do not change as a whole.
  abbrev Advanced : Work → Sink → Work × Sink → Type 0
  Advanced w sink (w', sink') =
      IsUnder id w'
      × ((ms : List Message) × Extends h id sink sink' ms × (will_say h w ≡ ms ++ will_say h w'))

  ends :
      (e : Option Error) (own : Bytes) (started : Bool) (sink : Sink)
      → let w : ResponseWriter = record { request_id = own; started = started } in
        Advanced (writing w (ret e)) sink (finished, after_stream h id (e, w, sink))
  unfolding will_say after_stream
  ends none own started sink = (tt, ([], Extends-nil h id sink, refl))
  ends (some e) own true sink = (
    tt,
    (
      error (record { code = err_internal; message = h.error_text e }) ∷ [],
      send_error_envelope-says h rel id tt err_internal (h.error_text e) sink tt,
      refl,
    ),
  )
  ends (some e) own false sink = (
    tt,
    (
      http_response (bad_gateway h e) ∷ [],
      send_response-says h rel id tt (bad_gateway h e) sink tt,
      refl,
    ),
  )

  starts :
      (code : ℕ) (headers : Headers) (rest : StreamProgram) (started : Bool) (sink : Sink)
      → let w : ResponseWriter = record { request_id = id; started = started } in
        let r = write_header h code headers w sink in
        Advanced (writing w (do_write_header code headers rest)) sink (writing r.0 rest, r.1)
  unfolding will_say write_header
  starts code headers rest true sink = (refl, ([], Extends-nil h id sink, refl))
  starts code headers rest false sink = (
    refl,
    (
      http_response_start (start_of code headers) ∷ [],
      send_response_start-says h rel id tt code headers sink tt,
      refl,
    ),
  )

  writes :
      (bytes : Bytes) (rest : Option Error → StreamProgram) (w : ResponseWriter) (sink : Sink)
      → w.request_id ≡ id
      → let r = write h bytes w sink in
        Advanced (writing w (do_write bytes rest)) sink (writing w (rest r.0), r.1)
  unfolding will_say
  writes bytes rest w sink own =
      let fine = write_succeeds h rel id tt accepts bytes w sink own tt in
      (
        own,
        (
          http_response_chunk bytes ∷ [],
          write-relays h rel id tt accepts bytes w sink own tt,
          ap (λ e. http_response_chunk bytes ∷ says_later h w.started (rest e)) (sym fine),
        ),
      )

  pub advance_work-Advanced :
      (w : Work) (sink : Sink) → IsUnder id w → Advanced w sink (advance_work h id w sink)
  unfolding advance_work will_say
  advance_work-Advanced (answering resp) sink own =
      (tt, (http_response resp ∷ [], send_response-says h rel id tt resp sink tt, refl))
  advance_work-Advanced (writing w (ret e)) sink own = ends e w.request_id w.started sink
  advance_work-Advanced (writing w (do_write_header code headers rest)) sink own =
      subst
        (λ o.
          let v : ResponseWriter = record { request_id = o; started = w.started } in
          let r = write_header h code headers v sink in
          Advanced (writing v (do_write_header code headers rest)) sink (writing r.0 rest, r.1))
        (sym own) (starts code headers rest w.started sink)
  advance_work-Advanced (writing w (do_write bytes rest)) sink own = writes bytes rest w sink own
  advance_work-Advanced (writing w (do_close rest)) sink own =
      (own, (http_response_end ∷ [], close-relays h rel id tt accepts w sink own, refl))
  advance_work-Advanced finished sink own = (tt, ([], Extends-nil h id sink, refl))
