-- ===== src/EndToEnd.antt =====
-- Both sides together (golang/client/handler.go and client.go): what an `http.Handler` writes on one side
-- is what the body of the response yields on the other.
pub mod Requests
pub mod Whole
pub mod Promised
pub mod SameResponse
pub mod Concurrent
use how.Base.{
  ℕ, Bytes, ◌≡◌, refl, sym, ap, ◌∙◌, subst, List, [], ◌∷◌, ◌++◌, map, Bool, true, false, Option,
  none, some, arith, append_assoc, append-nil, Bool-cases, Option-cases, inl, inr, get_elem?, ◌==◌,
  All,
}
use how.Outcome.{Result, ok, err, Result-cases}
use how.Protocol.Message.{Envelope, PayloadType, Payload, start, request}
use how.Protocol.Wire.{Wire}
use how.Protocol.Reading.{
  Message, http_response_start, http_response_chunk, http_response_end, read_envelope, read_message,
  envelope_of,
}
use how.Handler.Send.{Channel, OutFrame, binary, text, Transport, Sink}
use how.Handler.StreamSteps.{stream_of, chunks_of, NonEmpty, Sane}
use how.Handler.Saying.{Says, read_frame, Reliable, Extends}
use how.Caller.{Caller, Mode, binary_mode, text_mode}
use how.Caller.Request.{Returned, streaming}
use how.Caller.Pump.{PipeOp, wrote, closed, Pipe}
use how.Caller.System.{
  Thread, awaiting, pumping, ended, System, Label, arrive, resume, takes, step, run,
}
use how.Caller.Body.{Reads, Open}
use how.Caller.Delivery.{Standing, arrive-Standing, chunk-Standing, start-Standing, end-taken}

-- Every frame is handed to the caller as it comes.
abbrev pub arrivals : List Bytes → List Label
arrivals [] = []
arrivals (d ∷ ds) = arrive d ∷ arrivals ds

-- These frames say these messages, in this mode, under this id.
abbrev pub Hears : Wire → Bytes → List Bytes → List Message → Type 0
Hears w id [] [] = Unit
Hears w id (d ∷ ds) (m ∷ ms) = (read_message w d ≡ some (id, m)) × Hears w id ds ms
Hears w id _ _ = ⊥

-- The writes of these chunks.
abbrev pub writes : List Bytes → List PipeOp
writes [] = []
writes (b ∷ bs) = wrote b ∷ writes bs

module _ (m : Mode) (sender : Transport) (pipe : ℕ → Pipe) where
  run-append :
      (ls ks : List Label) (s : System)
      → run m sender pipe (ls ++ ks) s ≡ run m sender pipe ks (run m sender pipe ls s)
  unfolding run
  run-append [] ks s = refl
  run-append (l ∷ ls) ks s = run-append ls ks (step m sender pipe l s)

  -- Frames pile up in the queue of their request.
  arrivals-Standing :
      (s : System) (i : ℕ) (t : Thread) (held : List Envelope) (ds : List Bytes) (ms : List Message)
      → Standing m sender pipe s i t held
      → Hears m.wire t.id ds ms
      → (es : List Envelope) × Reads m.wire t.id es ms
        × ((j : ℕ) → takes j es ≡ takes j ds)
        × Standing m sender pipe (run m sender pipe (arrivals ds) s) i t (held ++ es)
  unfolding run
  arrivals-Standing s i t held [] [] st hears =
      ([], tt, (λ j. refl), subst (Standing m sender pipe s i t) (sym (append-nil held)) st)
  arrivals-Standing s i t held [] (x ∷ ms) st hears = absurd hears
  arrivals-Standing s i t held (d ∷ ds) [] st hears = absurd hears
  arrivals-Standing s i t held (d ∷ ds) (x ∷ ms) st hears =
      let (env, arrived, reads, mine) = envelope_of m.wire d t.id x hears.0 in
      let s' : System = step m sender pipe (arrive d) s in
      let (es, rest, same, there) =
        arrivals-Standing s' i t (held ++ env ∷ []) ds ms
          (arrive-Standing m sender pipe s i t held d env st arrived mine) hears.1 in
      (
        env ∷ es,
        (reads, rest),
        (λ j. ap (◌∷◌ (resume j)) (same j)),
        subst (Standing m sender pipe (run m sender pipe (arrivals ds) s') i t)
            (append_assoc held (env ∷ []) es) there,
      )

  -- The pump takes the chunks and the end.
  pump-all :
      (s : System) (i : ℕ) (t : Thread) (es : List Envelope) (bs : List Bytes)
      → Open (pipe t.addr)
      → t.phase ≡ pumping
      → Reads m.wire t.id es (chunks_of bs ++ http_response_end ∷ [])
      → Standing m sender pipe s i t es
      → get_elem? (run m sender pipe (takes i es) s).threads i
        ≡ some (record t { phase = ended; ops = t.ops ++ (writes bs ++ closed none ∷ []) })
  unfolding run
  pump-all s i t [] [] reader pumps reads st = absurd reads
  pump-all s i t [] (b ∷ bs) reader pumps reads st = absurd reads
  pump-all s i t (e ∷ []) [] reader pumps reads st =
      end-taken m sender pipe s i t e [] t.id reader pumps reads.0 st
  pump-all s i t (e ∷ f ∷ es) [] reader pumps reads st = absurd reads.1
  pump-all s i t (e ∷ es) (b ∷ bs) reader pumps reads st =
      let t' : Thread = record t { ops = t.ops ++ wrote b ∷ [] } in
      pump-all (step m sender pipe (resume i) s) i t' es bs reader pumps reads.1
        (chunk-Standing m sender pipe s i t e es t.id b reader pumps reads.0 st)
      ∙ ap (λ o. some (record t { phase = ended; ops = o }))
          (append_assoc t.ops (wrote b ∷ []) (writes bs ++ closed none ∷ []))

  stream-taken :
      (s : System) (i : ℕ) (t : Thread) (es : List Envelope) (p : Payload start) (bs : List Bytes)
      → Open (pipe t.addr)
      → t.phase ≡ awaiting
      → t.ops ≡ []
      → Reads m.wire t.id es (stream_of p bs)
      → Standing m sender pipe s i t es
      → get_elem? (run m sender pipe (takes i es) s).threads i
        ≡ some (record t {
          phase = ended;
          result = some (streaming p.status_code p.headers);
          ops = writes bs ++ closed none ∷ [];
        })
  unfolding run
  stream-taken s i t [] p bs reader waits nothing reads st = absurd reads
  stream-taken s i t (e ∷ es) p bs reader waits nothing reads st =
      let t' : Thread = record t {
        phase = pumping;
        result = some (streaming p.status_code p.headers);
      } in
      pump-all (step m sender pipe (resume i) s) i t' es bs reader refl reads.1
        (start-Standing m sender pipe s i t e es t.id p waits reads.0 st)
      ∙ ap (λ o. some (record t' { phase = ended; ops = o ++ (writes bs ++ closed none ∷ []) }))
          nothing

  -- A waiting goroutine whose queue is empty, all the frames of a stream, and then one take for each
  -- of them: the goroutine has returned the status and headers of the start, has written each chunk's
  -- bytes to the body's pipe in order, has closed it cleanly, and has ended.
  pub stream_is_received :
      (s : System) (i : ℕ) (t : Thread) (ds : List Bytes) (p : Payload start) (bs : List Bytes)
      → Standing m sender pipe s i t []
      → t.phase ≡ awaiting
      → t.ops ≡ []
      → Open (pipe t.addr)
      → Hears m.wire t.id ds (stream_of p bs)
      → get_elem? (run m sender pipe (arrivals ds ++ takes i ds) s).threads i
        ≡ some (record t {
          phase = ended;
          result = some (streaming p.status_code p.headers);
          ops = writes bs ++ closed none ∷ [];
        })
  stream_is_received s i t ds p bs st waits nothing reader hears =
      let (es, reads, same, there) = arrivals-Standing s i t [] ds (stream_of p bs) st hears in
      ap (λ x. get_elem? x.threads i)
        (ap (λ ls. run m sender pipe (arrivals ds ++ ls) s) (sym (same i))
          ∙ run-append (arrivals ds) (takes i es) s)
      ∙ stream-taken (run m sender pipe (arrivals ds) s) i t es p bs reader waits nothing reads
          there
