-- ===== src/Caller/Answered.antt =====
-- A buffered response, and the reading of a response's body (golang/client/client.go).
use how.Base.{
  ℕ, Bytes, ◌≡◌, ap, ◌∙◌, List, [], ◌∷◌, ◌++◌, Option, none, some, arith, get_elem?,
  get_elem?-set_self,
}
use how.Outcome.{Error}
use how.Protocol.Message.{Envelope, Payload, response}
use how.Protocol.Reading.{http_response, read_envelope}
use how.Handler.Send.{Transport}
use how.Caller.{Caller, Mode, poll}
use how.Caller.Request.{Returned, failed, buffered, streaming, first_frame}
use how.Caller.Pump.{PipeOp, wrote, closed, Pipe}
use how.Caller.System.{Thread, awaiting, ended, System, resume, step, settle, resume_thread}
use how.Caller.Delivery.{Standing, resumed, step-resume}

-- `io.ReadAll` of the read end of an `io.Pipe`: the bytes up to the closing of the write end, and its
-- error, which is nil after `Close()`. `none`: it still blocks.
unfoldable pub read_pipe : Bytes → List PipeOp → Option (Bytes × Option Error)
read_pipe acc [] = none
read_pipe acc (wrote b ∷ ops) = read_pipe (acc ++ b) ops
read_pipe acc (closed e ∷ ops) = some (acc, e)

-- `io.ReadAll(resp.Body)`
unfoldable pub read_body : Returned → List PipeOp → Option (Bytes × Option Error)
unfolding read_pipe
read_body (failed e) ops = none
read_body (buffered status_code headers body) ops = some (body, none)
read_body (streaming status_code headers) ops = read_pipe [] ops

-- `resp.StatusCode`
unfoldable pub status_of : Returned → Option ℕ
status_of (failed e) = none
status_of (buffered status_code headers body) = some status_code
status_of (streaming status_code headers) = some status_code

module _ (m : Mode) (sender : Transport) (pipe : ℕ → Pipe) where
  response-taken :
      (t : Thread) (c c' : Caller) (env : Envelope) (id : Bytes) (p : Payload response)
      → t.phase ≡ awaiting
      → poll t.addr c ≡ (some env, c')
      → read_envelope m.wire env ≡ some (id, http_response p)
      → (resume_thread m sender pipe t c).0
        ≡ record t { phase = ended; result = some (buffered p.status_code p.headers p.body) }
  unfolding resume_thread settle first_frame read_envelope
  response-taken t c c' env id p waits taken reads = ground arith

  -- The goroutine takes the one response and is gone.
  pub response_is_taken :
      (s : System) (i : ℕ) (t : Thread) (env : Envelope) (es : List Envelope) (id : Bytes)
      (p : Payload response)
      → t.phase ≡ awaiting
      → read_envelope m.wire env ≡ some (id, http_response p)
      → Standing m sender pipe s i t (env ∷ es)
      → get_elem? (step m sender pipe (resume i) s).threads i
        ≡ some (record t { phase = ended; result = some (buffered p.status_code p.headers p.body) })
  response_is_taken s i t env es id p waits reads st =
      let (c, taken, found, kept) = resumed m sender pipe s i t env es st in
      let t' : Thread = (resume_thread m sender pipe t s.caller).0 in
      ap (λ x. get_elem? x.threads i) (step-resume m sender pipe s i t st.at)
      ∙ get_elem?-set_self s.threads i t' t st.at
      ∙ ap some (response-taken t s.caller c env id p waits taken reads)
