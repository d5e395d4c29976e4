-- ===== src/Plugin/Replies.antt =====
-- main.go: what the handlers of `/control` and `/report` answer.
use scope_network.Prelude.{◌≡◌, sym, ap, ◌∙◌, Option}
use scope_network.Text.{Text}
use scope_network.Errors.{Error, Result, ok, err, returns}
use scope_network.Store.{Store}
use scope_network.Traffic.Act.{World, pure, if_err, ◌>>=◌}
use scope_network.Traffic.Act.Inversion.{bind_returns}
use scope_network.Traffic.Host.{Host}
use scope_network.Plugin.{
  Request, Response, Codec, message, HttpReply, status_ok, status_bad_request, send_response,
  perform_control, control,
}

module _ (h : Host) (codec : Codec) where
  abbrev pub Encodes : Type 0
  Encodes = (r : Response) → (t : Text) × (codec.encode_response r ≡ ok t)

  send_response-status : (e : Option Error) → Encodes → (send_response codec e).status ≡ status_ok
  unfolding send_response
  send_response-status e encodes = let (t, x) = encodes (record { error = e }) in rw x

  -- What is answered to a request that the decoder took or refused.
  abbrev pub Answers : Result Request → World → World → HttpReply → Type 0
  Answers (err e) w w' reply =
      (reply ≡ record { status = status_bad_request; body = message e }) × (w' ≡ w)
  Answers (ok xreq) w w' reply = reply.status ≡ status_ok

  answer_lem :
      (s : Store) (r : Result Request) (w w' : World) (reply : HttpReply)
      → Encodes
      → if_err r
          (λ e. pure (record { status = status_bad_request; body = message e }))
          (λ xreq. do error ← perform_control h codec s xreq; pure (send_response codec error))
          w
        ≡ (returns reply, w')
      → Answers r w w' reply
  unfolding ◌>>=◌
  answer_lem s (err e) w w' reply encodes x = (cc, cc)
  answer_lem s (ok xreq) w w' reply encodes x =
      let (error, _, e) =
        bind_returns (perform_control h codec s xreq) (λ y. pure (send_response codec y)) w x in
      let same_reply : send_response codec error ≡ reply = cc (e) in
      ap (λ r. r.status) (sym same_reply) ∙ send_response-status error encodes

  -- A request that cannot be decoded is answered with status 400 and the decoder's error, and
  -- changes nothing. Any other request that is answered at all is answered with status 200, also
  -- where the control failed.
  pub control-status :
      (s : Store) (body : Text) (w w' : World) (reply : HttpReply)
      → Encodes
      → control h codec s body w ≡ (returns reply, w')
      → Answers (codec.decode_request body) w w' reply
  unfolding control
  control-status s body w w' reply encodes x =
      answer_lem s (codec.decode_request body) w w' reply encodes x
