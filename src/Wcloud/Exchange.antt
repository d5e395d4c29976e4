-- ===== src/Wcloud/Exchange.antt =====
-- tools/cmd/wcloud/client.go: what the calls send, and when one succeeds.
use scope_network.Prelude.{
  ℕ, ◌≡◌, ◌↔◌, refl, sym, ap, subst, List, [], ◌∷◌, ◌++◌, Option, none, some, arith, Bool, true,
  false, ◌==◌, if◌then◌else◌,
}
use scope_network.Text.{Text, codes}
use scope_network.Prelude.Int.{ℤ}
use scope_network.Errors.{Error, error_making_request, Result, ok, err}
use scope_network.Wcloud.{
  Deployment, Config, HttpRequest, HttpResponse, Service, Client, Call, then_ok, done, request_of,
  new_request, send, exchange, deploy, get_deployments, get_events, get_config, set_config,
  get_logs,
}

-- Nothing more was sent, or one request that carries the token and goes to the client's service.
pub data Asked (c : Client) (sent : List HttpRequest) : List HttpRequest → Type 0 where
  nothing : Asked c sent sent
  one :
      (r : HttpRequest) (path : Text)
      → r.authorization ≡ codes "Scope-Probe token=" ++ c.token
      → r.url ≡ c.base_url ++ path
      → Asked c sent (sent ++ r ∷ [])

module _ (v : Service) (c : Client) where
  new_request-ok :
      (method path body : Text) (refused : Option Error) (r q : HttpRequest)
      → request_of refused q ≡ ok r
      → q ≡ r
  new_request-ok method path body none r q e = cc
  new_request-ok method path body (some x) r q e = cc

  then_ok-Asked :
      {A B : Type 0} (r : Result A) (rest : A → Call B) (sent : List HttpRequest)
      → ((a : A) → r ≡ ok a → Asked c sent (rest a sent).1)
      → Asked c sent (then_ok r rest sent).1
  then_ok-Asked (ok a) rest sent h = h a refl
  then_ok-Asked (err e) rest sent h = nothing

  then_ok-sent :
      {A B : Type 0} (r : Result A) (rest : A → Call B) (sent : List HttpRequest)
      → ((a : A) → (rest a sent).1 ≡ sent)
      → (then_ok r rest sent).1 ≡ sent
  then_ok-sent (ok a) rest sent h = h a
  then_ok-sent (err e) rest sent h = refl

  exchange-Asked :
      {B : Type 0} (method path body : Text) (rest : HttpResponse → Call B)
      (sent : List HttpRequest)
      → ((res : HttpResponse) (s : List HttpRequest) → (rest res s).1 ≡ s)
      → Asked c sent (exchange v c method path body rest sent).1
  unfolding new_request
  exchange-Asked method path body rest sent h =
      then_ok-Asked (new_request v c method path body) (λ r. send v c r rest) sent
        λ r e.
          let eq = new_request-ok method path body (v.refuses method (c.base_url ++ path)) r _ e in
          subst (Asked c sent)
            (sym (
              then_ok-sent (v.answer sent r) rest (sent ++ r ∷ []) (λ res. h res (sent ++ r ∷ []))))
            (one r path (sym (ap (λ q. q.authorization) eq)) (sym (ap (λ q. q.url) eq)))

  kept :
      {B : Type 0} (b : Bool) (x y : Result B) (s : List HttpRequest)
      → ((if b then done x else done y) s).1 ≡ s
  kept true x y s = refl
  kept false x y s = refl

  then_ok_returns :
      {A B : Type 0} (r : Result A) (rest : A → Call B) (sent : List HttpRequest) (b : B)
      → (then_ok r rest sent).0 ≡ ok b
      → (a : A) × (r ≡ ok a) × ((rest a sent).0 ≡ ok b)
  then_ok_returns (ok a) rest sent b e = (a, refl, e)
  then_ok_returns (err x) rest sent b e = cc

  module _ (sent : List HttpRequest) where
    pub deploy-Asked : (d : Deployment) → Asked c sent (deploy v c d sent).1
    unfolding deploy
    deploy-Asked d =
        then_ok-Asked (v.encode_deployment d) _ sent
          (λ body e. exchange-Asked _ _ _ _ sent (λ res s. kept (res.status_code == 204) _ _ s))

    pub get_deployments-Asked :
        (from through : ℤ) → Asked c sent (get_deployments v c from through sent).1
    unfolding get_deployments
    get_deployments-Asked from through =
        exchange-Asked _ _ _ _ sent (λ res s. kept (res.status_code == 200) _ _ s)

    pub get_events-Asked : (from through : ℤ) → Asked c sent (get_events v c from through sent).1
    unfolding get_events
    get_events-Asked from through =
        exchange-Asked _ _ _ _ sent (λ res s. kept (res.status_code == 200) _ _ s)

    pub get_config-Asked : Asked c sent (get_config v c sent).1
    unfolding get_config
    get_config-Asked = exchange-Asked _ _ _ _ sent (λ res s. ground arith)

    pub set_config-Asked : (config : Config) → Asked c sent (set_config v c config sent).1
    unfolding set_config
    set_config-Asked config =
        then_ok-Asked (v.encode_config config) _ sent
          (λ body e. exchange-Asked _ _ _ _ sent (λ res s. kept (res.status_code == 204) _ _ s))

    pub get_logs-Asked : (id : Text) → Asked c sent (get_logs v c id sent).1
    unfolding get_logs
    get_logs-Asked id = exchange-Asked _ _ _ _ sent (λ res s. kept (res.status_code == 200) _ _ s)

  -- `Deploy` succeeds exactly where the deployment is encoded, its request is made and answered, and
  -- the answer has status 204.
  deploy_ok_iff :
      (d : Deployment) (sent : List HttpRequest)
      → ((deploy v c d sent).0 ≡ ok tt) ↔ (
          (body : Text) × (r : HttpRequest) × (res : HttpResponse) × (v.encode_deployment d
            ≡ ok body)
          × (new_request v c (codes "POST") (codes "/api/deploy/deploy") body ≡ ok r)
          × (v.answer sent r ≡ ok res)
          × (res.status_code ≡ 204))
  unfolding deploy
  deploy_ok_iff d sent = (
    λ e.
        let (body, encoded, e₁) = then_ok_returns (v.encode_deployment d) _ sent tt e in
        let (r, made, e₂) =
          then_ok_returns (new_request v c (codes "POST") (codes "/api/deploy/deploy") body) _ sent
            tt e₁ in
        let (res, answered, e₃) = then_ok_returns (v.answer sent r) _ (sent ++ r ∷ []) tt e₂ in
        (
          body,
          r,
          res,
          encoded,
          made,
          answered,
          accepted res.status_code (error_making_request res.status) (sent ++ r ∷ []) e₃,
        ),
    λ p.
        let (body, r, res, encoded, made, answered, status) = p in
        rw (encoded, made, answered, status) refl,
  )
    where
      accepted :
          (n : ℕ) (x : Error) (s : List HttpRequest)
          → ((if n == 204 then done (ok (tt {0})) else done (err x)) s).0 ≡ ok tt
          → n ≡ 204
      accepted n x s e = ground arith
