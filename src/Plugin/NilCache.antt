-- ===== src/Plugin/NilCache.antt =====
-- main.go and tc.go together: what the controls come to under the cache that `main` leaves nil.
use scope_network.Prelude.{
  ℕ, false, List, [], ◌∷◌, ◌++◌, ◌≡◌, ◌≢◌, refl, sym, ap, subst, ◌∙◌, none, some, arith, All, inl,
  inr, Bool-cases,
}
use mathlib.Core.Option.{some-injective}
use scope_network.Text.{Text, codes, same, same_iff}
use scope_network.Dict.{Dict}
use scope_network.Errors.{Result, ok, err, returns}
use scope_network.Store.{Container, Store}
use scope_network.Traffic.Act.{World}
use scope_network.Traffic.Host.{Host}
use scope_network.Traffic.NilCache.{
  apply_latency-nil, apply_packet_loss-nil, apply_latency-keeps, apply_packet_loss-keeps,
  clear-keeps,
}
use scope_network.Traffic.Controls.{apply_latency, apply_packet_loss}
use scope_network.Report.Controls.{network_control_table_prefix, ExtControl, get_controls}
use scope_network.Report.Handlers.{Handler, find_handler, get_handler}
use scope_network.Report.Offered.{get_handler_sound}
use scope_network.Report.Frame.{raw_report-SameTraffic}
use scope_network.Plugin.{
  Request, Codec, handle, perform_control, control, report, initial_world, Route, to_report,
  to_control, elsewhere, Arrival, route_to, serve,
}

abbrev pub clear_id : Text
clear_id = network_control_table_prefix ++ codes "clear"

-- The handler leaves a nil cache nil.
abbrev KeepsNil : (ℕ → Handler) → Type 0
KeepsNil g = (pid : ℕ) (w : World) → w.cache ≡ none → (g pid w).1.cache ≡ none

-- With a nil cache the handler does not succeed.
abbrev NeverDone : (ℕ → Handler) → Type 0
NeverDone g = (pid : ℕ) (w : World) → w.cache ≡ none → (g pid w).0 ≢ returns (ok tt)

abbrev IsLame : ExtControl → Type 0
IsLame c = KeepsNil c.handler × (same clear_id c.control.id ≡ false → NeverDone c.handler)

find_handler-All :
    (P : ExtControl → Type 0) (cs : List ExtControl) (k : Text) (g : ℕ → Handler)
    → All P cs
    → find_handler cs k ≡ some g
    → (c : ExtControl) × (c.control.id ≡ k) × (c.handler ≡ g) × P c
unfolding find_handler
find_handler-All P [] k g ps e = cc
find_handler-All P (c ∷ cs) k g (p, ps) e = elim (Bool-cases (same c.control.id k)) [
  | inl y ↦
      let e' : some c.handler ≡ some g = rw y at e in
      (c, (same_iff c.control.id k).0 y, some-injective c.handler g e', p)
  | inr n ↦ find_handler-All P cs k g ps (rw n at e)
]

latency-IsLame :
    (h : Host) (c : ℕ) (latency : Text)
    → KeepsNil (λ pid. apply_latency h pid (c ∷ latency))
      × NeverDone (λ pid. apply_latency h pid (c ∷ latency))
latency-IsLame h c latency = (
  λ pid w e. apply_latency-keeps h pid (c ∷ latency) w e,
  λ pid w e. apply_latency-nil h pid c latency w e,
)

loss-NeverDone :
    (h : Host) (c : ℕ) (loss : Text) → NeverDone (λ pid. apply_packet_loss h pid (c ∷ loss))
loss-NeverDone h c loss pid w e done = cc (apply_packet_loss-nil h pid c loss w e)

controls-IsLame : (h : Host) → All IsLame (get_controls h)
unfolding get_controls same
controls-IsLame h =
    let slow = latency-IsLame h b'2' (codes "000ms") in
    let medium = latency-IsLame h b'1' (codes "000ms") in
    let fast = latency-IsLame h b'5' (codes "00ms") in
    (
      (slow.0, λ _. slow.1),
      (
        (medium.0, λ _. medium.1),
        (
          (fast.0, λ _. fast.1),
          (
            (
              λ pid w e. apply_packet_loss-keeps h pid (codes "10%") w e,
              λ _. loss-NeverDone h b'1' (codes "0%"),
            ),
            ((λ pid w e. clear-keeps h pid w e, λ differs. cc), tt),
          ),
        ),
      ),
    )

module _ (h : Host) (s : Store) where
  found-IsLame :
      (node_id k : Text) (f : Handler)
      → get_handler h s node_id k ≡ ok f
      → ((w : World) → w.cache ≡ none → (f w).1.cache ≡ none)
        × (same clear_id k ≡ false → (w : World) → w.cache ≡ none → (f w).0 ≢ returns (ok tt))
  found-IsLame node_id k f e =
      let (id, named, (c, g, held, found, bound)) = get_handler_sound h s node_id k f e in
      let (x, x_id, x_handler, (keeps, never)) =
        find_handler-All IsLame (get_controls h) k g (controls-IsLame h) found in
      let is_handler : f ≡ x.handler c.pid = bound ∙ ap (λ q. q c.pid) (sym x_handler) in
      (
        λ w nil. subst (λ a. (a w).1.cache ≡ none) (sym is_handler) (keeps c.pid w nil),
        λ differs w nil done.
            never (subst (λ i. same clear_id i ≡ false) (sym x_id) differs) c.pid w nil
              (subst (λ a. (a w).0 ≡ returns (ok tt)) is_handler done),
      )

  handle-keeps :
      (r : Result Handler) (w : World)
      → ((f : Handler) → r ≡ ok f → (f w).1.cache ≡ none)
      → w.cache ≡ none
      → (handle r w).1.cache ≡ none
  unfolding handle
  handle-keeps (err e) w keeps nil = nil
  handle-keeps (ok f) w keeps nil = grind (arith, keeps f refl)

  handle_fails :
      (r : Result Handler) (w : World)
      → ((f : Handler) → r ≡ ok f → (f w).0 ≢ returns (ok tt))
      → (handle r w).0 ≢ returns none
  unfolding handle
  handle_fails (err e) w fails = cc
  handle_fails (ok f) w fails = grind (arith, fails f refl)

  perform_control-keeps :
      (codec : Codec) (xreq : Request) (w : World)
      → w.cache ≡ none
      → (perform_control h codec s xreq w).1.cache ≡ none
  unfolding perform_control
  perform_control-keeps codec xreq w nil =
      handle-keeps (get_handler h s xreq.node_id xreq.control) w
        (λ f e. (found-IsLame xreq.node_id xreq.control f e).0 w nil) nil

  perform_control_nil :
      (codec : Codec) (xreq : Request) (w : World)
      → w.cache ≡ none
      → same clear_id xreq.control ≡ false
      → (perform_control h codec s xreq w).0 ≢ returns none
  unfolding perform_control
  perform_control_nil codec xreq w nil differs =
      handle_fails (get_handler h s xreq.node_id xreq.control) w
        (λ f e. (found-IsLame xreq.node_id xreq.control f e).1 differs w nil)

  control-keeps :
      (codec : Codec) (body : Text) (w : World)
      → w.cache ≡ none
      → (control h codec s body w).1.cache ≡ none
  unfolding control
  control-keeps codec body w nil = grind (arith, perform_control-keeps)

module _ (h : Host) (codec : Codec) (shuffle : Dict Container → Dict Container) where
  report-keeps :
      (s : Store) (w : World) → w.cache ≡ none → (report h codec shuffle s w).1.cache ≡ none
  unfolding report
  report-keeps s w nil = grind (arith, raw_report-SameTraffic)

  route_to-keeps :
      (r : Route) (s : Store) (w : World)
      → w.cache ≡ none
      → (route_to h codec shuffle r s w).1.cache ≡ none
  route_to-keeps to_report s w nil = report-keeps s w nil
  route_to-keeps (to_control body) s w nil = control-keeps h s codec body w nil
  route_to-keeps elsewhere s w nil = nil

  serve-keeps :
      (later : List Arrival) (w : World)
      → w.cache ≡ none
      → (serve h codec shuffle later w).cache ≡ none
  unfolding serve
  serve-keeps [] w nil = nil
  serve-keeps (a ∷ later) w nil =
      grind (arith, route_to-keeps a.route a.store w nil, serve-keeps later)

  -- From the state that `main` leaves, after any requests in any states of the store, no control
  -- but the clear control is ever answered without an error: the handler of `/control` reaches
  -- `sendResponse` with an error, or panics, or exits.
  pub serve_never_applies :
      (history : List Arrival) (s : Store) (xreq : Request)
      → same clear_id xreq.control ≡ false
      → (perform_control h codec s xreq (serve h codec shuffle history initial_world)).0
        ≢ returns none
  serve_never_applies history s xreq differs =
      perform_control_nil h s codec xreq _ (serve-keeps history initial_world refl) differs
