-- ===== src/Server/Lifecycle/Starting.antt =====
-- start: what a call leaves behind, whether it returns or throws.
use mathlib.Core.Path.{subst}
use foxglove_bridge_release.Base.{
  ap, sym, ◌∙◌, if◌then◌else◌, ℕ, ◌≡◌, ◌⊎◌, refl, String, Option, none, some, Bool, true, false,
  inl, inr, Bool-cases,
}
use foxglove_bridge_release.Base.Text.{to_string}
use foxglove_bridge_release.Base.Exec.{Result, ok, throws, throw, failure}
use foxglove_bridge_release.Server.Lifecycle.{
  Websocketpp, Host, TcpEndpoint, start, start_listening, start_accepting, run_server,
  local_endpoint,
}

module _ {E : Type 0} (W : Websocketpp E) where
  -- The endpoint listens and has an address, once the thread is made.
  abbrev Runs : E → Type 0
  Runs e =
      (W.is_listening e ≡ true)
      × ((endpoint : TcpEndpoint) × (W.get_local_endpoint e ≡ inr endpoint))

  -- The endpoint accepts connections, and then runs.
  abbrev Accepts : E → Type 0
  Accepts e = ((W.start_accept e).0 ≡ none) × Runs (W.start_accept e).1

  -- The endpoint can be told to listen on the host and the port, then accepts and runs.
  abbrev pub CanStart : String → ℕ → E → Type 0
  CanStart host port e =
      ((W.listen host (to_string port) e).0 ≡ none) × Accepts (W.listen host (to_string port) e).1

module _ {E B : Type 0} (W : Websocketpp E) where
  -- A call returns where the endpoint is `Good`, and leaves a thread and an endpoint that has an
  -- address; it throws a text where it is not. The tables of the server are not touched.
  abbrev pub IsStarted : Type 0 → Host E B → Result (Unit {0}) × Host E B → Type 0
  IsStarted Good h (r, t) =
      (t.server ≡ h.server)
      × ((Good
            × (r ≡ ok tt)
            × (t.server_thread ≡ true)
            × ((endpoint : TcpEndpoint) × (local_endpoint W t ≡ some endpoint)))
          ⊎ (¬ Good × (message : String) × (r ≡ throws (failure message))))

  resolved :
      (port : ℕ) (h : Host E B) (r : String ⊎ TcpEndpoint)
      → W.get_local_endpoint h.endpoint ≡ r
      → IsStarted (Runs W h.endpoint) h (run_server W port h)
  unfolding run_server local_endpoint
  resolved port h (inl message) e = elim (Bool-cases (W.is_listening h.endpoint)) [
    | inl l ↦ rw (l, e) (refl, inr (λ (l', (endpoint, e')). cc, _, refl))
    | inr l ↦ rw l (refl, inr (λ (l', there). cc, _, refl))
  ]
  resolved port h (inr endpoint) e = elim (Bool-cases (W.is_listening h.endpoint)) [
    | inl l ↦
        rw (l, e)
          (
            refl,
            inl ((refl, (endpoint, refl)), refl, refl, (endpoint, rw (e, local_endpoint) refl)),
          )
    | inr l ↦ rw l (refl, inr (λ (l', there). cc, _, refl))
  ]

  -- One more step before, that went well.
  also :
      {Good : Type 0} (r : Option String) (h t : Host E B) (p : Result (Unit {0}) × Host E B)
      → r ≡ none
      → t.server ≡ h.server
      → IsStarted Good t p
      → IsStarted ((r ≡ none) × Good) h p
  also r h t p e same (server, inl (good, e', thread, there)) =
      (server ∙ same, inl ((e, good), e', thread, there))
  also r h t p e same (server, inr (bad, message, e')) =
      (server ∙ same, inr (λ (here, good). bad good, message, e'))

  accepted :
      (port : ℕ) (h : Host E B) (r : Option String)
      → (W.start_accept h.endpoint).0 ≡ r
      → IsStarted (Accepts W h.endpoint) h (start_accepting W port h)
  unfolding start_accepting
  accepted port h (some message) e = rw e (refl, inr (λ (e', good). cc, _, refl))
  accepted port h none e =
      let t : Host E B = record h { endpoint = (W.start_accept h.endpoint).1 } in
      subst (IsStarted (Accepts W h.endpoint) h) (sym (rw e refl)) (
        also (W.start_accept h.endpoint).0 h t (run_server W port t) e refl
          (resolved port t (W.get_local_endpoint t.endpoint) refl))

  module _ (host : String) (port : ℕ) (h : Host E B) where
    listened :
        (r : Option String)
        → (W.listen host (to_string port) h.endpoint).0 ≡ r
        → IsStarted (CanStart W host port h.endpoint) h (start_listening W host port h)
    unfolding start_listening
    listened (some message) e = rw e (refl, inr (λ (e', good). cc, _, refl))
    listened none e =
        let t : Host E B = record h { endpoint = (W.listen host (to_string port) h.endpoint).1 } in
        subst (IsStarted (CanStart W host port h.endpoint) h) (sym (rw e refl)) (
          also (W.listen host (to_string port) h.endpoint).0 h t (start_accepting W port t) e refl
            (accepted port t (W.start_accept t.endpoint).0 refl))

    abbrev start_if : Bool → Result (Unit {0}) × Host E B
    start_if started =
        (if started then throw (failure "Server already started") else start_listening W host port)
          h

    -- A start of a server that has no thread touches none of its tables. It returns exactly when
    -- the endpoint listens on the host and the port, then accepts connections, is listening and has
    -- an address, and leaves a thread and an endpoint that localEndpoint then gives; in every other
    -- case it throws. A start of a server that has a thread changes nothing and throws.
    pub start_lem :
        ((h.server_thread ≡ false)
          × IsStarted (CanStart W host port h.endpoint) h (start W host port h))
        ⊎ ((h.server_thread ≡ true)
            × (start W host port h ≡ (throws (failure "Server already started"), h)))
    unfolding start
    start_lem = elim (Bool-cases h.server_thread) [
      | inl e ↦ inr (e, ap start_if e)
      | inr e ↦ inl (
        e,
        subst (IsStarted (CanStart W host port h.endpoint) h) (sym (ap start_if e))
            (listened _ refl),
      )
    ]
