-- ===== src/Server/Lifecycle/Stopping.antt =====
-- stop: the wait for the connections ends in time, and leaves a stopped server.
use foxglove_bridge_release.Base.{
  ℕ, zero, suc, ◌+◌, ◌*◌, ◌≤◌, ◌≡◌, ◌⊎◌, refl, Bool, true, false, not, ◌&&◌, List, [], arith, inl,
  inr, ltb, Bool-cases,
}
use foxglove_bridge_release.Base.Lists.{is_empty}
use foxglove_bridge_release.Server.Lifecycle.{
  Websocketpp, Host, connections_of, wait_loop, terminate_all, force_stop, close_connections,
  join_thread, stop_accepting, stop_running, stop, max_shutdown_ms, sleep_ms,
}

module _ {E B : Type 0} (W : Websocketpp E) (poll_one : Host E B → Host E B) where
  -- the test of the loop
  abbrev pub waits : ℕ × Host E B → Bool
  waits (duration_ms, h) = not (W.stopped h.endpoint) && ltb duration_ms max_shutdown_ms

  leaves_at_once :
      (fuel d : ℕ) (h : Host E B) → waits (d, h) ≡ false → wait_loop W poll_one fuel d h ≡ (d, h)
  unfolding wait_loop
  leaves_at_once zero d h e = refl
  leaves_at_once (suc fuel) d h e = rw e refl

  goes_on :
      (fuel d : ℕ) (h : Host E B)
      → waits (d, h) ≡ true
      → wait_loop W poll_one (suc fuel) d h ≡ wait_loop W poll_one fuel (d + sleep_ms) (poll_one h)
  unfolding wait_loop
  goes_on fuel d h e = rw e refl

  exits :
      (fuel d : ℕ) (h : Host E B)
      → max_shutdown_ms ≤ d + sleep_ms * fuel
      → waits (wait_loop W poll_one fuel d h) ≡ false
  exits zero d h enough =
      rw (leaves_at_once 0 d h (ground (arith, enough))) (ground (arith, enough))
  exits (suc fuel) d h enough = elim (Bool-cases (waits (d, h))) [
    | inl e ↦
        rw (goes_on fuel d h e) (exits fuel (d + sleep_ms) (poll_one h) (omega (arith, enough)))
    | inr e ↦ rw (leaves_at_once (suc fuel) d h e) e
  ]

  more_fuel :
      (fuel more d : ℕ) (h : Host E B)
      → fuel ≤ more
      → max_shutdown_ms ≤ d + sleep_ms * fuel
      → wait_loop W poll_one more d h ≡ wait_loop W poll_one fuel d h
  more_fuel zero more d h less enough =
      let e : waits (d, h) ≡ false = ground (arith, enough) in
      rw (leaves_at_once more d h e, leaves_at_once 0 d h e) refl
  more_fuel (suc fuel) zero d h less enough = absurd (omega (arith, less))
  more_fuel (suc fuel) (suc more) d h less enough = elim (Bool-cases (waits (d, h))) [
    | inl e ↦
        rw (goes_on fuel d h e, goes_on more d h e)
          (more_fuel fuel more (d + sleep_ms) (poll_one h) (omega (arith, less))
            (omega (arith, enough)))
    | inr e ↦ rw (leaves_at_once (suc fuel) d h e, leaves_at_once (suc more) d h e) refl
  ]

  at_most :
      (fuel k : ℕ) (h : Host E B)
      → k ≤ 100
      → (wait_loop W poll_one fuel (sleep_ms * k) h).0 ≤ max_shutdown_ms
  unfolding wait_loop
  at_most zero k h small = omega (arith, small)
  at_most (suc fuel) k h small = elim (Bool-cases (waits (sleep_ms * k, h))) [
    | inl e ↦
        let next : sleep_ms * k + sleep_ms ≡ sleep_ms * suc k = omega arith in
        rw (goes_on fuel (sleep_ms * k) h e)
          (rw next (at_most fuel (suc k) (poll_one h) (ground (arith, e))))
    | inr e ↦ rw (leaves_at_once (suc fuel) (sleep_ms * k) h e) (omega (arith, small))
  ]

  -- The wait of stop ends: whatever the polls do, 100 rounds leave the loop by its own test, with the
  -- endpoint stopped or exactly 1000 ms counted, and further fuel gives the same.
  pub wait_loop_lem :
      (more : ℕ) (h : Host E B)
      → 100 ≤ more
      → let (duration_ms, waited) = wait_loop W poll_one more 0 h in
        (wait_loop W poll_one more 0 h ≡ wait_loop W poll_one 100 0 h)
        × ((W.stopped waited.endpoint ≡ true) ⊎ (duration_ms ≡ max_shutdown_ms))
  wait_loop_lem more h enough =
      let e = more_fuel 100 more 0 h enough (omega arith) in
      (
        e,
        rw e (
            left_by (wait_loop W poll_one 100 0 h) (exits 100 0 h (omega arith))
              (at_most 100 0 h (omega arith))),
      )
    where
      left_by :
          (p : ℕ × Host E B)
          → waits p ≡ false
          → p.0 ≤ max_shutdown_ms
          → (W.stopped (p.1.endpoint) ≡ true) ⊎ (p.0 ≡ max_shutdown_ms)
      left_by p e small = ground (arith, e, small)

  module _ (join : Host E B → Host E B) (stop_stopped : (e : E) → W.stopped (W.stop e) ≡ true) where
    force_stop_stopped :
        (connections : List ℕ) (h : Host E B)
        → W.stopped (force_stop W connections h).endpoint ≡ true
    unfolding force_stop
    force_stop_stopped connections h = elim (Bool-cases (W.stopped h.endpoint)) [
      | inl e ↦ rw e e
      | inr e ↦ rw e (stop_stopped (terminate_all W connections h.endpoint))
    ]

    closed_stopped :
        (connections : List ℕ) (h : Host E B)
        → is_empty connections ≡ false
        → W.stopped (close_connections W poll_one connections h).endpoint ≡ true
    unfolding close_connections
    closed_stopped connections h e = rw e (force_stop_stopped connections _)

    joined_stopped :
        ((h : Host E B) → W.stopped h.endpoint ≡ true → W.stopped (join h).endpoint ≡ true)
        → (h : Host E B) → W.stopped h.endpoint ≡ true
        → (W.stopped (join_thread join h).endpoint ≡ true)
          × ((join_thread join h).server_thread ≡ false)
    unfolding join_thread
    joined_stopped kept h e = elim (Bool-cases h.server_thread) [
      | inl t ↦ simp t (kept h e, refl)
      | inr t ↦ simp t (e, refl)
    ]

    clients_accepting : (h : Host E B) → (stop_accepting W h).server.clients ≡ h.server.clients
    unfolding stop_accepting
    clients_accepting h = ground arith

    running_stopped :
        ((h : Host E B) → W.stopped h.endpoint ≡ true → W.stopped (join h).endpoint ≡ true)
        → (h : Host E B)
        → is_empty (connections_of W (stop_accepting W h).endpoint h.server.clients) ≡ false
        → let t = stop_running W poll_one join h in
          (W.stopped t.endpoint ≡ true) × (t.server_thread ≡ false) × (t.server.clients ≡ [])
    unfolding stop_running
    running_stopped kept h some_open =
        let accepting = stop_accepting W h in
        let connections = connections_of W accepting.endpoint accepting.server.clients in
        let closed = close_connections W poll_one connections accepting in
        let open_too : is_empty connections ≡ false = rw (clients_accepting h) some_open in
        let r = joined_stopped kept closed (closed_stopped connections accepting open_too) in
        (r.0, r.1, refl)

    stopped_twice : (t : Host E B) → W.stopped t.endpoint ≡ true → stop W poll_one join t ≡ t
    unfolding stop
    stopped_twice t e = rw e refl

    -- When websocketpp's stop makes the endpoint stopped and the end of the run loop leaves it so,
    -- and some client has a connection once the server accepts no more, then stop of a server that
    -- runs ends with the endpoint stopped, no thread and no client, and a second stop does nothing.
    pub stop_lem :
        ((h : Host E B) → W.stopped h.endpoint ≡ true → W.stopped (join h).endpoint ≡ true)
        → (h : Host E B) → W.stopped h.endpoint ≡ false
        → is_empty (connections_of W (stop_accepting W h).endpoint h.server.clients) ≡ false
        → let t = stop W poll_one join h in
          (W.stopped t.endpoint ≡ true)
          × (t.server_thread ≡ false)
          × (t.server.clients ≡ [])
          × (stop W poll_one join t ≡ t)
    unfolding stop
    stop_lem kept h running some_open =
        let r = running_stopped kept h some_open in
        rw runs (r.0, r.1, r.2, stopped_twice (stop_running W poll_one join h) r.0)
      where
        runs : stop W poll_one join h ≡ stop_running W poll_one join h
        runs = rw running refl
