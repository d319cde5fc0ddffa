-- ===== src/Ros1/Outcome.antt =====
-- How updateAdvertisedTopics of the ROS 1 bridge ends: its answer, the timer and the counter.
use foxglove_bridge_release.Base.{ℕ, Option, ◌+◌, ◌%◌, ◌^◌, ◌≡◌, refl, none, some}
use foxglove_bridge_release.Base.Eq.{id_eq, pair_eq}
use foxglove_bridge_release.Base.Exec.{Result, ok, throws}
use foxglove_bridge_release.Server.{Server}
use foxglove_bridge_release.Tables.Laws.{Same}
use foxglove_bridge_release.Ros1.{Bridge, Ros}
use foxglove_bridge_release.Ros1.Topics.{next_update_ms, schedule_update}
use foxglove_bridge_release.Ros1.Advertised.{tables}

-- How an update ends: its answer, and the timer and the counter that it leaves.
pub record Outcome : Type 0 where
  pub answer : Result (Unit {0})
  pub update_timer : Option ℕ
  pub update_count : ℕ

abbrev pub outcome : Result (Unit {0}) × Server Bridge → Outcome
outcome p = record {
  answer = p.0;
  update_timer = p.1.bridge.update_timer;
  update_count = p.1.bridge.update_count;
}

-- The outcome once the period is computed, from what createTimer does.
abbrev after_timer : ℕ → ℕ → Result (Unit {0}) → Outcome
after_timer next_ms count (ok a) = record {
  answer = ok tt;
  update_timer = some next_ms;
  update_count = count;
}
after_timer next_ms count (throws x) = record {
  answer = throws x;
  update_timer = none;
  update_count = count;
}

-- The outcome from how the broadcast of the channels ended; the counter is raised after it.
abbrev pub after_broadcast_from : Ros → ℕ → ℕ → Result (Unit {0}) → Outcome
after_broadcast_from ros count max_update_ms (ok a) =
    let next = (count + 1) % 2 ^ 64 in
    let next_ms = next_update_ms ros next max_update_ms in
    after_timer next_ms next (ros.create_timer next_ms)
after_broadcast_from ros count max_update_ms (throws x) = record {
  answer = throws x;
  update_timer = none;
  update_count = count;
}

abbrev pub after_broadcast : Bridge → Result (Unit {0}) → Outcome
after_broadcast b = after_broadcast_from b.ros b.update_count b.max_update_ms

-- What scheduling the next update leaves of how the broadcast ended.
pub record Ends (p q : Result (Unit {0}) × Server Bridge) : Type 0 where
  pub same : Same tables p.1 q.1
  pub clients : q.1.clients ≡ p.1.clients
  pub outcome_is :
      outcome q
      ≡ after_broadcast_from p.1.bridge.ros p.1.bridge.update_count p.1.bridge.max_update_ms p.0

schedule_lem :
    (s : Server Bridge) (r : Result (Unit {0}))
    → s.bridge.ros.create_timer
        (next_update_ms s.bridge.ros ((s.bridge.update_count + 1) % 2 ^ 64) s.bridge.max_update_ms)
      ≡ r
    → s.bridge.update_timer ≡ none
    → Ends (ok tt, s) (schedule_update s)
unfolding schedule_update
schedule_lem s (ok tt) e unset = rw e (record {
  same = record { advertised = refl; topics = refl; channels = refl; next = refl };
  clients = refl;
  outcome_is = rw e refl;
})
schedule_lem s (throws x) e unset = rw e (record {
  same = record { advertised = refl; topics = refl; channels = refl; next = refl };
  clients = refl;
  outcome_is = rw (e, unset) refl;
})

pub ends_lem :
    (p : Result (Unit {0}) × Server Bridge)
    → p.1.bridge.update_timer ≡ none
    → Ends p (elim p.0 as (λ _. Result (Unit {0}) × Server Bridge) [
      | ok a ↦ schedule_update p.1
      | throws x ↦ (throws x, p.1)
    ])
ends_lem (ok tt, s) unset = schedule_lem s _ refl unset
ends_lem (throws x, s) unset = record {
  same = record { advertised = refl; topics = refl; channels = refl; next = refl };
  clients = refl;
  outcome_is = rw unset refl;
}
