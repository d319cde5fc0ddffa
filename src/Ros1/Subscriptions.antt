-- ===== src/Ros1/Subscriptions.antt =====
-- What the ROS 1 bridge's handlers make of its subscriptions and publications.
use foxglove_bridge_release.Base.{ℕ, String, ◌≡◌, refl, none, some, [], arith}
use foxglove_bridge_release.Base.Eq.{id_eq, string_eq, pair_eq}
use foxglove_bridge_release.Base.Map.{find, emplace, update}
use foxglove_bridge_release.Base.Map.Nested.{
  Updated, entry_at, erase_entry, enter_entry, erase_entry-Updated, enter_entry-Updated,
  emplace-entry_at,
}
use foxglove_bridge_release.Base.Exec.{ok, skip, catching-lift_ok}
use foxglove_bridge_release.Server.{Channel}
use foxglove_bridge_release.Ros1.{Bridge, Subscription, subscription_queue_length}
use foxglove_bridge_release.Ros1.Handlers.{
  create_subscription, subscribe_client, subscribe_handler, unsubscribe_handler,
}

unsubscribe_handler_erases :
    (chan hdl : ℕ) (b : Bridge)
    → unsubscribe_handler chan hdl b
      ≡ (ok tt, record b { subscriptions = erase_entry chan hdl b.subscriptions })
unfolding unsubscribe_handler
unsubscribe_handler_erases chan hdl b = ground arith

module _ (chan hdl : ℕ) (b : Bridge) (topic datatype : String) (channel : Channel) where
  abbrev pub new_subscription : Subscription
  new_subscription = record {
    topic = topic;
    queue_length = subscription_queue_length;
    channel = channel;
    client_handle = hdl;
  }

  create_ok :
      (t : Bridge)
      → t.ros.subscribe topic subscription_queue_length ≡ ok tt
      → create_subscription chan hdl (topic, datatype) channel t ≡ (
        ok tt,
        record t { subscriptions = update chan (emplace hdl new_subscription) t.subscriptions },
      )
  unfolding create_subscription
  create_ok t created =
      catching-lift_ok (t.ros.subscribe topic subscription_queue_length)
        (λ u. record u {
          subscriptions = update chan (emplace hdl new_subscription) u.subscriptions;
        })
        (λ ex. skip) t created

  module _ (created : b.ros.subscribe topic subscription_queue_length ≡ ok tt)
      (known : find chan b.channel_to_topic_and_datatype ≡ some (topic, datatype))
      (advertised : find (topic, datatype) b.advertised_topics ≡ some channel)
      (new : entry_at chan hdl b.subscriptions ≡ none) where
    handler_known :
        subscribe_handler chan hdl b ≡ subscribe_client chan hdl (topic, datatype) channel b
    unfolding subscribe_handler
    handler_known = rw known (rw advertised refl)

    subscribe_handler_enters : subscribe_handler chan hdl b ≡ (
      ok tt,
      record b { subscriptions = enter_entry chan hdl new_subscription b.subscriptions },
    )
    unfolding subscribe_client
    subscribe_handler_enters = rw handler_known (
        rw (emplace-entry_at chan hdl b.subscriptions) (
          rw new (
            ground (
              arith,
              create_ok (record b { subscriptions = emplace chan [] b.subscriptions }) created,
            ))))

    -- When a channel is known and its topic advertised, roscpp subscribes and the client has no
    -- subscription yet, subscribeHandler enters one for the client, and unsubscribeHandler after it
    -- takes it away: every subscription of any client is then as before. Neither throws.
    pub unsubscribe_handler-subscribe_handler :
        let t = (subscribe_handler chan hdl b).1 in
        ((subscribe_handler chan hdl b).0 ≡ ok tt)
        × Updated chan hdl (some new_subscription) b.subscriptions t.subscriptions
        × ((unsubscribe_handler chan hdl t).0 ≡ ok tt)
        × Updated chan hdl none b.subscriptions (unsubscribe_handler chan hdl t).1.subscriptions
    unsubscribe_handler-subscribe_handler =
        let entered = enter_entry chan hdl new_subscription b.subscriptions in
        let e = enter_entry-Updated chan hdl new_subscription b.subscriptions new in
        rw subscribe_handler_enters (
          rw (unsubscribe_handler_erases chan hdl)
            (refl, e, refl, λ c h. ground (arith, erase_entry-Updated chan hdl entered c h, e c h)))
