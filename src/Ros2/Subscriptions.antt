-- ===== src/Ros2/Subscriptions.antt =====
-- What subscribeHandler and unsubscribeHandler make of the bridge's subscriptions, and the handlers
-- of client channels of its publications.
use foxglove_bridge_release.Base.{ℕ, String, List, ◌≡◌, refl, none, some, [], arith}
use foxglove_bridge_release.Base.Eq.{id_eq, pair_eq}
use foxglove_bridge_release.Base.Map.{find, emplace, update}
use foxglove_bridge_release.Base.Map.Nested.{
  Updated, entry_at, erase_entry, enter_entry, erase_entry-Updated, enter_entry-Updated,
  emplace-entry_at,
}
use foxglove_bridge_release.Base.Exec.{ok, skip, catching-lift_ok}
use foxglove_bridge_release.Server.{Channel}
use foxglove_bridge_release.Ros2.{Bridge, Subscription, Qos}
use foxglove_bridge_release.Ros2.Profile.{select_qos}
use foxglove_bridge_release.Ros2.Handlers.{
  create_subscription, subscribe_client, subscribe_handler, unsubscribe_handler,
}

unsubscribe_handler_erases :
    (chan hdl : ℕ) (b : Bridge)
    → unsubscribe_handler chan hdl b
      ≡ (ok tt, record b { subscriptions = erase_entry chan hdl b.subscriptions })
unfolding unsubscribe_handler
unsubscribe_handler_erases chan hdl b = ground arith

-- After unsubscribeHandler the client has no subscription to the channel, and every other
-- subscription of any client is as before. It never throws.
pub unsubscribe_handler_lem :
    (chan hdl : ℕ) (b : Bridge)
    → ((unsubscribe_handler chan hdl b).0 ≡ ok tt)
      × Updated chan hdl none b.subscriptions (unsubscribe_handler chan hdl b).1.subscriptions
unsubscribe_handler_lem chan hdl b =
    rw (unsubscribe_handler_erases chan hdl b) (refl, erase_entry-Updated chan hdl b.subscriptions)

module _ (chan hdl : ℕ) (topic datatype : String) (channel : Channel) (publishers : List Qos) where
  -- the subscription that is made for a client
  abbrev made : Bridge → Subscription
  made b = record {
    topic = topic;
    datatype = datatype;
    qos = select_qos b.max_qos_depth publishers;
    channel = channel;
    client_handle = hdl;
  }

  create_ok :
      (b : Bridge)
      → b.ros.publishers_qos topic ≡ ok publishers
      → b.ros.create_generic_subscription topic datatype (made b).qos ≡ ok tt
      → create_subscription chan hdl (topic, datatype) channel b
        ≡ (ok tt, record b { subscriptions = update chan (emplace hdl (made b)) b.subscriptions })
  unfolding create_subscription
  create_ok b offered created = rw offered (
      catching-lift_ok (b.ros.create_generic_subscription topic datatype (made b).qos)
        (λ t. record t { subscriptions = update chan (emplace hdl (made b)) t.subscriptions })
        (λ ex. skip) b created)

module _ (chan hdl : ℕ) (b : Bridge) (topic datatype : String) (channel : Channel)
    (publishers : List Qos) where
  abbrev pub new_subscription : Subscription
  new_subscription = made chan hdl topic datatype channel publishers b

  module _ (offered : b.ros.publishers_qos topic ≡ ok publishers)
      (created : b.ros.create_generic_subscription topic datatype new_subscription.qos ≡ ok tt)
      (known : find chan b.channel_to_topic_and_datatype ≡ some (topic, datatype))
      (advertised : find (topic, datatype) b.advertised_topics ≡ some channel)
      (new : entry_at chan hdl b.subscriptions ≡ none) where
    handler_known :
        subscribe_handler chan hdl b ≡ subscribe_client chan hdl (topic, datatype) channel b
    unfolding subscribe_handler
    handler_known = rw known (rw advertised refl)

    subscribe_handler_enters : subscribe_handler chan hdl b ≡ (
      ok tt,
      record b { subscriptions = enter_entry chan hdl new_subscription b.subscriptions },
    )
    unfolding subscribe_client
    subscribe_handler_enters = rw handler_known (
        rw (emplace-entry_at chan hdl b.subscriptions) (
          rw new (
            ground (
              arith,
              create_ok chan hdl topic datatype channel publishers
                  (record b { subscriptions = emplace chan [] b.subscriptions }) offered created,
            ))))

    -- When a channel is known and its topic advertised, rclcpp tells the profiles of its
    -- publishers and creates the subscription, and the client has none yet, subscribeHandler enters one with the selected profile for the client, and
    -- every other subscription of any client is as before. It does not throw.
    pub subscribe_handler_lem :
        ((subscribe_handler chan hdl b).0 ≡ ok tt)
        × Updated chan hdl
            (some new_subscription)
            b.subscriptions
            (subscribe_handler chan hdl b).1.subscriptions
    subscribe_handler_lem =
        rw subscribe_handler_enters
          (refl, enter_entry-Updated chan hdl new_subscription b.subscriptions new)
