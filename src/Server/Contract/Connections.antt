-- ===== src/Server/Contract/Connections.antt =====
-- What addChannel and the opening and closing of a connection do, the contract of subscriptions allows.
use foxglove_bridge_release.Base.{
  ℕ, ◌+◌, ◌%◌, ◌^◌, ◌≡◌, refl, none, [], arith, inl, inr, Option-cases,
}
use foxglove_bridge_release.Base.Eq.{==_iff, id_eq}
use foxglove_bridge_release.Base.Map.{find, find-emplace}
use foxglove_bridge_release.Json.{JsonLib}
use foxglove_bridge_release.Server.{
  Server, ClientInfo, ChannelWithoutId, Network, remote_endpoint_string,
}
use foxglove_bridge_release.Server.Connections.{
  server_info_payload, handle_connection_opened, handle_connection_closed,
}
use foxglove_bridge_release.Base.Exec.{skip, Result-cases, ◌>>=◌}
use foxglove_bridge_release.Server.Channels.{add_channel, subscription_of}
use foxglove_bridge_release.Server.Closing.{handle_connection_closed_lem}
use foxglove_bridge_release.Server.Contract.{view, add, open_connection, close_connection, Allowed}

module _ {Json B : Type 0} (J : JsonLib Json) (s : Server B) where
  pub add-Allowed :
      (base : ChannelWithoutId)
      → Allowed (add base) (view s) (view ((add_channel base >>= λ id. skip) s).1)
  unfolding add_channel subscription_of
  add-Allowed base =
      let id = (s.next_channel_id + 1) % 2 ^ 32 in
      (
        λ i. refl,
        (id, λ c. ground (arith, find-emplace id c (record { base = base; id = id }) s.channels)),
        λ i c. refl,
      )

  pub open-Allowed :
      (net : Network) (h : ℕ)
      → Allowed (open_connection net h) (view s) (view (handle_connection_opened J net h s).1)
  unfolding handle_connection_opened subscription_of
  open-Allowed net h = elim (Option-cases (net h)) [
    | inl e ↦ rw e (λ i. ground arith, λ c. refl, λ i c. refl)
    | inr (con, e) ↦
        let new : ClientInfo = record {
          name = remote_endpoint_string net h;
          handle = h;
          subscriptions_by_channel = [];
          advertised_channels = [];
        } in
        elim (Result-cases (J.dump (server_info_payload J s.name s.capabilities))) [
          | inl (message, d) ↦
              rw (e, d)
                (
                  λ i. ground (arith, find-emplace h i new s.clients, ==_iff h i),
                  λ c. refl,
                  λ i c. ground (arith, find-emplace h i new s.clients, ==_iff h i, nothing c),
                )
          | inr (x, d) ↦
              rw (e, d)
                (
                  λ i. ground (arith, find-emplace h i new s.clients, ==_iff h i),
                  λ c. refl,
                  λ i c. ground (arith, find-emplace h i new s.clients, ==_iff h i, nothing c),
                )
        ]
  ]
    where
      nothing : (c : ℕ) → find {V = ℕ} c [] ≡ none
      nothing c = unfold find in refl

  pub close-Allowed :
      (h : ℕ) → Allowed (close_connection h) (view s) (view (handle_connection_closed h s).1)
  unfolding subscription_of
  close-Allowed h =
      let r = handle_connection_closed_lem h s in
      (
        λ i. ground (arith, r.0, r.1 i, ==_iff h i),
        λ c. rw r.3 refl,
        λ i c. ground (arith, r.0, r.1 i, ==_iff h i),
      )
