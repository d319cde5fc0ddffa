-- ===== src/Tables.antt =====
-- The tables in which both bridges keep what they advertise, _advertisedTopics and
-- _channelToTopicAndDatatype, beside the server's _channels: as an interface, with what the bodies
-- of the two loops of updateAdvertisedTopics do to them as laws.
pub mod Loops
pub mod Laws
pub mod Update
use foxglove_bridge_release.Base.{
  ℕ, ◌+◌, ◌^◌, ◌≤◌, ◌<◌, ◌≡◌, ◌⊎◌, none, some, List, arith, inl, inr, ap, ◌∙◌, Option-cases,
}
use foxglove_bridge_release.Base.Eq.{==_iff, id_eq, pair_eq}
use foxglove_bridge_release.Base.Map.{Map, find, emplace, erase, find-emplace, find-erase}
use foxglove_bridge_release.Base.Map.Distinct.{Distinct, emplace-Distinct, erase-Distinct}
use foxglove_bridge_release.Base.Exec.{Exec, ok}
use foxglove_bridge_release.Server.{Channel, ChannelWithoutId}
use foxglove_bridge_release.Ros2.{TopicAndDatatype}

pub record Tables (S : Type 0) : Type 0 where
  pub advertised : S → Map TopicAndDatatype Channel
  pub topics : S → Map ℕ TopicAndDatatype
  pub channels : S → Map ℕ Channel
  -- the counter that the next id is made of
  pub next : S → ℕ

-- The tables are inverse to each other, each advertised channel is the server's channel of its id,
-- and no id is above the counter.
pub record IsTracked (advertised : Map TopicAndDatatype Channel) (topics : Map ℕ TopicAndDatatype)
    (channels : Map ℕ Channel) (next : ℕ) : Type 0 where
  pub distinct : Distinct advertised
  pub listed :
      (t : TopicAndDatatype) (ch : Channel)
      → find t advertised ≡ some ch
      → (find ch.id topics ≡ some t) × (find ch.id channels ≡ some ch)
  pub tracked :
      (i : ℕ) (t : TopicAndDatatype)
      → find i topics ≡ some t
      → (ch : Channel) × ((find t advertised ≡ some ch) × (ch.id ≡ i))
  pub fresh : (i : ℕ) (ch : Channel) → find i channels ≡ some ch → i ≤ next

module _ (advertised : Map TopicAndDatatype Channel) (topics : Map ℕ TopicAndDatatype)
    (channels : Map ℕ Channel) (next : ℕ) (v : IsTracked advertised topics channels next)
    (t : TopicAndDatatype) where
  module _ (ch : Channel) (there : find t advertised ≡ some ch) where
    erased-listed :
        (u : TopicAndDatatype) (d : Channel)
        → find u (erase t advertised) ≡ some d
        → (find d.id (erase ch.id topics) ≡ some u) × (find d.id (erase ch.id channels) ≡ some d)
    erased-listed u d e = ground (
      arith,
      there,
      find-erase t u advertised,
      ==_iff t u,
      v.listed u d,
      v.listed t ch there,
      find-erase ch.id d.id topics,
      find-erase ch.id d.id channels,
      ==_iff ch.id d.id,
    )

    erased-tracked :
        (i : ℕ) (u : TopicAndDatatype)
        → find i (erase ch.id topics) ≡ some u
        → (d : Channel) × ((find u (erase t advertised) ≡ some d) × (d.id ≡ i))
    erased-tracked i u e =
        let still : find i topics ≡ some u = ground (arith, find-erase ch.id i topics) in
        let (d, (found, same)) = v.tracked i u still in
        (
          d,
          (
            ground (
              arith,
              find-erase t u advertised,
              ==_iff t u,
              there,
              find-erase ch.id i topics,
              ==_iff ch.id i,
            ),
            same,
          ),
        )

    -- Without a topic and its channel the tables are as before.
    pub erased-IsTracked :
        IsTracked (erase t advertised) (erase ch.id topics) (erase ch.id channels) next
    erased-IsTracked = record {
      distinct = erase-Distinct t advertised v.distinct;
      listed = erased-listed;
      tracked = erased-tracked;
      fresh = λ i d e. v.fresh i d (ground (arith, find-erase ch.id i channels));
    }

  module _ (base : ChannelWithoutId) (absent : find t advertised ≡ none) where
    abbrev pub entered : Channel
    entered = record { base = base; id = next + 1 }

    unused_id : find (next + 1) channels ≡ none
    unused_id = elim (Option-cases (find (next + 1) channels)) [
      | inl e ↦ e
      | inr (ch, e) ↦ absurd (omega (arith, v.fresh _ ch e))
    ]

    unused_topic : find (next + 1) topics ≡ none
    unused_topic = elim (Option-cases (find (next + 1) topics)) [
      | inl e ↦ e
      | inr (u, e) ↦
          let (ch, (found, same)) = v.tracked (next + 1) u e in
          absurd (omega (arith, v.fresh ch.id ch (v.listed u ch found).1, same))
    ]

    entered-listed :
        (u : TopicAndDatatype) (d : Channel)
        → find u (emplace t entered advertised) ≡ some d
        → (find d.id (emplace (next + 1) t topics) ≡ some u)
          × (find d.id (emplace (next + 1) entered channels) ≡ some d)
    entered-listed u d e = ground (
      arith,
      absent,
      unused_id,
      unused_topic,
      find-emplace t u entered advertised,
      ==_iff t u,
      v.listed u d,
      find-emplace (next + 1) d.id t topics,
      find-emplace (next + 1) d.id entered channels,
      ==_iff (next + 1) d.id,
    )

    entered-tracked :
        (i : ℕ) (u : TopicAndDatatype)
        → find i (emplace (next + 1) t topics) ≡ some u
        → (d : Channel) × ((find u (emplace t entered advertised) ≡ some d) × (d.id ≡ i))
    entered-tracked i u e = elim (Option-cases (find i topics)) [
      | inl new ↦ (
        entered,
        (
          ground (
            arith,
            absent,
            find-emplace (next + 1) i t topics,
            ==_iff (next + 1) i,
            unused_topic,
            find-emplace t u entered advertised,
            ==_iff t u,
          ),
          ground (arith, find-emplace (next + 1) i t topics, ==_iff (next + 1) i, unused_topic),
        ),
      )
      | inr (w, old) ↦
          let same : w ≡ u =
            ground (arith, find-emplace (next + 1) i t topics, ==_iff (next + 1) i, unused_topic) in
          let (d, (found, id)) = v.tracked i u (old ∙ ap some same) in
          (d, (ground (arith, absent, find-emplace t u entered advertised, ==_iff t u), id))
    ]

    -- With a topic that was not advertised, under the next id, the tables are as before.
    pub entered-IsTracked :
        IsTracked
          (emplace t entered advertised)
          (emplace (next + 1) t topics)
          (emplace (next + 1) entered channels)
          (next + 1)
    entered-IsTracked = record {
      distinct = emplace-Distinct t entered advertised v.distinct;
      listed = entered-listed;
      tracked = entered-tracked;
      fresh = λ i ch e.
          ground
            (arith, find-emplace (next + 1) i entered channels, ==_iff (next + 1) i, v.fresh i ch);
    }
