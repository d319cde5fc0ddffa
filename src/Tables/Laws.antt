-- ===== src/Tables/Laws.antt =====
-- The laws of the bodies of the two loops of updateAdvertisedTopics, on the tables.
use foxglove_bridge_release.Base.{◌+◌, ◌^◌, ◌<◌, ◌≡◌, ◌⊎◌, none, some}
use foxglove_bridge_release.Base.Eq.{id_eq, pair_eq}
use foxglove_bridge_release.Base.Map.{find, emplace, erase}
use foxglove_bridge_release.Base.Exec.{Exec, ok}
use foxglove_bridge_release.Server.{Channel, ChannelWithoutId}
use foxglove_bridge_release.Ros2.{TopicAndDatatype}
use foxglove_bridge_release.Tables.{Tables, IsTracked, erased-IsTracked, entered-IsTracked}

module _ {S : Type 0} (T : Tables S) where
  abbrev pub IsTrackedIn : S → Type 0
  IsTrackedIn s = IsTracked (T.advertised s) (T.topics s) (T.channels s) (T.next s)

  -- A topic that is advertised is taken out of each table.
  pub record Erased (t : TopicAndDatatype) (ch : Channel) (s s' : S) : Type 0 where
    pub advertised : T.advertised s' ≡ erase t (T.advertised s)
    pub topics : T.topics s' ≡ erase ch.id (T.topics s)
    pub channels : T.channels s' ≡ erase ch.id (T.channels s)
    pub next : T.next s' ≡ T.next s

  pub record Same (s s' : S) : Type 0 where
    pub advertised : T.advertised s' ≡ T.advertised s
    pub topics : T.topics s' ≡ T.topics s
    pub channels : T.channels s' ≡ T.channels s
    pub next : T.next s' ≡ T.next s

  -- A topic is entered in each table under the next id.
  pub record Entered (t : TopicAndDatatype) (base : ChannelWithoutId) (s s' : S) : Type 0 where
    pub advertised :
        T.advertised s' ≡ emplace t (record { base = base; id = T.next s + 1 }) (T.advertised s)
    pub topics : T.topics s' ≡ emplace (T.next s + 1) t (T.topics s)
    pub channels :
        T.channels s'
        ≡ emplace (T.next s + 1) (record { base = base; id = T.next s + 1 }) (T.channels s)
    pub next : T.next s' ≡ T.next s + 1

  pub record IsMaintained (I : S → Type 0) (remove advertise : TopicAndDatatype → Exec S (Unit {0}))
      : Type 0 where
    pub removes :
        (t : TopicAndDatatype) (s : S) (ch : Channel)
        → I s
        → find t (T.advertised s) ≡ some ch
        → ((remove t s).0 ≡ ok tt) × I (remove t s).1 × Erased t ch s (remove t s).1
    -- A topic that is skipped changes no table.
    pub advertises :
        (t : TopicAndDatatype) (s : S)
        → I s
        → T.next s + 1 < 2 ^ 32
        → ((advertise t s).0 ≡ ok tt)
          × I (advertise t s).1
          × (Same s (advertise t s).1
              ⊎ ((base : ChannelWithoutId) × Entered t base s (advertise t s).1))

  pub Same-IsTracked : (s s' : S) → Same s s' → IsTrackedIn s → IsTrackedIn s'
  Same-IsTracked s s' e v = rw (e.advertised, e.topics, e.channels, e.next) v

  pub Erased-IsTracked :
      (t : TopicAndDatatype) (ch : Channel) (s s' : S)
      → Erased t ch s s'
      → find t (T.advertised s) ≡ some ch
      → IsTrackedIn s
      → IsTrackedIn s'
  Erased-IsTracked t ch s s' e there v =
      rw (e.advertised, e.topics, e.channels, e.next)
        (erased-IsTracked (T.advertised s) (T.topics s) (T.channels s) (T.next s) v t ch there)

  pub Entered-IsTracked :
      (t : TopicAndDatatype) (base : ChannelWithoutId) (s s' : S)
      → Entered t base s s'
      → find t (T.advertised s) ≡ none
      → IsTrackedIn s
      → IsTrackedIn s'
  Entered-IsTracked t base s s' e absent v =
      rw (e.advertised, e.topics, e.channels, e.next)
        (entered-IsTracked (T.advertised s) (T.topics s) (T.channels s) (T.next s) v t base absent)
