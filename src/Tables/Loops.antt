-- ===== src/Tables/Loops.antt =====
-- The two loops of updateAdvertisedTopics, over the removed topics and over the new ones.
use foxglove_bridge_release.Base.{◌≡◌, refl, false, not, ◌&&◌, List, [], ◌∷◌, arith}
use foxglove_bridge_release.Base.Eq.{==_iff, id_eq, pair_eq}
use foxglove_bridge_release.Base.Map.{Map, find, contains, insert, is_some, contains-insert}
use foxglove_bridge_release.Base.Map.Distinct.{Distinct}
use foxglove_bridge_release.Server.{Channel}
use foxglove_bridge_release.Ros2.{TopicAndDatatype}
use foxglove_bridge_release.Ros2.Topics.{new_topics, removed_topics}

-- A list without repetition, as a std::unordered_set gives.
abbrev pub Once : List TopicAndDatatype → Type 0
Once [] = Unit
Once (t ∷ ts) = (contains t ts ≡ false) × Once ts

pub insert-Once : (t : TopicAndDatatype) (ts : List TopicAndDatatype) → Once ts → Once (insert t ts)
unfolding insert contains
insert-Once t [] o = (refl, tt)
insert-Once t (u ∷ ts) o =
    ground (arith, ==_iff u t, ==_iff t u, contains-insert t u ts, insert-Once t ts o.1)

pub contains-new_topics :
    (m : Map TopicAndDatatype Channel) (latest : List TopicAndDatatype) (u : TopicAndDatatype)
    → contains u (new_topics m latest) ≡ (contains u latest && not (is_some (find u m)))
unfolding contains new_topics
contains-new_topics m [] u = refl
contains-new_topics m (t ∷ latest) u = ground (arith, ==_iff t u, contains-new_topics m latest u)

pub new_topics-Once :
    (m : Map TopicAndDatatype Channel) (latest : List TopicAndDatatype)
    → Once latest
    → Once (new_topics m latest)
unfolding new_topics
new_topics-Once m [] o = tt
new_topics-Once m (t ∷ latest) o =
    ground (arith, contains-new_topics m latest t, new_topics-Once m latest o.1)

pub contains-removed_topics :
    (latest : List TopicAndDatatype) (m : Map TopicAndDatatype Channel) (u : TopicAndDatatype)
    → contains u (removed_topics latest m) ≡ (is_some (find u m) && not (contains u latest))
unfolding contains removed_topics find
contains-removed_topics latest [] u = refl
contains-removed_topics latest ((t, ch) ∷ m) u =
    ground (arith, ==_iff t u, contains-removed_topics latest m u)

pub removed_topics-Once :
    (latest : List TopicAndDatatype) (m : Map TopicAndDatatype Channel)
    → Distinct m
    → Once (removed_topics latest m)
unfolding removed_topics
removed_topics-Once latest [] d = tt
removed_topics-Once latest ((t, ch) ∷ m) d =
    ground (arith, contains-removed_topics latest m t, removed_topics-Once latest m d.1)
