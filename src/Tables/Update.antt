-- ===== src/Tables/Update.antt =====
-- What the two loops of updateAdvertisedTopics leave in the tables, for any bodies with the laws of
-- `IsMaintained`.
use foxglove_bridge_release.Base.{
  ℕ, ◌+◌, ◌^◌, ◌<◌, ◌≡◌, refl, true, false, ◌||◌, none, some, List, [], ◌∷◌, arith, inl, inr,
  if◌then◌else◌, Option-cases, sym, ◌∙◌,
}
use foxglove_bridge_release.Base.Eq.{==_iff, id_eq, pair_eq}
use foxglove_bridge_release.Base.Lists.{length}
use foxglove_bridge_release.Base.Map.{Map, find, contains, is_some, find-emplace, find-erase}
use foxglove_bridge_release.Base.Exec.{Exec, ok, for_each, for_each-invariant}
use foxglove_bridge_release.Server.{Channel, ChannelWithoutId}
use foxglove_bridge_release.Ros2.{TopicAndDatatype}
use foxglove_bridge_release.Ros2.Topics.{new_topics, removed_topics}
use foxglove_bridge_release.Tables.{Tables}
use foxglove_bridge_release.Tables.Loops.{
  Once, new_topics-Once, removed_topics-Once, contains-new_topics, contains-removed_topics,
}
use foxglove_bridge_release.Tables.Laws.{
  IsTrackedIn, Same, Entered, IsMaintained, Same-IsTracked, Erased-IsTracked, Entered-IsTracked,
}

module _ {S : Type 0} (T : Tables S) (I : S → Type 0)
    (remove advertise : TopicAndDatatype → Exec S (Unit {0}))
    (m : IsMaintained T I remove advertise) (latest : List TopicAndDatatype)
    (old : Map TopicAndDatatype Channel) where
  -- between the rounds of the first loop, with `ts` still to remove
  record Removing (n : ℕ) (ts : List TopicAndDatatype) (s : S) : Type 0 where
    pub once : Once ts
    pub gone : (u : TopicAndDatatype) → contains u ts ≡ true → contains u latest ≡ false
    pub was : (u : TopicAndDatatype) → contains u ts ≡ true → is_some (find u old) ≡ true
    pub now :
        (u : TopicAndDatatype)
        → find u (T.advertised s)
          ≡ (if contains u ts || contains u latest then find u old else none)
    pub tracked : IsTrackedIn T s
    pub kept : I s
    pub next : T.next s ≡ n

  start-Removing :
      (s : S)
      → T.advertised s ≡ old
      → IsTrackedIn T s
      → I s
      → Removing (T.next s) (removed_topics latest old) s
  start-Removing s e v i = record {
    once = removed_topics-Once latest old (rw (sym e) v.distinct);
    gone = λ u h. ground (arith, contains-removed_topics latest old u);
    was = λ u h. ground (arith, contains-removed_topics latest old u);
    now = λ u. rw e (ground (arith, contains-removed_topics latest old u));
    tracked = v;
    kept = i;
    next = refl;
  }

  step-Removing :
      (n : ℕ) (t : TopicAndDatatype) (ts : List TopicAndDatatype) (s : S)
      → Removing n (t ∷ ts) s
      → ((remove t s).0 ≡ ok tt) × Removing n ts (remove t s).1
  unfolding contains
  step-Removing n t ts s r = elim (Option-cases (find t (T.advertised s))) [
    | inl e ↦ absurd (ground (arith, r.now t, r.was t, ==_iff t t))
    | inr (ch, e) ↦
        let (returns, i, erased) = m.removes t s ch r.kept e in
        (
          returns,
          record {
            once = r.once.1;
            gone = λ u h. r.gone u (ground (arith, h));
            was = λ u h. r.was u (ground (arith, h));
            now = λ u. rw erased.advertised (
                ground (
                  arith,
                  find-erase t u (T.advertised s),
                  ==_iff t u,
                  r.now u,
                  r.once.0,
                  r.gone t (ground (arith, ==_iff t t)),
                ));
            tracked = Erased-IsTracked T t ch s (remove t s).1 erased e r.tracked;
            kept = i;
            next = erased.next ∙ r.next;
          },
        )
  ]

  -- When a topic that is skipped is none of those here, every one is entered.
  abbrev pub EntersAll : Type 0
  EntersAll =
      (t : TopicAndDatatype) (s : S)
      → I s
      → find t (T.advertised s) ≡ none
      → T.next s + 1 < 2 ^ 32
      → is_some (find t (T.advertised (advertise t s).1)) ≡ true

  -- between the rounds of the second loop, with `ts` still to advertise
  record Adding (ts : List TopicAndDatatype) (s : S) : Type 0 where
    pub once : Once ts
    pub listed : (u : TopicAndDatatype) → contains u ts ≡ true → contains u latest ≡ true
    pub new : (u : TopicAndDatatype) → contains u ts ≡ true → find u (T.advertised s) ≡ none
    pub only : (u : TopicAndDatatype) → contains u latest ≡ false → find u (T.advertised s) ≡ none
    pub stays :
        (u : TopicAndDatatype) (ch : Channel)
        → find u old ≡ some ch
        → contains u latest ≡ true
        → find u (T.advertised s) ≡ some ch
    pub all :
        EntersAll
        → (u : TopicAndDatatype) → contains u latest ≡ true
        → contains u ts ≡ false
        → is_some (find u (T.advertised s)) ≡ true
    pub tracked : IsTrackedIn T s
    pub kept : I s
    pub room : T.next s + length ts < 2 ^ 32

  start-Adding :
      (n : ℕ) (s : S)
      → Removing n [] s
      → Once latest
      → n + length (new_topics old latest) < 2 ^ 32
      → Adding (new_topics old latest) s
  unfolding contains
  start-Adding n s r o room = record {
    once = new_topics-Once old latest o;
    listed = λ u h. ground (arith, contains-new_topics old latest u);
    new = λ u h. ground (arith, contains-new_topics old latest u, r.now u);
    only = λ u h. ground (arith, r.now u);
    stays = λ u ch h l. ground (arith, r.now u);
    all = λ enters u l h. ground (arith, contains-new_topics old latest u, r.now u);
    tracked = r.tracked;
    kept = r.kept;
    room = omega (arith, r.next, room);
  }

  skip-Adding :
      (t : TopicAndDatatype) (ts : List TopicAndDatatype) (s : S)
      → Adding (t ∷ ts) s
      → I (advertise t s).1
      → Same T s (advertise t s).1
      → Adding ts (advertise t s).1
  unfolding contains
  skip-Adding t ts s a i same = record {
    once = a.once.1;
    listed = λ u h. a.listed u (ground (arith, h));
    new = λ u h. rw same.advertised (a.new u (ground (arith, h)));
    only = λ u h. rw same.advertised (a.only u h);
    stays = λ u ch h l. rw same.advertised (a.stays u ch h l);
    all = λ enters u l h. ground (
      arith,
      same.advertised,
      ==_iff t u,
      a.all enters u l,
      enters t s a.kept (a.new t (ground (arith, ==_iff t t))) (omega (arith, a.room)),
    );
    tracked = Same-IsTracked T s (advertise t s).1 same a.tracked;
    kept = i;
    room = omega (arith, same.next, a.room);
  }

  enter-Adding :
      (t : TopicAndDatatype) (ts : List TopicAndDatatype) (s : S) (base : ChannelWithoutId)
      → Adding (t ∷ ts) s
      → I (advertise t s).1
      → Entered T t base s (advertise t s).1
      → Adding ts (advertise t s).1
  unfolding contains
  enter-Adding t ts s base a i e =
      let head : contains t (t ∷ ts) ≡ true = ground (arith, ==_iff t t) in
      let absent = a.new t head in
      let ch : Channel = record { base = base; id = T.next s + 1 } in
      record {
        once = a.once.1;
        listed = λ u h. a.listed u (ground (arith, h));
        new = λ u h.
            rw e.advertised
              (ground (arith, find-emplace t u ch (T.advertised s), ==_iff t u, a.once.0, a.new u));
        only = λ u h. rw e.advertised (
            ground (
              arith,
              find-emplace t u ch (T.advertised s),
              ==_iff t u,
              a.listed t head,
              a.only u h,
            ));
        stays = λ u c h l. rw e.advertised (
            ground
              (arith, find-emplace t u ch (T.advertised s), ==_iff t u, absent, a.stays u c h l));
        all = λ enters u l h. rw e.advertised (
            ground
              (arith, find-emplace t u ch (T.advertised s), ==_iff t u, absent, a.all enters u l));
        tracked = Entered-IsTracked T t base s (advertise t s).1 e absent a.tracked;
        kept = i;
        room = omega (arith, e.next, a.room);
      }

  step-Adding :
      (t : TopicAndDatatype) (ts : List TopicAndDatatype) (s : S)
      → Adding (t ∷ ts) s
      → ((advertise t s).0 ≡ ok tt) × Adding ts (advertise t s).1
  step-Adding t ts s a =
      let (returns, i, r) = m.advertises t s a.kept (omega (arith, a.room)) in
      elim r [
        | inl same ↦ (returns, skip-Adding t ts s a i same)
        | inr (base, e) ↦ (returns, enter-Adding t ts s base a i e)
      ]

  -- What is advertised after the update: topics of the latest graph alone, each that was advertised
  -- before under the channel it had, and all of them when none is skipped.
  pub record IsUpdated (s : S) : Type 0 where
    pub only : (u : TopicAndDatatype) → contains u latest ≡ false → find u (T.advertised s) ≡ none
    pub stays :
        (u : TopicAndDatatype) (ch : Channel)
        → find u old ≡ some ch
        → contains u latest ≡ true
        → find u (T.advertised s) ≡ some ch
    pub all :
        EntersAll
        → (u : TopicAndDatatype) → contains u latest ≡ true
        → is_some (find u (T.advertised s)) ≡ true
    pub tracked : IsTrackedIn T s
    pub kept : I s

  -- The two loops never throw, and leave the tables updated.
  pub loops_lem :
      (s : S)
      → T.advertised s ≡ old
      → IsTrackedIn T s
      → I s
      → Once latest
      → T.next s + length (new_topics old latest) < 2 ^ 32
      → let t = (for_each (removed_topics latest old) remove s).1 in
        ((for_each (removed_topics latest old) remove s).0 ≡ ok tt)
        × ((for_each (new_topics old latest) advertise t).0 ≡ ok tt)
        × IsUpdated (for_each (new_topics old latest) advertise t).1
  unfolding contains
  loops_lem s e v i o room =
      let (removed, r) =
        for_each-invariant (Removing (T.next s)) remove (step-Removing (T.next s))
          (removed_topics latest old) s (start-Removing s e v i) in
      let t = (for_each (removed_topics latest old) remove s).1 in
      let (added, a) =
        for_each-invariant Adding advertise step-Adding (new_topics old latest) t
          (start-Adding (T.next s) t r o room) in
      (
        removed,
        added,
        record {
          only = a.only;
          stays = a.stays;
          all = λ enters u l. a.all enters u l refl;
          tracked = a.tracked;
          kept = a.kept;
        },
      )
