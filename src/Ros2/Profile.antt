-- ===== src/Ros2/Profile.antt =====
-- The QoS profile that subscribeHandler selects from those of a topic's publishers.
use foxglove_bridge_release.Base.{
  ℕ, suc, ◌+◌, ◌%◌, ◌^◌, ◌≤◌, ◌<◌, ◌≡◌, refl, Bool, true, false, List, [], ◌∷◌, ◌&&◌, arith, ltb,
  if◌then◌else◌,
}
use foxglove_bridge_release.Base.Eq.{◌==◌, id_eq}
use foxglove_bridge_release.Base.Lists.{length}
use foxglove_bridge_release.Ros2.{
  ReliabilityPolicy, reliable, best_effort, DurabilityPolicy, transient_local, volatile, Qos,
}

abbrev pub min : ℕ → ℕ → ℕ
min a b = if ltb b a then b else a

abbrev pub max : ℕ → ℕ → ℕ
max a b = if ltb a b then b else a

-- What the loop over the publishers counts.
pub record Counts : Type 0 where
  pub depth : ℕ
  pub reliable_endpoints : ℕ
  pub transient_local_endpoints : ℕ

abbrev pub count_reliable : ReliabilityPolicy → ℕ → ℕ
count_reliable reliable n = suc n
count_reliable best_effort n = n

abbrev pub count_transient_local : DurabilityPolicy → ℕ → ℕ
count_transient_local transient_local n = suc n
count_transient_local volatile n = n

-- The body of the loop.
abbrev pub visit_publisher : ℕ → Qos → Counts → Counts
visit_publisher max_qos_depth qos c = record {
  depth = min max_qos_depth ((c.depth + qos.depth) % 2 ^ 64);
  reliable_endpoints = count_reliable qos.reliability c.reliable_endpoints;
  transient_local_endpoints = count_transient_local qos.durability c.transient_local_endpoints;
}

unfoldable pub count_publishers : ℕ → List Qos → Counts → Counts
count_publishers max_qos_depth [] c = c
count_publishers max_qos_depth (qos ∷ rest) c =
    count_publishers max_qos_depth rest (visit_publisher max_qos_depth qos c)

abbrev pub no_counts : Counts
no_counts = record { depth = 0; reliable_endpoints = 0; transient_local_endpoints = 0 }

unfoldable pub select_qos : ℕ → List Qos → Qos
select_qos max_qos_depth publishers =
    let c = count_publishers max_qos_depth publishers no_counts in
    record {
      depth = max c.depth 1;
      reliability = if c.reliable_endpoints == length publishers then reliable else best_effort;
      durability =
          if c.transient_local_endpoints == length publishers then transient_local else volatile;
    }

abbrev pub total_depth : List Qos → ℕ
total_depth [] = 0
total_depth (qos ∷ rest) = qos.depth + total_depth rest

abbrev pub is_reliable : ReliabilityPolicy → Bool
is_reliable reliable = true
is_reliable best_effort = false

abbrev pub all_reliable : List Qos → Bool
all_reliable [] = true
all_reliable (qos ∷ rest) = is_reliable qos.reliability && all_reliable rest

abbrev pub is_transient_local : DurabilityPolicy → Bool
is_transient_local transient_local = true
is_transient_local volatile = false

abbrev pub all_transient_local : List Qos → Bool
all_transient_local [] = true
all_transient_local (qos ∷ rest) = is_transient_local qos.durability && all_transient_local rest

-- The depths do not overflow size_t.
abbrev pub IsSmall : List Qos → Type 0
IsSmall [] = Unit
IsSmall (qos ∷ rest) = (qos.depth < 2 ^ 63) × IsSmall rest

module _ (bound : ℕ) (small : bound < 2 ^ 63) where
  count-depth :
      (ps : List Qos) (c : Counts)
      → IsSmall ps
      → c.depth ≤ bound
      → (count_publishers bound ps c).depth ≡ min bound (c.depth + total_depth ps)
  unfolding count_publishers
  count-depth [] c s le = ground arith
  count-depth (qos ∷ rest) c s le =
      let same : (c.depth + qos.depth) % 2 ^ 64 ≡ c.depth + qos.depth = omega (arith, s.0) in
      ground (arith, same, count-depth rest (visit_publisher bound qos c) s.1)

abbrev pub reliable_total : List Qos → ℕ
reliable_total [] = 0
reliable_total (qos ∷ rest) = count_reliable qos.reliability (reliable_total rest)

abbrev pub transient_local_total : List Qos → ℕ
transient_local_total [] = 0
transient_local_total (qos ∷ rest) =
    count_transient_local qos.durability (transient_local_total rest)

count-reliable :
    (bound : ℕ) (ps : List Qos) (c : Counts)
    → (count_publishers bound ps c).reliable_endpoints ≡ c.reliable_endpoints + reliable_total ps
unfolding count_publishers
count-reliable bound [] c = omega arith
count-reliable bound (qos ∷ rest) c =
    ground (arith, count-reliable bound rest (visit_publisher bound qos c))

count-transient_local :
    (bound : ℕ) (ps : List Qos) (c : Counts)
    → (count_publishers bound ps c).transient_local_endpoints
      ≡ c.transient_local_endpoints + transient_local_total ps
unfolding count_publishers
count-transient_local bound [] c = omega arith
count-transient_local bound (qos ∷ rest) c =
    ground (arith, count-transient_local bound rest (visit_publisher bound qos c))

-- All of them are counted exactly where all have the property.
reliable_total-all :
    (ps : List Qos)
    → (reliable_total ps ≤ length ps) × ((reliable_total ps == length ps) ≡ all_reliable ps)
reliable_total-all [] = (omega arith, refl)
reliable_total-all (qos ∷ rest) = ground (arith, reliable_total-all rest)

transient_local_total-all :
    (ps : List Qos)
    → (transient_local_total ps ≤ length ps)
      × ((transient_local_total ps == length ps) ≡ all_transient_local ps)
transient_local_total-all [] = (omega arith, refl)
transient_local_total-all (qos ∷ rest) = ground (arith, transient_local_total-all rest)

-- The profile asks for the publishers' depths together, at most `max_qos_depth` and at least 1; for
-- reliability where all publishers offer it, and for transient-local durability where all offer
-- it. The depths and the bound are below 2 ^ 63.
pub select_qos_lem :
    (bound : ℕ) (ps : List Qos)
    → bound < 2 ^ 63
    → IsSmall ps
    → select_qos bound ps ≡ record {
      depth = max (min bound (total_depth ps)) 1;
      reliability = if all_reliable ps then reliable else best_effort;
      durability = if all_transient_local ps then transient_local else volatile;
    }
unfolding select_qos
select_qos_lem bound ps small s =
    let r : ((count_publishers bound ps no_counts).reliable_endpoints == length ps)
        ≡ all_reliable ps =
      rw (count-reliable bound ps no_counts) (ground (arith, reliable_total-all ps)) in
    let d : ((count_publishers bound ps no_counts).transient_local_endpoints == length ps)
        ≡ all_transient_local ps =
      rw (count-transient_local bound ps no_counts)
        (ground (arith, transient_local_total-all ps)) in
    let n : (count_publishers bound ps no_counts).depth ≡ min bound (total_depth ps) =
      ground (arith, count-depth bound small ps no_counts s) in
    rw r (rw d (rw n refl))
