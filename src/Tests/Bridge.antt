-- ===== src/Tests/Bridge.antt =====
-- The bridge and the message definitions at concrete inputs.
use mathlib.Core.Path.{subst, ap}
use foxglove_bridge_release.Base.{
  ◌⊎◌, inl, inr, false, String, ◌≡◌, refl, none, some, true, List, [], ◌∷◌, if◌then◌else◌, arith,
}
use foxglove_bridge_release.Base.Eq.{==_iff, ◌==◌, string_eq, id_eq, pair_eq}
use foxglove_bridge_release.Base.Map.{find, emplace, contains, insert}
use foxglove_bridge_release.Base.Exec.{Result, ok, throws}
use foxglove_bridge_release.Definitions.{
  MessageDefinitionFormat, idl, MessageDefinitionCache, msg, DefinitionIdentifier, MessageSpec,
  Sources, identifier_eq,
}
use foxglove_bridge_release.Definitions.Split.{
  split_string, split_loop, join, IsSplit, join-split_string,
}
use foxglove_bridge_release.Definitions.Dependencies.{
  parse_msg_dependencies, is_asked_for, contains-parse_msg_dependencies, parse_dependencies,
  collect_msg, set_insert, qualify, extension_for_format, delimiter,
}
use foxglove_bridge_release.Definitions.Load.{load_message_spec, message_spec, find_line, read_spec}
use foxglove_bridge_release.Definitions.FullText.{
  get_full_text, full_text, append_recursive, on_cache, append_dependencies, insert_seen,
}
use foxglove_bridge_release.Definitions.Termination.{is_exhausted, Within, IsClosed, IsClosedCache}
use foxglove_bridge_release.Definitions.Termination.Recursion.{get_full_text-returns}
use foxglove_bridge_release.Ros2.{Bridge, Ros, Qos, reliable, transient_local, volatile}
use foxglove_bridge_release.Ros2.Profile.{select_qos, select_qos_lem}
use foxglove_bridge_release.Ros2.Handlers.{subscribe_handler, unsubscribe_handler}
use foxglove_bridge_release.Base.Map.Nested.{Updated}
use foxglove_bridge_release.Ros2.Subscriptions.{
  new_subscription, subscribe_handler_lem, unsubscribe_handler_lem,
}
use foxglove_bridge_release.Tests.Calls.{channel}

-- demo/Pair has a field of the type Point of its own package.
abbrev pub sample_sources : Sources
sample_sources = record {
  msg_field_types = λ text. if text == "Point a\n" then "Point" ∷ [] else "float64" ∷ [];
  idl_field_types = λ text. [];
  package_typename = λ name.
      if name == "demo/Pair"
      then some ("demo", "Pair")
      else if name == "demo/Point"
      then some ("demo", "Point")
      else none;
  get_package_share_directory = λ pkg. some "/share/demo";
  package_not_found = λ pkg. pkg;
  get_resource = λ kind pkg. some "msg/Pair.msg\nmsg/Point.msg";
  filename = λ line. if line == "msg/Pair.msg" then "Pair.msg" else "Point.msg";
  read_file =
      λ path. if path == "/share/demo/msg/Pair.msg" then some "Point a\n" else some "float64 x\n";
}

-- No package is there any more.
abbrev pub no_sources : Sources
no_sources = record sample_sources { get_package_share_directory = λ pkg. none }

abbrev pub pair : DefinitionIdentifier
pair = record { format = msg; package_resource_name = "demo/Pair" }

abbrev pub pair_spec : MessageSpec
pair_spec = record { dependencies = "demo/Point" ∷ []; text = "Point a\n"; format = msg }

full_text_test :
    (get_full_text sample_sources 5 "demo/Pair" []).0
    ≡ ok (
      msg,
      "Point a\n\n================================================================================\nMSG: demo/Point\nfloat64 x\n",
    )
unfolding get_full_text full_text append_recursive on_cache append_dependencies insert_seen
    delimiter insert load_message_spec read_spec message_spec find_line find emplace split_string
    split_loop parse_dependencies parse_msg_dependencies collect_msg set_insert qualify
    extension_for_format contains
full_text_test = refl

join-split_string_example :
    IsSplit "\n" "msg/Pair.msg\nmsg/Point.msg" (split_string "msg/Pair.msg\nmsg/Point.msg" "\n")
    × (join "\n" (split_string "msg/Pair.msg\nmsg/Point.msg" "\n") ≡ "msg/Pair.msg\nmsg/Point.msg")
join-split_string_example = join-split_string "msg/Pair.msg\nmsg/Point.msg" "\n" (omega arith)

contains-parse_msg_dependencies_example :
    contains "demo/Point" (parse_msg_dependencies sample_sources "Point a\n" "demo")
    ≡ is_asked_for "demo" "demo/Point" ("Point" ∷ [])
contains-parse_msg_dependencies_example =
    contains-parse_msg_dependencies sample_sources "Point a\n" "demo" "demo/Point"

abbrev pub offered : List Qos
offered =
    record { depth = 3; reliability = reliable; durability = volatile }
    ∷ record { depth = 20; reliability = reliable; durability = transient_local }
    ∷ []

select_qos_lem_example :
    select_qos 10 offered ≡ record { depth = 10; reliability = reliable; durability = volatile }
select_qos_lem_example = select_qos_lem 10 offered (omega arith) (omega arith, (omega arith, tt))

abbrev pub sample_ros : Ros
sample_ros = record {
  is_ok = true;
  publishers_qos = λ topic. ok offered;
  create_generic_subscription = λ topic datatype qos. ok tt;
  create_generic_publisher = λ topic type. ok tt;
  publish = λ publication bytes. ok tt;
  topic_names_and_types = ok [];
}

abbrev pub sample_bridge : Bridge
sample_bridge = record {
  message_definition_cache = [];
  topic_whitelist_patterns = (λ topic. true) ∷ [];
  advertised_topics = (("/chatter", "std_msgs/String"), channel) ∷ [];
  channel_to_topic_and_datatype = (1, ("/chatter", "std_msgs/String")) ∷ [];
  subscriptions = [];
  client_advertised_topics = [];
  max_qos_depth = 10;
  ros = sample_ros;
  published = [];
}

subscribe_handler_lem_example :
    ((subscribe_handler 1 5 sample_bridge).0 ≡ ok tt)
    × Updated 1 5
        (some (new_subscription 1 5 sample_bridge "/chatter" "std_msgs/String" channel offered))
        []
        (subscribe_handler 1 5 sample_bridge).1.subscriptions
subscribe_handler_lem_example =
    subscribe_handler_lem 1 5 sample_bridge "/chatter" "std_msgs/String" channel offered refl refl
      (unfold find in refl) (unfold find in refl) (unfold find in refl)

-- The client unsubscribes from what it has just subscribed to.
abbrev subscribed : Bridge
subscribed = (subscribe_handler 1 5 sample_bridge).1

unsubscribe_handler_lem_example :
    ((unsubscribe_handler 1 5 subscribed).0 ≡ ok tt)
    × Updated 1 5 none subscribed.subscriptions (unsubscribe_handler 1 5 subscribed).1.subscriptions
unsubscribe_handler_lem_example = unsubscribe_handler_lem 1 5 subscribed

-- The two definitions in both formats, of which only the .msg ones are there.
abbrev pub identifier : MessageDefinitionFormat → String → DefinitionIdentifier
identifier format name = record { format = format; package_resource_name = name }

abbrev pub sample_set : List DefinitionIdentifier
sample_set =
    identifier msg "demo/Pair" ∷ identifier msg "demo/Point" ∷ identifier idl "demo/Pair" ∷ []

-- What is read for one definition has its dependencies in the set.
abbrev ReadsWithin : DefinitionIdentifier → Type 0
ReadsWithin id =
    (cache : MessageDefinitionCache) (spec : MessageSpec)
    → (read_spec sample_sources id cache).0 ≡ ok spec
    → Within sample_set id.format spec.dependencies

known-Within :
    (format : MessageDefinitionFormat) (known spec : MessageSpec)
    → ok known ≡ ok spec
    → Within sample_set format known.dependencies
    → Within sample_set format spec.dependencies
known-Within format known spec e w =
    let value : Result MessageSpec → MessageSpec = λ r. elim r [ ok a ↦ a | throws x ↦ known ] in
    subst (λ t. Within sample_set format t.dependencies) (ap value e) w

reads_pair : ReadsWithin (identifier msg "demo/Pair")
unfolding read_spec message_spec find_line split_string split_loop parse_dependencies
    parse_msg_dependencies collect_msg set_insert qualify extension_for_format contains
reads_pair cache spec r = known-Within msg pair_spec spec r (refl, tt)

reads_point : ReadsWithin (identifier msg "demo/Point")
unfolding read_spec message_spec find_line split_string split_loop parse_dependencies
    parse_msg_dependencies collect_msg set_insert qualify extension_for_format contains
reads_point cache spec r =
    known-Within msg (record { dependencies = []; text = "float64 x\n"; format = msg }) spec r tt

reads_idl : ReadsWithin (identifier idl "demo/Pair")
unfolding read_spec find_line split_string split_loop extension_for_format
reads_idl cache spec r = cc

sample_cases :
    (id : DefinitionIdentifier)
    → contains id sample_set ≡ true
    → (identifier msg "demo/Pair" ≡ id)
      ⊎ ((identifier msg "demo/Point" ≡ id) ⊎ (identifier idl "demo/Pair" ≡ id))
unfolding contains
sample_cases id e = ground (
  arith,
  ==_iff (identifier msg "demo/Pair") id,
  ==_iff (identifier msg "demo/Point") id,
  ==_iff (identifier idl "demo/Pair") id,
)

sample-IsClosed : IsClosed sample_set sample_sources
sample-IsClosed id cache spec e r = elim (sample_cases id e) [
  | inl p ↦ subst ReadsWithin p reads_pair cache spec r
  | inr (inl p) ↦ subst ReadsWithin p reads_point cache spec r
  | inr (inr p) ↦ subst ReadsWithin p reads_idl cache spec r
]

get_full_text-returns_example :
    (is_exhausted (get_full_text sample_sources 4 "demo/Pair" []).0 ≡ false)
    × IsClosedCache sample_set (get_full_text sample_sources 4 "demo/Pair" []).1
get_full_text-returns_example =
    get_full_text-returns sample_sources sample_set sample-IsClosed 4 "demo/Pair" (omega arith)
      (unfold contains in refl) (unfold contains in refl) [] (λ id spec e f. unfold find in cc)
