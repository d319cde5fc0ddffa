-- ===== src/Tests/Refused.antt =====
-- A client channel of a type that rclcpp does not know.
use foxglove_bridge_release.Base.{◌≡◌, refl, some, none, false, [], ◌∷◌}
use foxglove_bridge_release.Base.Eq.{id_eq}
use foxglove_bridge_release.Base.Map.{find}
use foxglove_bridge_release.Base.Map.Nested.{entry_at}
use foxglove_bridge_release.Base.Text.{concat, to_string}
use foxglove_bridge_release.Base.Exec.{failure, throws}
use foxglove_bridge_release.Wire.{ClientAdvertisement}
use foxglove_bridge_release.Server.{Server, error}
use foxglove_bridge_release.Server.Send.{send_status}
use foxglove_bridge_release.Server.Text.{publish_channel, advertise_item, publications}
use foxglove_bridge_release.Ros2.{Bridge}
use foxglove_bridge_release.Ros2.Refused.{refused_channel_kept}
use foxglove_bridge_release.Tests.Json.{Doc, number, object, member, end}
use foxglove_bridge_release.Tests.Server.{sample_lib}
use foxglove_bridge_release.Tests.Bridge.{sample_ros}
use foxglove_bridge_release.Tests.Topics.{topics_bridge}
use foxglove_bridge_release.Tests.Flow.{flow_server}

abbrev unknown_type : ClientAdvertisement
unknown_type = record {
  channel_id = 4;
  topic = "/cmd";
  encoding = "cdr";
  schema_name = "demo/Unknown";
  schema = [];
}

abbrev refusing_server : Server Bridge
refusing_server = record flow_server {
  client_channels = (6, []) ∷ [];
  bridge = record topics_bridge {
    ros = record sample_ros {
      create_generic_publisher = λ topic type. throws (failure "type support not found");
    };
  };
}

abbrev refused_server : Server Bridge
refused_server = (publish_channel sample_lib 6 unknown_type refusing_server).1

-- The client asks for the channel again.
abbrev again : Doc
again = object (member "id" (number 4) end)

refused_channel_kept_example :
    ((publish_channel sample_lib 6 unknown_type refusing_server).0
      ≡ throws (failure "type support not found"))
    × (entry_at 6 4 refused_server.bridge.client_advertised_topics ≡ none)
    × (find 4 (publications 6 refused_server) ≡ some unknown_type)
    × (advertise_item sample_lib 6 false again refused_server
        ≡ send_status sample_lib 6 error
            (concat ("Channel " ∷ to_string 4 ∷ " was already advertised" ∷ []))
            refused_server)
refused_channel_kept_example =
    refused_channel_kept sample_lib 6 refusing_server unknown_type []
      (failure "type support not found") again (number 4) refl (unfold find in refl)
      (unfold find in refl) (unfold find in refl) refl refl refl
