-- ===== src/Utils.antt =====
-- pkg/sbproxy/utils/helpers.go
pub mod LabelChanges
use service_broker_proxy.Prelude.{String, ◌<>◌, Option, none, some, List, [], ◌∷◌, ◌++◌}
use service_broker_proxy.Prelude.Dict.{lookup, insert}
use service_broker_proxy.Types.{
  Labels, LabelOperation, add_label, add_label_values, remove_label, remove_label_values,
  unknown_operation, LabelChange,
}

-- BrokerProxyName; `provider` is GetBrokerPlatformName of a client that implements
-- platform.BrokerPlatformNameProvider.
unfoldable pub broker_proxy_name : Option (String → String) → String → String → String → String
broker_proxy_name none name id prefix = prefix <> (name <> ("-" <> id))
broker_proxy_name (some platform_name) name id prefix =
    prefix <> (platform_name name <> ("-" <> id))

or_nil : Option (List String) → List String
or_nil none = []
or_nil (some vs) = vs

-- `labels[key]`; a missing key has the nil slice.
unfoldable pub values_of : String → Labels → List String
unfolding or_nil
values_of k labels = or_nil (lookup k labels)

-- `labels[key] = append(labels[key], values...)`
unfoldable pub append_values : String → List String → Labels → Labels
unfolding values_of
append_values k vs labels = insert k (values_of k labels ++ vs) labels

-- One round of the loop of LabelChangesToLabels.
unfoldable pub apply_change : LabelOperation → LabelChange → Labels × Labels → Labels × Labels
unfolding append_values
apply_change add_label c (to_add, to_remove) =
    (append_values c.key c.change_values to_add, to_remove)
apply_change add_label_values c (to_add, to_remove) =
    (append_values c.key c.change_values to_add, to_remove)
apply_change remove_label c (to_add, to_remove) =
    (to_add, append_values c.key c.change_values to_remove)
apply_change remove_label_values c (to_add, to_remove) =
    (to_add, append_values c.key c.change_values to_remove)
apply_change (unknown_operation text) c labels = labels

unfoldable pub label_loop : List LabelChange → Labels × Labels → Labels × Labels
unfolding apply_change
label_loop [] labels = labels
label_loop (c ∷ changes) labels = label_loop changes (apply_change c.operation c labels)

-- LabelChangesToLabels
unfoldable pub label_changes_to_labels : List LabelChange → Labels × Labels
unfolding label_loop
label_changes_to_labels changes = label_loop changes ([], [])
