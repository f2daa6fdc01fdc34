-- ===== src/Reconcile/Visibilities/Compare.antt =====
-- The comparison of reconcileServiceVisibilities: which visibilities are created and deleted.
pub mod Laws
pub mod Reconciled
use service_broker_proxy.Prelude.{String, ◌<>◌, Option, none, some, List, [], ◌∷◌, if◌then◌else◌}
use service_broker_proxy.Prelude.Dict.{Dict, lookup, insert, erase, values}
use service_broker_proxy.Types.{Visibility}

abbrev or_empty : Option String → String
or_empty none = ""
or_empty (some s) = s

-- getVisibilityKey: strings.Join with "|"; a missing label is the empty text.
unfoldable pub get_visibility_key : String → Visibility → String
get_visibility_key scope_key v =
    if v.is_public
    then "public|" <> ("|" <> (v.platform_broker_name <> ("|" <> v.catalog_plan_id)))
    else "!public|"
      <> (or_empty (lookup scope_key v.labels)
          <> ("|" <> (v.platform_broker_name <> ("|" <> v.catalog_plan_id))))

module _ (key : Visibility → String) where
  -- convertVisListToMap
  unfoldable pub vis_map : List Visibility → Dict Visibility → Dict Visibility
  vis_map [] m = m
  vis_map (v ∷ vs) m = vis_map vs (insert (key v) v m)

  -- One round of the loop over smVis.
  unfoldable pub create_if_missing :
      Visibility → Option Visibility → List Visibility → List Visibility
  create_if_missing v none rest = v ∷ rest
  create_if_missing v (some existing) rest = rest

  -- The loop over smVis: the visibilities to create, and what is left of platformMap.
  unfoldable pub compare_loop :
      List Visibility → Dict Visibility → List Visibility × Dict Visibility
  compare_loop [] m = ([], m)
  compare_loop (v ∷ vs) m =
      let (creates, left) = compare_loop vs (erase (key v) m) in
      (create_if_missing v (lookup (key v) m) creates, left)

  unfoldable pub to_create : List Visibility → List Visibility → List Visibility
  to_create platform_vis sm_vis = (compare_loop sm_vis (vis_map platform_vis [])).0

  unfoldable pub to_delete : List Visibility → List Visibility → List Visibility
  to_delete platform_vis sm_vis = values (compare_loop sm_vis (vis_map platform_vis [])).1
