-- ===== src/Utils/LabelChanges.antt =====
-- What LabelChangesToLabels collects for each key.
use mathlib.Core.List.{append-nil, append_assoc}
use service_broker_proxy.Prelude.{
  String, ◌≡◌, refl, ◌∙◌, Bool, true, false, List, [], ◌∷◌, ◌++◌, arith, ◌==◌, eq_iff,
  if◌then◌else◌,
}
use service_broker_proxy.Prelude.Dict.{lookup, lookup-insert}
use service_broker_proxy.Types.{
  Labels, LabelOperation, add_label, add_label_values, remove_label, remove_label_values,
  unknown_operation, LabelChange,
}
use service_broker_proxy.Utils.{
  values_of, append_values, apply_change, label_loop, label_changes_to_labels,
}

abbrev pub is_add : LabelOperation → Bool
is_add add_label = true
is_add add_label_values = true
is_add remove_label = false
is_add remove_label_values = false
is_add (unknown_operation text) = false

abbrev pub is_remove : LabelOperation → Bool
is_remove add_label = false
is_remove add_label_values = false
is_remove remove_label = true
is_remove remove_label_values = true
is_remove (unknown_operation text) = false

-- The values that one change adds to (`add`) or removes from a key.
pub own : Bool → String → LabelChange → List String
own true k c = if c.key == k then (if is_add c.operation then c.change_values else []) else []
own false k c = if c.key == k then (if is_remove c.operation then c.change_values else []) else []

-- The values that the changes of one kind give a key, in the order of the changes.
pub collected : Bool → String → List LabelChange → List String
collected add k [] = []
collected add k (c ∷ changes) = own add k c ++ collected add k changes

values_of-append_values :
    (j k : String) (vs : List String) (labels : Labels)
    → values_of k (append_values j vs labels) ≡ values_of k labels ++ (if j == k then vs else [])
unfolding append_values values_of
values_of-append_values j k vs labels =
    rw lookup-insert (ground (arith, eq_iff j k, append-nil (values_of k labels)))

module _ (k : String) (c : LabelChange) (to_add to_remove : Labels) where
  abbrev Collects : LabelOperation → Type 0
  Collects o =
      (c.operation ≡ o)
      → (values_of k (apply_change o c (to_add, to_remove)).0 ≡ values_of k to_add ++ own true k c)
        × (values_of k (apply_change o c (to_add, to_remove)).1
            ≡ values_of k to_remove ++ own false k c)

  adds :
      values_of k (append_values c.key c.change_values to_add)
      ≡ values_of k to_add ++ (if c.key == k then c.change_values else [])
  adds = values_of-append_values c.key k c.change_values to_add

  removes :
      values_of k (append_values c.key c.change_values to_remove)
      ≡ values_of k to_remove ++ (if c.key == k then c.change_values else [])
  removes = values_of-append_values c.key k c.change_values to_remove

  apply_change-own : (o : LabelOperation) → Collects o
  unfolding own
  apply_change-own add_label e =
      unfold apply_change in ground (arith, adds, append-nil (values_of k to_remove))
  apply_change-own add_label_values e =
      unfold apply_change in ground (arith, adds, append-nil (values_of k to_remove))
  apply_change-own (unknown_operation text) e =
      unfold apply_change in
      ground (arith, append-nil (values_of k to_add), append-nil (values_of k to_remove))
  apply_change-own _ e =
      unfold apply_change in ground (arith, removes, append-nil (values_of k to_add))

label_loop-collected :
    (k : String) (changes : List LabelChange) (labels : Labels × Labels)
    → (values_of k (label_loop changes labels).0 ≡ values_of k labels.0 ++ collected true k changes)
      × (values_of k (label_loop changes labels).1
          ≡ values_of k labels.1 ++ collected false k changes)
unfolding label_loop collected
label_loop-collected k [] labels = (rw append-nil, rw append-nil)
label_loop-collected k (c ∷ changes) labels =
    let next = apply_change c.operation c labels in
    let (adds, removes) = label_loop-collected k changes next in
    let (added, removed) = apply_change-own k c labels.0 labels.1 c.operation refl in
    (
      adds
          ∙ (rw added
              (append_assoc (values_of k labels.0) (own true k c) (collected true k changes))),
      removes
          ∙ (rw removed
              (append_assoc (values_of k labels.1) (own false k c) (collected false k changes))),
    )

-- For every key, the labels to add hold exactly the values of the changes of that key that add, and
-- the labels to remove those of the changes that remove, each in the order of the changes.
pub label_changes_to_labels-collected :
    (k : String) (changes : List LabelChange)
    → (values_of k (label_changes_to_labels changes).0 ≡ collected true k changes)
      × (values_of k (label_changes_to_labels changes).1 ≡ collected false k changes)
unfolding label_changes_to_labels values_of lookup
label_changes_to_labels-collected k changes = label_loop-collected k changes ([], [])
