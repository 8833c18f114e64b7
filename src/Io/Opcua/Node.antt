-- ===== src/Io/Opcua/Node.antt =====
-- OpcUaNode and OpcUaSubscription of src/io_protocols/opcua_client.py.
use Prim.Native.String.{String}
use py2to3_example_project.Prelude.{
  ℕ, ◌+◌, ◌≡◌, refl, sym, ap, ◌∙◌, Option, none, some, List, [], ◌∷◌, arith, length, ◌==◌,
  if◌then◌else◌,
}
use py2to3_example_project.Prelude.Text.{String_discrete}
use py2to3_example_project.Prelude.Dict.{
  lookup, insert, erase, lookup-insert_ne, length-erase, length-insert_new,
}
use py2to3_example_project.Prelude.Queue.{
  put_dropping, put_each, put_each-last_items, last_items, last_items_nil,
}

pub record OpcUaNode : Type 0 where
  pub node_id : String
  pub attributes : List (String × String)
  pub value : Option String
  pub status : Option ℕ

abbrev pub status_good : ℕ
status_good = 0

unfoldable pub new_node : String → OpcUaNode
new_node node_id = record { node_id = node_id; attributes = []; value = none; status = none }

unfoldable pub set_value : OpcUaNode → Option String → (status : ℕ) → OpcUaNode
set_value n value status = record n { value = value; status = some status }

unfoldable pub get_attribute : OpcUaNode → String → (default : Option String) → Option String
get_attribute n name default = elim (lookup String_discrete name n.attributes) [
  | none ↦ default
  | some v ↦ some v
]

-- The quality of the data point.
unfoldable pub quality_of : OpcUaNode → ℕ
quality_of n = elim n.status [ none ↦ 0 | some s ↦ if s == status_good then 192 else 0 ]

pub record Item : Type 0 where
  pub item_id : ℕ
  pub sampling_ms : ℕ

pub record Notification : Type 0 where
  pub node_id : String
  pub value : Option String
  pub status : ℕ
  pub ts : ℕ

pub record OpcUaSubscription : Type 0 where
  pub subscription_id : ℕ
  pub interval_ms : ℕ
  pub items : List (String × Item)
  pub queue : List Notification

abbrev pub queue_size : ℕ
queue_size = 5000

unfoldable pub new_subscription : (sid interval_ms : ℕ) → OpcUaSubscription
new_subscription sid interval_ms = record {
  subscription_id = sid;
  interval_ms = interval_ms;
  items = [];
  queue = [];
}

unfoldable pub add_monitored_item :
    OpcUaSubscription → (node_id : String) → (sampling_ms : ℕ) → OpcUaSubscription × ℕ
add_monitored_item s node_id sampling_ms =
    let iid = length s.items + 1 in
    (
      record s {
        items =
            insert String_discrete node_id (record { item_id = iid; sampling_ms = sampling_ms })
              s.items;
      },
      iid,
    )

unfoldable pub remove_monitored_item : OpcUaSubscription → (node_id : String) → OpcUaSubscription
remove_monitored_item s node_id = record s { items = erase String_discrete node_id s.items }

-- The next notification, none after the timeout.
unfoldable pub get_next : OpcUaSubscription → OpcUaSubscription × Option Notification
get_next s = elim s.queue [ [] ↦ (s, none) | n ∷ rest ↦ (record s { queue = rest }, some n) ]

unfoldable pub push : OpcUaSubscription → Notification → OpcUaSubscription
unfolding put_dropping
push s n = record s { queue = put_dropping queue_size s.queue n }

unfoldable pub push_all : OpcUaSubscription → List Notification → OpcUaSubscription
unfolding push
push_all s [] = s
push_all s (n ∷ ns) = push_all (push s n) ns

push_all-put_each :
    (s : OpcUaSubscription) (ns : List Notification)
    → push_all s ns ≡ record s { queue = put_each queue_size s.queue ns }
unfolding push_all put_each
push_all-put_each s [] = refl
push_all-put_each s (n ∷ ns) = push_all-put_each (push s n) ns

-- A new subscription, into which notifications are pushed while no one reads, holds the last 5000 of
-- them in their order, and a read takes the oldest of those; its items stay as they are.
pub push_all-last_items :
    (sid interval : ℕ) (ns : List Notification)
    → ((push_all (new_subscription sid interval) ns).queue ≡ last_items queue_size ns)
      × ((push_all (new_subscription sid interval) ns).items ≡ [])
unfolding new_subscription
push_all-last_items sid interval ns =
    let all = push_all-put_each (new_subscription sid interval) ns in
    (
      ap (λ s. s.queue) all
          ∙ ap (λ (q : List Notification). put_each queue_size q ns)
              (sym (last_items_nil queue_size))
          ∙ put_each-last_items queue_size [] ns (omega arith),
      ap (λ s. s.items) all,
    )

-- The identifier of an item is one more than the number of items: after a new item is added and
-- another one removed, the next item gets the identifier that the new item has.
pub add_monitored_item-repeats :
    (s : OpcUaSubscription) (a b c : String) (ms later_ms : ℕ) {i : Item}
    → lookup String_discrete a s.items ≡ some i
    → lookup String_discrete b s.items ≡ none
    → (add_monitored_item (remove_monitored_item (add_monitored_item s b ms).0 a) c later_ms).1
      ≡ (add_monitored_item s b ms).1
unfolding add_monitored_item remove_monitored_item
add_monitored_item-repeats s a b c ms later_ms {i} ha hb =
    let item : Item = record { item_id = length s.items + 1; sampling_ms = ms } in
    let differ : ¬ (b ≡ a) = (λ e. missing (ap (λ k. lookup String_discrete k s.items) e)) in
    let grown = length-insert_new String_discrete b item s.items hb in
    let still = lookup-insert_ne String_discrete b a item s.items differ ∙ ha in
    let shrunk = length-erase String_discrete a i (insert String_discrete b item s.items) still in
    omega (arith, grown, shrunk)
  where
    missing : lookup String_discrete b s.items ≡ lookup String_discrete a s.items → ⊥
    missing e = let bad : ◌≡◌ {A = Option Item} none (some i) = sym hb ∙ e ∙ ha in cc
