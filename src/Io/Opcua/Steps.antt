-- ===== src/Io/Opcua/Steps.antt =====
-- What holds of OpcUaClient of src/io_protocols/opcua_client.py under every sequence of calls.
use Prim.Native.String.{String}
use py2to3_example_project.Prelude.{
  ℕ, ◌+◌, ◌≤◌, ◌≡◌, refl, sym, ap, ◌∙◌, Option, none, some, List, [], ◌∷◌, arith, length, if_pos,
  if_neg, ℕ_discrete, Bool-cases, inl, inr,
}
use py2to3_example_project.Prelude.Text.{String_discrete}
use py2to3_example_project.Prelude.Dict.{lookup, insert, lookup-insert_self}
use py2to3_example_project.Prelude.Py.{Result, ok, raise}
use py2to3_example_project.Io.Opcua.Node.{
  OpcUaNode, new_node, set_value, OpcUaSubscription, new_subscription, Notification,
}
use py2to3_example_project.Io.Opcua.Client.{
  Answer, Reply, no_connection, malformed, answer, OpcUaClient, new_client, connect, disconnect,
  node_of, parse_read, with_value, with_status, has_session, read_node, create_subscription,
  start_subscription_polling, poll_round, Step, connecting, disconnecting, reading, subscribing,
  polling_starts, polling_round, Reach, here, next,
}

-- The subscriptions stand under 1 to n in the order of their creation.
abbrev pub Numbered : ℕ → List (ℕ × OpcUaSubscription) → Type 0
Numbered i [] = Unit
Numbered i ((sid, s) ∷ rest) = (sid ≡ i) × Numbered (i + 1) rest

Numbered-lookup :
    (i k : ℕ) (d : List (ℕ × OpcUaSubscription))
    → Numbered i d
    → i + length d ≤ k
    → lookup ℕ_discrete k d ≡ none
unfolding lookup
Numbered-lookup i k [] n h = refl
Numbered-lookup i k ((sid, s) ∷ d) n h = elim (ℕ_discrete sid k) [
  | yes e ↦ absurd (omega arith)
  | no e ↦
      if_neg (ℕ_discrete sid k) e (some s) (lookup ℕ_discrete k d)
      ∙ Numbered-lookup (i + 1) k d n.1 (omega arith)
]

Numbered-insert :
    (i k : ℕ) (s : OpcUaSubscription) (d : List (ℕ × OpcUaSubscription))
    → Numbered i d
    → k ≡ i + length d
    → Numbered i (insert ℕ_discrete k s d)
unfolding insert
Numbered-insert i k s [] n h = (omega arith, tt)
Numbered-insert i k s ((sid, t) ∷ d) n h = elim (ℕ_discrete sid k) [
  | yes e ↦ absurd (omega arith)
  | no e ↦
      rw (if_neg (ℕ_discrete sid k) e ((sid, s) ∷ d) ((sid, t) ∷ insert ℕ_discrete k s d))
        (n.0, Numbered-insert (i + 1) k s d n.1 (omega arith))
]

Numbered-poll_round :
    (publish : ℕ → Option (List Notification)) (i : ℕ) (d : List (ℕ × OpcUaSubscription))
    → Numbered i d
    → Numbered i (poll_round publish d)
unfolding poll_round
Numbered-poll_round publish i [] n = tt
Numbered-poll_round publish i ((sid, s) ∷ d) n = (n.0, Numbered-poll_round publish (i + 1) d n.1)

-- Every cached node stands under its own identifier.
abbrev pub OwnNames : List (String × OpcUaNode) → Type 0
OwnNames [] = Unit
OwnNames ((k, n) ∷ d) = (n.node_id ≡ k) × OwnNames d

OwnNames-insert :
    (k : String) (n : OpcUaNode) (d : List (String × OpcUaNode))
    → n.node_id ≡ k
    → OwnNames d
    → OwnNames (insert String_discrete k n d)
unfolding insert
OwnNames-insert k n [] h o = (h, tt)
OwnNames-insert k n ((j, m) ∷ d) h o = elim (String_discrete j k) [
  | yes e ↦ rw (if_pos (String_discrete j k) e) (h ∙ sym e, o.1)
  | no e ↦ rw (if_neg (String_discrete j k) e) (o.0, OwnNames-insert k n d h o.1)
]

with_status-node_id :
    (n : OpcUaNode) (o : Option (Option ℕ)) → (with_status n o).node_id ≡ n.node_id
with_status-node_id n none = refl
with_status-node_id n (some none) = refl
with_status-node_id n (some (some code)) = refl

with_value-node_id :
    (n : OpcUaNode) (o : Option (String × String)) → (with_value n o).node_id ≡ n.node_id
with_value-node_id n none = refl
with_value-node_id n (some (raw, stripped)) = unfold set_value in refl

parse_read-node_id : (a : Answer) (node_id : String) → (parse_read a node_id).node_id ≡ node_id
unfolding parse_read
parse_read-node_id a node_id =
    with_status-node_id (with_value (new_node node_id) a.value) a.status
    ∙ with_value-node_id (new_node node_id) a.value

node_of-node_id :
    (reply : Reply) (node_id : String) {n : OpcUaNode}
    → node_of reply node_id ≡ ok n
    → n.node_id ≡ node_id
node_of-node_id no_connection node_id h = cc
node_of-node_id (malformed message) node_id h = unfold new_node in ground arith
node_of-node_id (answer a) node_id {n} h =
    let same : parse_read a node_id ≡ n = cc in
    sym (ap (λ m. m.node_id) same) ∙ parse_read-node_id a node_id

-- What holds of a client whatever is called.
pub record IsValid (c : OpcUaClient) : Type 0 where
  pub numbered : Numbered 1 c.subs
  pub own_names : OwnNames c.cache

read_node-IsValid :
    (c : OpcUaClient) (node_id : String) (reply : Reply)
    → IsValid c
    → IsValid (read_node c node_id reply).0
unfolding read_node
read_node-IsValid c node_id reply v = elim (Bool-cases (has_session c)) [
  | inl up ↦ rw up (stored (node_of reply node_id) refl)
  | inr down ↦ rw down v
]
  where
    stored :
        (o : Result OpcUaNode)
        → node_of reply node_id ≡ o
        → IsValid
            (elim o as (λ x. OpcUaClient × Result OpcUaNode) [
              | raise e ↦ (c, raise e)
              | ok n ↦ (record c { cache = insert String_discrete node_id n c.cache }, ok n)
            ]).0
    stored (raise e) h = v
    stored (ok n) h = record {
      numbered = v.numbered;
      own_names = OwnNames-insert node_id n c.cache (node_of-node_id reply node_id h) v.own_names;
    }

Step-IsValid : {c d : OpcUaClient} → Step c d → IsValid c → IsValid d
Step-IsValid {c} (connecting reply) v = unfold connect in ground arith
Step-IsValid {c} disconnecting v = unfold disconnect in ground arith
Step-IsValid {c} (reading node_id reply) v = read_node-IsValid c node_id reply v
Step-IsValid {c} (subscribing ms) v = record {
  numbered =
      (unfold create_subscription in
        Numbered-insert 1 (length c.subs + 1) (new_subscription (length c.subs + 1) ms) c.subs
          v.numbered (omega arith));
  own_names = (unfold create_subscription in v.own_names);
}
Step-IsValid {c} polling_starts v = unfold start_subscription_polling in ground arith
Step-IsValid {c} (polling_round publish) v = record {
  numbered = Numbered-poll_round publish 1 c.subs v.numbered;
  own_names = v.own_names;
}

Reach-IsValid : {c d : OpcUaClient} → Reach c d → IsValid c → IsValid d
Reach-IsValid here v = v
Reach-IsValid (next r s) v = Step-IsValid s (Reach-IsValid r v)

-- Whatever is called on a new client, and whatever the server answers, every node in the cache
-- stands under its own identifier, the subscriptions are numbered from 1, and a new subscription
-- gets an identifier that none has, under which it then stands.
pub Reach-create_subscription :
    {c : OpcUaClient} (interval_ms : ℕ)
    → Reach new_client c
    → OwnNames c.cache
      × Numbered 1 c.subs
      × (lookup ℕ_discrete (create_subscription c interval_ms).1 c.subs ≡ none)
      × (lookup ℕ_discrete
            (create_subscription c interval_ms).1
            (create_subscription c interval_ms).0.subs
          ≡ some (new_subscription (create_subscription c interval_ms).1 interval_ms))
unfolding create_subscription
Reach-create_subscription {c} interval_ms r =
    let start : IsValid new_client = record {
      numbered = (unfold new_client in tt);
      own_names = (unfold new_client in tt);
    } in
    let v = Reach-IsValid r start in
    let sid = length c.subs + 1 in
    (
      v.own_names,
      v.numbered,
      Numbered-lookup 1 sid c.subs v.numbered (omega arith),
      lookup-insert_self ℕ_discrete sid (new_subscription sid interval_ms) c.subs,
    )
