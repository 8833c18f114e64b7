-- ===== src/Io/Opcua/Client.antt =====
-- OpcUaClient of src/io_protocols/opcua_client.py as a machine over the answers of the server.
use Prim.Native.String.{String}
use py2to3_example_project.Prelude.{
  ℕ, ◌+◌, Bool, true, false, Option, none, some, List, [], ◌∷◌, length, ltb, if◌then◌else◌, ite,
  ℕ_discrete,
}
use py2to3_example_project.Prelude.Text.{String_discrete}
use py2to3_example_project.Prelude.Dict.{insert}
use py2to3_example_project.Prelude.Py.{Result, ok, raise, opcua_error}
use py2to3_example_project.Io.Opcua.Node.{
  OpcUaNode, new_node, set_value, status_good, OpcUaSubscription, new_subscription, Notification,
  push_all,
}

-- What an answer holds: the texts of the value and of the session, and the status code that `int`
-- reads; none where the element is missing, where it has no text, and where it is no number. The
-- value is given with its spaces and without.
pub record Answer : Type 0 where
  pub session_id : Option String
  pub value : Option (String × String)
  pub status : Option (Option ℕ)

-- How a request ends: with no connection, with a text that is no XML and the parser's message, or
-- with an answer.
pub data Reply : Type 0 where
  no_connection : Reply
  malformed : (message : String) → Reply
  answer : Answer → Reply

pub record OpcUaClient : Type 0 where
  pub sid : Option String
  pub cache : List (String × OpcUaNode)
  pub subs : List (ℕ × OpcUaSubscription)
  pub polling : Bool

unfoldable pub new_client : OpcUaClient
new_client = record { sid = none; cache = []; subs = []; polling = false }

-- `_parse_sid`: an element without text counts as missing.
abbrev pub parse_sid : Reply → Result String
parse_sid no_connection = raise opcua_error
parse_sid (malformed message) = raise opcua_error
parse_sid (answer a) = elim a.session_id [ none ↦ raise opcua_error | some s ↦ ok s ]

unfoldable pub connect : OpcUaClient → Reply → OpcUaClient × Result (Unit {0})
connect c reply = elim (parse_sid reply) [
  | raise e ↦ (c, raise e)
  | ok s ↦ (record c { sid = some s }, ok tt)
]

-- The warning about a connection that is lost is printed only. An empty session counts as none.
abbrev pub has_session : OpcUaClient → Bool
has_session c = elim c.sid [ none ↦ false | some s ↦ ite (String_discrete s "") false true ]

unfoldable pub disconnect : OpcUaClient → OpcUaClient
disconnect c =
    let c' : OpcUaClient = record c { polling = false } in
    if has_session c then record c' { sid = none } else c'

abbrev pub with_value : OpcUaNode → Option (String × String) → OpcUaNode
with_value n none = n
with_value n (some (raw, stripped)) =
    let n' = set_value n (some stripped) status_good in
    record n' { attributes = insert String_discrete "raw_value" raw n'.attributes }

abbrev pub with_status : OpcUaNode → Option (Option ℕ) → OpcUaNode
with_status n none = n
with_status n (some none) = n
with_status n (some (some code)) = record n { status = some code }

unfoldable pub parse_read : Answer → (node_id : String) → OpcUaNode
unfolding set_value new_node
parse_read a node_id = with_status (with_value (new_node node_id) a.value) a.status

-- The node of an answer, or of one that is malformed.
abbrev pub node_of : Reply → (node_id : String) → Result OpcUaNode
node_of no_connection node_id = raise opcua_error
node_of (malformed message) node_id =
    ok (record (new_node node_id) { attributes = ("parse_error", message) ∷ [] })
node_of (answer a) node_id = ok (parse_read a node_id)

unfoldable pub read_node : OpcUaClient → (node_id : String) → Reply → OpcUaClient × Result OpcUaNode
unfolding parse_read new_node
read_node c node_id reply =
    let outcome = node_of reply node_id in
    if has_session c
    then elim outcome [
      | raise e ↦ (c, raise e)
      | ok n ↦ (record c { cache = insert String_discrete node_id n c.cache }, ok n)
    ]
    else (c, raise opcua_error)

-- What the XML-RPC proxy gives: a fault or protocol error, None, or the entries of a dictionary.
pub data RpcReply : Type 0 where
  rpc_error : RpcReply
  rpc_none : RpcReply
  rpc_value : (value : Option String) → (status : Option ℕ) → RpcReply

unfoldable pub read_via_xmlrpc : (node_id : String) → RpcReply → Result OpcUaNode
unfolding new_node set_value
read_via_xmlrpc node_id rpc_error = raise opcua_error
read_via_xmlrpc node_id rpc_none = raise opcua_error
read_via_xmlrpc node_id (rpc_value value status) =
    let code : ℕ = elim status [ none ↦ status_good | some s ↦ s ] in
    let n = set_value (new_node node_id) value code in
    ok (record n { attributes = insert String_discrete "source" "xmlrpc" n.attributes })

unfoldable pub create_subscription : OpcUaClient → (interval_ms : ℕ) → OpcUaClient × ℕ
unfolding new_subscription
create_subscription c interval_ms =
    let sid = length c.subs + 1 in
    (record c { subs = insert ℕ_discrete sid (new_subscription sid interval_ms) c.subs }, sid)

unfoldable pub start_subscription_polling : OpcUaClient → OpcUaClient
start_subscription_polling c = record c { polling = true }

-- `status` is that of the answer to HEAD, none where the connection fails.
unfoldable pub check_connection : (status : Option ℕ) → Bool
check_connection none = false
check_connection (some status) = ltb status 500

-- A round of the polling thread over its subscriptions; `publish` is what the server answers for one
-- with items, none where the request or its XML fails.
unfoldable pub poll_round :
    (publish : ℕ → Option (List Notification))
    → List (ℕ × OpcUaSubscription)
    → List (ℕ × OpcUaSubscription)
unfolding push_all
poll_round publish [] = []
poll_round publish ((sid, s) ∷ rest) =
    (
      sid,
      elim s.items [
        | [] ↦ s
        | i ∷ items ↦ elim (publish sid) [ none ↦ s | some ns ↦ push_all s ns ]
      ],
    )
    ∷ poll_round publish rest

-- A call of the client.
pub data Step (c : OpcUaClient) : OpcUaClient → Type 0 where
  connecting : (reply : Reply) → Step c (connect c reply).0
  disconnecting : Step c (disconnect c)
  reading : (node_id : String) (reply : Reply) → Step c (read_node c node_id reply).0
  subscribing : (interval_ms : ℕ) → Step c (create_subscription c interval_ms).0
  polling_starts : Step c (start_subscription_polling c)
  polling_round :
      (publish : ℕ → Option (List Notification))
      → Step c (record c { subs = poll_round publish c.subs })

pub data Reach (c : OpcUaClient) : OpcUaClient → Type 0 where
  here : Reach c c
  next : {d e : OpcUaClient} → Reach c d → Step d e → Reach c e
