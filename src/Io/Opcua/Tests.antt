-- ===== src/Io/Opcua/Tests.antt =====
-- Instances for src/io_protocols/opcua_client.py.
use py2to3_example_project.Prelude.{◌≡◌, none, some, ℕ_discrete}
use py2to3_example_project.Prelude.Dict.{lookup}
use py2to3_example_project.Io.Opcua.Node.{new_subscription}
use py2to3_example_project.Io.Opcua.Client.{
  OpcUaClient, new_client, create_subscription, here, next, subscribing,
}
use py2to3_example_project.Io.Opcua.Steps
use py2to3_example_project.Io.Opcua.Steps.{OwnNames, Numbered}

-- A client with one subscription.
abbrev client : OpcUaClient
client = (create_subscription new_client 500).0

Reach-create_subscription_example :
    OwnNames client.cache
    × Numbered 1 client.subs
    × (lookup ℕ_discrete (create_subscription client 1000).1 client.subs ≡ none)
    × (lookup ℕ_discrete
          (create_subscription client 1000).1
          (create_subscription client 1000).0.subs
        ≡ some (new_subscription (create_subscription client 1000).1 1000))
Reach-create_subscription_example =
    Steps.Reach-create_subscription 1000 (next here (subscribing 500))
