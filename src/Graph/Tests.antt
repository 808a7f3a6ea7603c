-- ===== src/Graph/Tests.antt =====
-- The contract graph at a concrete history: a service and the module that calls it.
use causalmesh.Prelude.{
  ℕ, Bool, ◌==◌, ◌+◌, ◌<◌, ◌≡◌, refl, none, List, [], ◌∷◌, map, arith, nat_eq, list_eq,
}
use causalmesh.Prelude.Text.{Text, text, to_ascii_lower}
use causalmesh.Prelude.Paths.{FilePath, normal, component_eq}
use causalmesh.Graph.{
  ContractGraph, ContractNode, ContractEdge, exact, grpc_method, source_module, calls_rpc, u32_mod,
  add_node, add_edge, add_rpc_call,
}
use causalmesh.Graph.Patch.{patch_files}
use causalmesh.Graph.Indices.{IsIndexed}
use causalmesh.Graph.Removal.{Forgets, is_stale, patch_files-Forgets}
use causalmesh.Graph.Keeping.{IsAttached, patch_files-IsIndexed, patch_files-IsAttached}
use causalmesh.Graph.Topics.{normalize_topic_key}
use causalmesh.Graph.Topics.Members.{normalize_topic_key-member}
use causalmesh.Graph.Histories.{
  Call, node_call, edge_call, rpc_call, patch_call, run, IsSound, run-IsSound,
}

-- the lower case of a text of ASCII characters
abbrev lower : Text → Text
lower = map to_ascii_lower

abbrev is_space : ℕ → Bool
is_space c = c == b' '

abbrev client_ts : FilePath
client_ts = normal (text "client.ts") ∷ []

abbrev orders_proto : FilePath
orders_proto = normal (text "orders.proto") ∷ []

abbrev method : ContractNode
method = record {
  id = 0;
  name = text "GetOrder";
  kind = grpc_method;
  file_path = orders_proto;
  line_start = 3;
  line_end = 3;
  package_name = text "orders";
  repo_id = 0;
  signature = none;
  docstring = none;
}

abbrev client : ContractNode
client = record {
  id = 0;
  name = text "client";
  kind = source_module;
  file_path = client_ts;
  line_start = 1;
  line_end = 9;
  package_name = [];
  repo_id = 1;
  signature = none;
  docstring = none;
}

abbrev call : ContractEdge
call = record { from = 1; to = 0; kind = calls_rpc; metadata = none; confidence = exact }

abbrev history : List Call
history = edge_call call ∷ rpc_call 1 (text "GetOrder") ∷ node_call client ∷ node_call method ∷ []

abbrev graph : ContractGraph
graph = run is_space lower history

run-IsSound_example :
    IsSound is_space lower 5 (run is_space lower (patch_call (client_ts ∷ []) ∷ history))
run-IsSound_example =
    run-IsSound is_space lower (patch_call (client_ts ∷ []) ∷ history) (omega arith)

sound : IsSound is_space lower 4 graph
sound = run-IsSound is_space lower history (omega arith)

patch_files-Forgets_example :
    Forgets (is_stale graph (client_ts ∷ [])) graph (patch_files lower (client_ts ∷ []) graph)
patch_files-Forgets_example =
    patch_files-Forgets lower (client_ts ∷ []) graph sound.indexed sound.facts

patch_files-IsIndexed_example : IsIndexed lower (patch_files lower (client_ts ∷ []) graph)
patch_files-IsIndexed_example = patch_files-IsIndexed lower (client_ts ∷ []) graph sound.indexed

attached : IsAttached graph
unfolding run add_node add_edge add_rpc_call
attached = ((refl, refl), tt)

patch_files-IsAttached_example : IsAttached (patch_files lower (client_ts ∷ []) graph)
patch_files-IsAttached_example =
    patch_files-IsAttached lower (client_ts ∷ []) graph sound.indexed sound.facts attached

room : graph.next_node_id + 1 < u32_mod
room = omega (arith, sound.ids)

normalize_topic_key-member_example :
    (normalize_topic_key is_space lower (text "Streams.EVENT_CREATED")
      ≡ lower (text "EVENT_CREATED"))
    × (normalize_topic_key is_space lower (text "'Streams.EVENT_CREATED'")
        ≡ lower (text "EVENT_CREATED"))
    × (normalize_topic_key is_space lower (text "typeof Streams.EVENT_CREATED")
        ≡ lower (text "EVENT_CREATED"))
normalize_topic_key-member_example =
    normalize_topic_key-member b'S' (text "treams") b'E' (text "VENT_CREATED") refl refl refl refl
      is_space lower (λ x e. ground (arith, e)) b'\'' refl refl
