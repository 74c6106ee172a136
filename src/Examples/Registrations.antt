-- ===== src/Examples/Registrations.antt =====
-- A robot dog reports its capabilities, and the graph knows one more.
use hmta_service.Prelude.{
  none, some, false, ◌||◌, List, [], ◌∷◌, ◌≡◌, ◌⊎◌, refl, any, elem, ne_of_==,
}
use hmta_service.Prelude.Dict.{lookup}
use hmta_service.Command.{text, EntityInfo}
use hmta_service.Command.Registry.{
  is_nil, entity_caps, GraphNode, caps_of, register_entity, register_entity_capabilities,
  sync_capabilities_from_graph,
}
use hmta_service.Command.Registry.Import.{provides, elem-sync_capabilities_from_graph}
use hmta_service.Examples.Commands.{dog, busy}

abbrev scanning_dog : EntityInfo
scanning_dog = record dog { capabilities = some (text "scan" ∷ []) }

register_entity_capabilities_example :
    (caps_of (register_entity scanning_dog busy) "dog-1" ≡ caps_of busy "dog-1")
    ⊎ (("dog-1" ≡ scanning_dog.entity_id)
        × (caps_of (register_entity scanning_dog busy) "dog-1" ≡ entity_caps scanning_dog)
        × ((is_nil (entity_caps scanning_dog) ≡ false) ⊎ (lookup "dog-1" busy.capabilities ≡ none)))
register_entity_capabilities_example = register_entity_capabilities scanning_dog busy "dog-1"

abbrev graph : List GraphNode
graph =
    record {
      id = "dog-1";
      kind = "entity";
      entity_type = "robot";
      capability_edges = ("dog-1" ∷ "scan" ∷ []) ∷ [];
    }
    ∷ []

elem-sync_capabilities_from_graph_example :
    elem "scan" (caps_of (sync_capabilities_from_graph graph busy) "dog-1")
    ≡ (any (provides "dog-1" "scan") graph || elem "scan" (caps_of busy "dog-1"))
elem-sync_capabilities_from_graph_example =
    elem-sync_capabilities_from_graph graph "dog-1" "scan" busy (ne_of_== "scan" "dog-1" refl)
