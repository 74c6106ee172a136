-- ===== src/Examples/Lost.antt =====
-- A robot whose heartbeat stops.
use hmta_service.Prelude.{false, not, ◌&&◌, [], ◌∷◌, ◌≡◌, refl, elem}
use hmta_service.Runtime.Health.{HealthMonitor, check, is_overdue, check_lem}
use hmta_service.Runtime.Reallocator.{RuleReallocator}
use hmta_service.Runtime.Watch.{RuntimeState, handle_offline, handle_online}

abbrev watched : HealthMonitor
watched = record {
  timeout = 5;
  last_seen = ("dog-1", 10) ∷ ("dog-2", 14) ∷ [];
  alive = "dog-1" ∷ "dog-2" ∷ [];
}

abbrev tables : RuleReallocator
tables = record {
  ranked_candidates = ("scan", "dog-1" ∷ "dog-2" ∷ []) ∷ [];
  replacement_order = ("dog-1", "dog-1" ∷ "dog-2" ∷ []) ∷ [];
  offline_entities = [];
}

abbrev runtime : RuntimeState
runtime = record { reallocator = tables; replans = [] }

check_lem_example :
    (elem "dog-1" (check handle_offline handle_online 17 watched runtime).0 ≡ (
      elem "dog-1" watched.alive
      && is_overdue handle_offline handle_online 5 17 watched.last_seen "dog-1"))
    × (elem "dog-1" (check handle_offline handle_online 17 watched runtime).1.alive ≡ (
        elem "dog-1" watched.alive
        && not (is_overdue handle_offline handle_online 5 17 watched.last_seen "dog-1")))
    × (elem "dog-1"
          (check handle_offline handle_online 17
            (check handle_offline handle_online 17 watched runtime).1
            (check handle_offline handle_online 17 watched runtime).2).0
        ≡ false)
check_lem_example =
    check_lem handle_offline handle_online 17 watched runtime "dog-1" (refl, (refl, tt))
