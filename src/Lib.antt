-- ===== src/Lib.antt =====
-- hmta-service: the allocation of tasks between humans and machines.
--
-- A task description becomes a plan, the plan a behaviour tree, and the tree is run against robots
-- and operators on a message bus. The generation pipeline (app/generation) builds the tree and
-- checks it by rules; the execution engine (app/execution) ticks it; its leaves send commands
-- through a resolver (app/execution/command) and wait for their status.
--
-- Which file models which part (paths from the repository's root):
--   Prelude         shared names; Python's dictionaries (Prelude/Dict) and texts (Prelude/Text)
--   Validators      app/generation/validators and the nodes around them: Structure
--                   (structure_check.py), Capability (capability_check.py), Safety
--                   (safety_check.py), Gate (graph/constraint_validator.py), Repair (the cycle of
--                   bt_builder.py, the validator and the router of node_registry.py)
--   Command         app/execution/command/command_resolver.py with app/schemas/command.py: Status
--                   (status updates), Resolver (`resolve`), Mutex (its guards and its motion
--                   mutex), Completion (`complete_by_entity`, `complete_by_action_result`),
--                   Directives (the queries of `HumanMonitor`), Registry (`register_entity`, and the
--                   import of capabilities from the graph)
--   Behaviours      app/execution/behaviours: what a tick sees of the blackboard. GoalGate is
--                   goal_confirmation_gate.py, with its review sessions and its directive;
--                   HumanGate is human_gate.py, with its reminders and retries;
--                   SupervisedFallback is supervised_fallback.py around any child;
--                   MissionMonitor and HumanMonitor are the two monitors. The ticks of the first
--                   three stand in their modules Ticks. EntityWorker is entity_worker.py: Goal
--                   (the mission's goal, preconditions, effects), Queue (the choice of a task, work
--                   stealing), Steps (commands), Moves, Executing, Fallback and Ticks (the phases);
--                   Runs ticks any number of workers on one queue, in any order. CommandAction is
--                   command_action.py: Zones (the coverage of a zone), Sweep (a zone that is
--                   swept waypoint by waypoint), Starts and Ticks (the leaf's life). Pace has
--                   the times of the ticks.
--   Responses       app/execution/command/response_resolver.py: a human's answer becomes a command
--                   status, blackboard entries, and the answer of a task.
--   Fsm             app/execution/fsm: the tables of the state machines, and the manager.
--   Coverage        app/generation/graph/coverage_ensurer.py: the zones that a mission has to cover,
--                   and the subtasks that the node adds for those that no subtask covers.
--   Runtime         app/runtime: Health (health_monitor.py, which robots are alive), Reallocator
--                   (rule_reallocator.py, who stands in for a robot that is lost), and Watch (the
--                   callbacks with which runtime_main.py joins them)
--   Hypergraph      app/capability/hypergraph.py: the capability graph with its changes and its
--                   serialised form; its queries in Hypergraph/Queries
--   Json            app/generation/graph/json_utils.py: the repair of a JSON text that is cut off,
--                   the search for the object in a language model's answer, and the behaviour tree
--                   that is made of it (Json/Trees); Json/Reading says how brackets have to match
--   Examples        tests, and each theorem at a concrete input
--
-- How state and operations correspond: an object is a record, a method a function to the new
-- record and its answer; a dictionary is an association list in the order of insertion, whose
-- keys do not repeat where a theorem says `IsDict`; a set is a list of which only membership is
-- read. A function has the name of the method that it models. Logging, the wording of messages
-- and the events for progress displays are left out. Times are natural numbers of a fixed unit.
--
-- Fuel: the walk of the structure check takes one unit for each node that it is inside of, so one
-- more than the number of nodes is enough; the repair loop takes one for each round, and the
-- limit on rounds bounds it. The recursion limit of Python is not modelled.
--
-- Arguments of the model: the language model that builds trees; what the translators make of a
-- command; the alias table of the ontology; the child that a decorator drives; the clocks, and the
-- identifiers of new commands; the coordinates of a zone and the nearness of a task, which are
-- floating-point geometry; the comparison of weights; the parameter resolver's answer, the zones of
-- the registry and the effects of an intent; `json.loads` and the pattern of code fences; the state
-- machine library's `send`, of which only `IsStateMachine` is assumed. `str.lower` and `str.strip`
-- are modelled on ASCII texts. Publishing on the bus is taken to succeed.
--
-- Not modelled: the HTTP service, the bus itself, files and databases, the floating-point estimates
-- of proficiency, and so far the task allocator, the parameter resolver, the builders of trees from
-- templates, the life of the execution engine, and the payloads that the translators make.
mod Prelude
pub mod Validators
pub mod Command
pub mod Behaviours
pub mod Responses
pub mod Fsm
pub mod Coverage
pub mod Runtime
pub mod Hypergraph
pub mod Json
mod Examples
