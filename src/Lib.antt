-- ===== src/Lib.antt =====
-- A verification library of the reference core of DF Fabric (core/reference/pacore) and of its
-- production kernel (pk).
--
-- The parts and how they meet. crdt.py holds replicated data types that merge without coordination,
-- an anti-entropy reconciler that merges any of them pairwise, and a contract that admits or blocks a
-- consistency guarantee. protocols.py holds the ledger of entangled pairs (ebits), whose records move
-- along a fixed transition table, and a fabric of classical messages, which a remote correction waits
-- for. resilience.py injects failures from a catalog, classifies them into
-- recovery classes, hands a class to a tree of supervisors, and keeps checkpoints and recovery
-- transactions of classical state. In crdt.py and resilience.py a guard refuses quantum values.
--
-- The production kernel (pk/pk_core) takes an element with a contract and a checklist through ten
-- stages, writes each into a hash-chained evidence ledger, and a gate turns the results into a
-- verdict. The elements (pk/pk_components) carry the semantics: the order of a graph of intents,
-- the placement of workloads, a policy engine, staged rollouts, shares of capacity, authority of a
-- site that is cut off, attestation, the lifecycle of a node, a pool of devices, and a key replicated
-- over sites.
--
-- Which file models which part:
--   Payload               the Python values that replicas, checkpoints and transactions hold
--   Crdt/Quantum          is_quantum_value and reject_quantum of crdt.py
--   Crdt/Counts           the dictionaries of counters and their merge by maximum
--   Crdt/GCounter, PnCounter, GSet, OrSet, Register
--                         the replicated types; Crdt/Laws is the interface that their merges fill
--   Crdt/Version          VersionVector
--   Crdt/AntiEntropy      AntiEntropy over any replicated type
--   Crdt/Contract         ConsistencyContract
--   Protocols/Ebit        EbitLedger of protocols.py
--   Protocols/Feedback    ClassicalFeedbackFabric
--   Resilience/Scenario   SCENARIOS and FailureInjector.inject of resilience.py
--   Resilience/Planner    RecoveryPlanner.classify
--   Resilience/Supervision  Supervisor.decide and SupervisionTree.handle
--   Resilience/Checkpoint   CheckpointStore
--   Resilience/Transaction  RecoveryTransaction
--   Resilience/Campaign     run_campaign
--   Pk/Evidence           EvidenceLedger of pk/pk_core/evidence.py
--   Pk/Contract           Contract.validate of pk/pk_core/contract.py
--   Pk/Checklist          pk/pk_core/identity.py, checklist.py and Component.assess of component.py
--   Pk/Workflow           WorkflowEngine of pk/pk_core/workflow.py
--   Pk/Gate               ConformanceGate of pk/pk_core/gate.py
--   Pk/Intent             IntentGraph and plan of pk/pk_components/pln01_intent_plane
--   Pk/Placement          classify and place of sch01_workload_classification_and_runtime_placem
--   Pk/Policy             PolicyEngine of pk/pk_components/gap13_policy_engine
--   Pk/Rollout            Rollout of gap08_ota_lifecycle_rollback
--   Pk/FairShare          Topology, FairShare and rank of gap03_topology_aware_scheduler
--   Pk/Autonomy           AutonomyController of gap04_disconnected_operation_controller
--   Pk/Attestation        Attestor of gap06_device_identity_and_attestation
--   Pk/Supervisor         NodeSupervisor of gap01_edge_node_supervisor
--   Pk/Accelerator        AcceleratorPool of gap11_accelerator_scheduling
--   Pk/Replication        ReplicatedKey of gap05_state_replication_consistency_model
--   Prelude               dictionaries, sets, texts, integers, results and methods with errors
--   Tests                 the theorems at concrete inputs
--
-- How state is modelled. A dictionary is an association list in insertion order; what `state()` shows
-- of one is its lookup function, since the source sorts it before it is shown or hashed, and of a set
-- its membership test, which leaves out how equal elements are written. A method that
-- may raise returns the exception's class; where it may raise after it has written, it returns the
-- object as well (Prelude/Exec). Counters, epochs, ticks and timestamps are natural numbers. Messages
-- and the wording of reasons are not modelled: an exception is its class, a reason its rule.
--
-- Parameters for what is not in this repository: Python's JSON encoder, its equality and hash of the
-- elements of a set (the type of elements up to them, with the function that takes a value there),
-- SHA-256, the clock, the random generator and floating-point numbers. What a theorem needs of them is
-- a named hypothesis of it. The assessments of an element's class, which phrase findings, are a
-- parameter of the workflow.
--
-- Fuel. `chunks` is given as much fuel as there are bytes, enough since every chunk but the last takes
-- 256 of them; `handle` one round for each of the four levels, enough since every round goes one level
-- up; the rounds of `order` as many as there are nodes, enough since every round that goes on takes a
-- node away. `converge` has the bound of the source, max_rounds. `strip`, `lower` and `upper` are
-- Python's on ASCII.
--
-- Not modelled: `copy`, `random_sample` and `as_dict` of the replicated types, the randomised law
-- checker, `check_acyclic` and the replay of the feedback fabric, the numerical
-- protocols on state vectors and the protocol compiler of protocols.py; of pk, the copy of the evidence
-- on disk, the loading of checklists, the default assessments, the command line and the other
-- components; and the other modules of the repository.
mod Prelude
pub mod Payload
pub mod Crdt
pub mod Protocols
pub mod Resilience
pub mod Pk
mod Tests
