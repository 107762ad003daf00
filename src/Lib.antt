-- ===== src/Lib.antt =====
-- Verification of the inference scheduler's endpoint picker: its flow control layer, its scheduling core, the
-- approximate prefix cache and the order of its data plugins.
--
-- Requests wait in queues, one for each flow, grouped by priority into bands. A processor picks a band's
-- flow by a fairness policy and dispatches the head of its queue, which an ordering policy decides.
-- The registry keeps flows alive by leases, and each request ends in exactly one final state.
--
-- Files, and what they model (paths from the repository's root):
--   Item, Flow          pkg/epp/framework/interface/flowcontrol: items, handles and flow keys.
--   Queue/MaxMinHeap    pkg/epp/flowcontrol/framework/plugins/queue/maxminheap.go. The file has the
--                       methods up to Add and the peeks, MaxMinHeap/Removal has Remove, Cleanup and
--                       Drain. Tracking, Moves and Contents are about handles, positions and contents,
--                       Levels, Order, Up and Priority about the order of the heap.
--   Fairness/RoundRobin pkg/epp/framework/plugins/flowcontrol/fairness/roundrobin.
--   Fairness/GlobalStrict
--                       pkg/epp/framework/plugins/flowcontrol/fairness/globalstrict; GlobalStrict/Best is
--                       about its pick.
--   Ordering            pkg/epp/framework/plugins/flowcontrol/ordering: FCFS, EDF, SLO deadline.
--   Registry/Config     pkg/epp/flowcontrol/registry/config.go. Config/Defaults has the defaults and the checks
--                       of a band, Config/Building the options and NewConfig, Config/Api NewConfigFromAPI;
--                       Partition, Validity, Choice and Acceptance are about them.
--   Registry/Shard      pkg/epp/flowcontrol/registry/shard.go. Creation, Bands, Flows and Levels are about
--                       its calls.
--   Registry/FlowRegistry
--                       pkg/epp/flowcontrol/registry/registry.go. FlowRegistry/Collection has the two
--                       collections; Topology is what holds of the bands and the flows, Creation,
--                       Provisioning, Leases, Sessions and Opening are about the calls, IdleFlows, IdleBands
--                       and Reclaiming about the collector, Life
--                       about sequences of them.
--   Registry/Leasing    pkg/epp/flowcontrol/registry/leasing.go. Leasing/Protocol has the pin loop and
--                       the collector as interleaved steps.
--   Queue/ListQueue     pkg/epp/flowcontrol/framework/plugins/queue/listqueue.go; ListQueue/Fifo is about
--                       its order, Invalidation and Lawful about the contract of a queue.
--   Queue/Contract      pkg/epp/flowcontrol/contracts/queue.go, the operations of a queue and their laws.
--   Registry/ManagedQueue
--                       pkg/epp/flowcontrol/registry/managedqueue.go over that contract, and the counters
--                       of shard.go; ManagedQueue/Statistics is about the counters.
--   Controller/FlowItem pkg/epp/flowcontrol/controller/internal/item.go.
--   Controller/Shard    pkg/epp/flowcontrol/contracts/registry.go, what a processor sees of its shard.
--   Controller/Processor
--                       pkg/epp/flowcontrol/controller/internal/processor.go. The file has admission and
--                       dispatch, Processor/Shutdown the sweep and the shutdown; Capacity, Admission,
--                       Cycle and Shutdown/Eviction are about them.
--   Eviction            pkg/epp/flowcontrol/eviction: Heap is the heap of queue.go, Queue its maps and
--                       EvictN of plugin.go, Policies the ordering and the filter of
--                       pkg/epp/framework/plugins/flowcontrol/eviction. Heap/Indices, Heap/Contents and
--                       Heap/Insertion are about the heap's indices and entries, Queue/Handles,
--                       Tracking, Arrival and Popping about the queue.
--   PrefixCache         pkg/epp/framework/plugins/requestcontrol/dataproducer/approximateprefix: Hashing
--                       is hashing.go, Indexer indexer.go, Matching the functions of plugin.go that match
--                       a prompt, Requests what it does before and after the scheduling of a request.
--                       Hashing/Blocks, Indexer/Agreement and Requests/Affinity are about them.
--   Datalayer/DataGraph pkg/epp/datalayer/data_graph.go. Degrees, Round and Invariant are about the loops
--                       of the topological sort, Sorting about its outcome.
--   Datalayer/Dependencies
--                       the rest of that file: the graph of the plugins' data dependencies and their
--                       validation. Edges, Building, Registered and Validation are about it.
--   Scheduling/Profile  pkg/epp/scheduling/scheduler_profile.go; Weights is about the scores, Candidates about
--                       a run.
--   Scheduling/Scheduler
--                       pkg/epp/scheduling/scheduler.go, and the handler of a single profile; Single is
--                       about the two together.
--   Scheduling/Disaggregation
--                       pkg/epp/framework/plugins/scheduling/profilehandler/disagg/disagg_profile_handler.go;
--                       Targets, Picks, Causes and Stages are about scheduling with it.
--   Scheduling/MaxScorePicker
--                       pkg/epp/framework/plugins/scheduling/picker/maxscore; Highest is about its pick.
--   Examples            runs on concrete inputs, and an instance of each result.
--
-- How the code is read. A method that holds a mutex is one function from the state to the state; where
-- threads interleave between atomic accesses, they are a step relation. Memory that the code shares by
-- pointers, such as a handle, is a function from addresses. A Go call ends in Prelude.Outcome.Run: a
-- value, an error, a panic, or fuel that ran out. bubble_up has one unit of fuel more than the position
-- it starts from, since each round goes to a smaller one; trickle_down has one more than the length of
-- the heap, since each round goes to a larger position. The topological sort has one more than the number of
-- nodes, since each round processes a further node, and the hashing of a prompt one more than the number of
-- bytes, since a block has at least one. Times and sizes are natural numbers; a counter of 64 bits wraps by
-- `% 2 ^ 64`.
--
-- A call of the registry is one step of its state; where its calls interleave on one key is in
-- Registry/Leasing. A band or a flow is a record with the count of its leases, and what a caller that waits
-- for another's initialisation sees is left out. The plugins of a configuration are looked up by a function.
-- The heap of evictable requests has the loops of container/heap written out: `up` has one unit of fuel more
-- than the position it starts from, and `down` one more than the length.
--
-- The processor is written against an interface of its shard, a record of operations on a state; what
-- it needs of Drain is a law of that interface. The saturation and the ceilings are parameters of a cycle,
-- and so is the order in which the workers of a sweep take the collected queues.
--
-- The plugins of a scheduling profile are functions that may change a state; that they keep to the endpoints
-- that they get is a hypothesis. Scores are of a type with the operations of float64 that the code uses, of
-- which nothing is assumed. Two units of fuel are enough for the scheduling loop with the handler of a single
-- profile, since the second pick is empty, and four with the handler of stages, since each round settles one of
-- the three.
--
-- The LRU cache of the prefix index is a record of operations, with what its documentation promises as
-- laws; xxhash is a function of the bytes written.
--
-- Not modelled: the processor's waiting on channels, the timer that removes inactive pods from the prefix index,
-- the set-up of profiles and plugins from their configuration, the default data producers, the hooks, the
-- channels and the evictors of the eviction plugin, the statistics that the registry reports, logging, metrics and
-- tracing. slices.SortFunc and SortStableFunc, random shuffles, number parsing, the deciders of a disaggregated
-- request and the contents of requests are parameters. The goroutine that updates the prefix index waits among
-- the pending ones until a step runs it. The other packages of the repository are not modelled.
pub mod Prelude
pub mod Item
pub mod Queue
pub mod Flow
pub mod Fairness
pub mod Registry
pub mod Scheduling
pub mod Ordering
pub mod Controller
pub mod Examples
pub mod PrefixCache
pub mod Datalayer
pub mod Eviction
