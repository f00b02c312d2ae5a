-- ===== src/Lib.antt =====
-- Busybee runs marketing workflows over crowds of users. Its state lives in a replicated key-value
-- store, sharded by raft; a shard applies requests one after the other through the handlers of
-- pkg/storage. Workers (pkg/core) take events of users from queues and move the users from step to
-- step of a workflow, on conditions that are expressions (pkg/expr). This library models the handlers
-- and the keys under which they store their data, the workers' steps, transactions and crowds, the
-- expressions, and the bitmap operations and the bitmap cache of pkg/util.
--
-- How the parts interact: a handler (`Storage.Kv`, `Storage.Queue`, `Storage.Workflow`) reads and
-- writes the engine below the shard at keys that `Storage.Keys` lays out, tests old values by
-- `Storage.Condition`, and answers with a `Storage.Reply`. An update of a worker's state is fenced
-- by a lock that the lock handlers keep. Bitmap requests of one raft batch are gathered and carried
-- out together (`Storage.BitmapBatch`) with the set operations of `Util.Bitmap`, and so are the items
-- added to queues (`Storage.QueueBatch`). A worker (`Core.Worker`) starts a transaction from its
-- crowds, runs the execution of the step that a user is in (`Core.Execution`), which moves the user
-- (`Core.Transaction`), and takes the transaction's crowds over when it completes. The condition of an
-- execution is a parameter of `Core.Execution`; what the code passes for it is `exec_runtime` of
-- `Expr.Runtime`, on a parsed expression.
--
-- Which file models what:
--   Storage/Keys.antt               pkg/storage/keys.go
--   Storage/Condition.antt          pkg/storage/condition.go
--   Storage/Kv/Conditional.antt     setIf and deleteIf of pkg/storage/cmd_handler_kv.go
--   Storage/Kv/Ids.antt             allocID and resetID
--   Storage/Kv/Lock.antt            allowLock, lock and unlock
--   Storage/Kv/Mapping.antt         updateMapping
--   Storage/Kv/Bitmaps.antt         bmcontains, bmcount and bmrange
--   Storage/Queue/Group.antt        pkg/storage/cmd_handler_queue.go: the consumer group's state,
--                                   timeouts, rebalancing, joining, admission of a fetch
--   Storage/Queue/Offsets.antt      the offsets of a partition, and queueCommit
--   Storage/Queue/Attributes.antt   the states that the requests of one log entry share
--   Storage/Queue/Items.antt        queueFetch, queueScan, queueDelete and queueJoinGroup
--   Storage/Kv/Scan.antt            scan of pkg/storage/cmd_handler_kv.go
--   Storage/ReadBatch.antt          pkg/storage/batch_read.go
--   Storage/Workflow/Instance.antt  pkg/storage/cmd_handler_workflow.go: workflow instances
--   Storage/Workflow/Worker.antt    pkg/storage/cmd_handler_workflow.go: workers of a runner
--   Storage/Workflow/Tenant.antt    updateTenantInitState of the same file
--   Storage/BitmapBatch.antt        pkg/storage/batch_bitmap.go
--   Storage/QueueBatch.antt         pkg/storage/batch_queue.go, batch_kv.go, and Execute of batch.go
--   Core/Crowd.antt                 who moves, of pkg/core/execution.go
--   Core/Steps.antt                 the steps of a workflow, and Steps/Build.antt newExcution
--   Core/Execution.antt             Execute of pkg/core/execution.go
--   Core/Transaction.antt           pkg/core/transcation.go
--   Core/Worker.antt                pkg/core/worker.go: what a worker keeps of its steps
--   Core/Worker/Crowds.antt         resetByState, doUpdateCrowd and doUpdateWorkflow
--   Core/Worker/Events.antt         beloneTo, onEvent and setOffset
--   Core/Worker/Handling.antt       doUserEvent, doStepTimerEvent and completeTransaction
--   Core/Worker/Ttl.antt            doCheckStepTTLTimeout
--   Expr/Run.antt, Expr/Value.antt  pkg/expr/value.go, and how an expression runs on bitmaps
--   Expr/Ops.antt                   pkg/expr/cmp.go, with Ops/Logic.antt; Ops/Overflow on `int64`
--   Expr/Vars.antt                  the variables of pkg/expr, and their keys
--   Expr/Names.antt                 pkg/expr/expr.go, and the constructors of variables
--   Expr/Runtime.antt               pkg/expr/runtime.go
--   Util/Bitmap.antt                pkg/util/bitmap.go, with Bitmap/Split.antt
--   Util/LruCache.antt              pkg/util/lru_bm_cache.go
-- Storage/Reply.antt is what handlers return. The files below each of these hold its theorems, and
-- `Tests` its runs on concrete data.
--
-- A handler is a function from the store to a reply and a new store, or to `fatal`, which is
-- `log.Fatalf` or a panic: both end the process. The current time and the question whether this
-- replica leads the shard are arguments. A response is kept as a message, not as its bytes.
--
-- What the code calls but does not contain is an interface: the engine (`Storage.Engine`), the
-- fixed-width numbers of goetty (`Storage.Wire`, with a big-endian implementation that shows that
-- its laws can hold), the protobuf encoding (`Storage.Codec`) and the Roaring bitmaps
-- (`Util.Roaring`). An engine in memory, an encoding and list-based sets instantiate them.
--
-- Unsigned integers are natural numbers with the wrap-around written out; `int64` times are
-- integers. Loops are structural recursion on lists, or on the number of rounds that the loop's
-- bounds give; only the loop over direct steps runs on fuel, and a fuel that bounds the length of a
-- chain of direct steps is enough. In Core a bitmap is a value; in Expr it is an object of
-- a heap, since operators change bitmaps in place. The expressions that Core evaluates are those that
-- change no crowd of the worker so: the worker's own bitmaps are what the crowd functions give out.
-- Nor is time an argument of the engine: what is said of a value that was written stands for values
-- without a time to live. An event for `eventC` is part of a handler's result, and what a full or a
-- closed channel does with it is not modelled. The float division of the
-- rebalancing is a division of naturals, rounded up, which is exact for 32-bit operands.
--
-- Not modelled: the set-up of requests and the reset of batches in pkg/storage; the loop of a worker
-- over its queue, the keys that it loads ahead and its requests to the store and the notifier; the
-- engine and the runner, the bit-sliced index and the crowd loaders, which are planned; the raft
-- store's set-up, the API server, metrics and commands, which are I/O; generated code and vendored
-- libraries.
pub mod Prelude
pub mod Util
pub mod Storage
pub mod Expr
pub mod Core
