-- ===== src/Lib.antt =====
-- A verification library for rdev, the remote-development broker.
--
-- The broker (internal/broker) takes the requests of many owners for many hosts. Its scheduler
-- decides which of them run. Each request is an item on one of three lanes (internal/broker/lane.go);
-- a lane has a queue that is fair among owners (internal/broker/fairqueue.go); the scheduler
-- (internal/broker/scheduler.go) keeps the queues, counters of what is queued and what runs, and a
-- host pool that it asks for a slot before an item starts.
--
--   Base                 what the models share: texts, native numbers, lists, dictionaries for Go
--                        maps (a missing key reads as the zero value), their keys and sums, lists of
--                        owners
--   Broker/Lane          lane.go: the lanes, LaneForOperation
--   Broker/FairQueue     fairqueue.go: NewFairQueue, Enqueue, setWeight, SetWeights, removeOwner,
--                        Next, NextEligible, RemoveIf. Below it: Invariant (the well-formed queues),
--                        Contents and Picks (what a search takes), Removal, Extraction and
--                        Uniform (what RemoveIf takes), Totals and Sweeps (how many items of each
--                        kind), Turns (weights), Service (Next against one queue by owner),
--                        Histories, Tests
--   Broker/Scheduler     scheduler.go: the configuration, the data, changeLocked, statLocked
--     /Eligible          eligibleLocked, with its three gates and the pool's answer
--     /Dispatch          scheduleLocked
--     /Entry             Do (admit, abandon), run (finish), Configure, SetOwnerWeight, Snapshot,
--                        Close, the pool's notifications (wake) and the bulk lane's timer
--     /Tally, /Frame, /Invariant, /Schedule, /Fuel, /Operations, /Endings, /Weights,
--     /Refusals, /Abandon, /Closing, /Histories, /Limits, /Pacing, /Charges, /Waiting, /Meanwhile
--                        the counters, what a step leaves alone, the invariant, its proof for a
--                        scheduling pass and for each entry point, what Close answers, the
--                        histories, the limits, the waits of the bulk lane
--   Broker/Approval      approval.go: NewApproval, Validate, ApprovalStore. Binding is about
--                        the requests an approval is good for, SingleUse about how often it is used
--   Broker/Lease         lease.go: when a host's idle connection may be reaped. Histories compares a
--                        lease with the calls that were made of it
--   Broker/Pool          pool.go: the hosts' slots, grantLocked, retireLocked, trimLocked, pumpLocked
--     /Entry             Acquire, its end of a context (give_up), the release functions, Configure,
--                        Reap, ReapBulk, Close, Demand, TryAcquire, Snapshot, and what the closers do
--                        when a cleanup ends (base_cleaned, bulk_cleaned)
--     /Keys, /Invariant, /Retiring, /Pumping, /Steps, /Sweeps, /Leases
--                        entries by host, slots against leases, and each method's step
--     /Bound, /Growing   the number of hosts
--     /Histories, /Closed
--                        the events of a pool in any order, and those of a closed one
--   Broker/Policy        policy.go: Grant and Revoke (update), Decide, CapabilityForOperation. Updates
--                        says what an update changes of the decisions
--   Broker/Watch         watch.go: NewWatchHub, Subscribe and the function it returns, Publish, Watching.
--                        Sets, Invariant and Publishing are about the hub's bounds, Histories about
--                        any order of calls
--   Broker/Lifecycle     lifecycle.go: RequestRegistry, the requests that can be cancelled by id.
--                        Cancellation says which requests CancelOwner reaches
--
-- The package internal/fileedit edits a text that its caller has named by a digest; the agent and the
-- command line use it. The package internal/storage holds the limits of a managed state, and
-- internal/proto the messages and their budgets.
--
--   FileEdit/Lines       edit.go: Validate, boundaries; proto.go: EditParams, LineEdit
--   FileEdit/Patch       patch.go: parsePatch with its header expression. Fuel is about its loop
--   FileEdit/Apply       edit.go: Apply. Splicing, Inside and Outcomes are about the splices it makes,
--                        Stale about a text that is not the one the caller has read
--   FileEdit/Diff        diff.go: UnifiedDiff. Bounded is about where it is cut
--   FileEdit/Bytes       what the package uses of Go's libraries: UTF-8, hexadecimal, Count, Replace,
--                        SplitAfter, Atoi, %d. Slices has its laws, Boundaries those of line offsets
--   FileEdit/RoundTrips  what is printed and read again
--   Proto/Timeouts       internal/proto/timeouts.go: ResolveTimeout, NormalizeTimeouts. Granted and
--                        Budgets are about what is sent
--   Storage/Policy       policy.go: Default, Validate, Resolve, Load. Resolving, Again and Loading are
--                        about the limits that come out
--
-- A function of the models is what the source does between a lock and its unlock; it takes the state
-- and returns the next. A predicate that the source hands to a queue has effects on the scheduler, so
-- the queue's functions take a predicate on a state of the caller. The slot of a finished item goes
-- back just before the lock in `run`, and is part of the same step here.
--
-- Loops: NextEligible makes a round for each owner of the order, and the loop's own bound is its
-- fuel. RemoveIf takes the length of the order as fuel: each round drops an owner or goes past it.
-- The dispatch loop of scheduleLocked takes the lane's limit as fuel: each round starts one item more
-- of the lane, or ends the loop.
--
-- trimLocked takes the number of live slots, which its loop counts down. The loop over the hunks of a
-- patch takes the number of lines, of which each hunk has one at least. UnifiedDiff takes the number
-- of lines that it may write and one: each round moves an index.
--
-- The host pool's slots are known by their hosts, since the pool finds them so: a slot that is in use
-- leaves the entries only after Close, and nothing is opened then. The pool's record has three fields
-- more than the source: the leases that are out, the answers of waiters and the hosts that were
-- detached. Go visits the entries of a map in any order; here it is that of the dictionary.
--
-- Numbers: counters are natural numbers; weights and changes of counters are integers, and a change
-- that would take a counter below zero leaves it at zero. Times are nanoseconds; the time until which
-- bulk work waits is computed in 64 bits with a sign, as the source does (`ready_time`).
--
-- Parameters: the digest of a request (SHA-256 of its JSON) is a function, with no property assumed;
-- so are the policy's digest and what its writes return. SHA-256 is a parameter of FileEdit/Apply;
-- floats, the parsing of durations and of JSON are those of Storage/Policy, and JSON and the size of
-- a name those of Broker/Watch, with no property assumed but where a theorem names one. To the
-- scheduler the host pool is a record of the three operations that it uses, and its theorems hold
-- for any; one that grants every request stands for the nil pool. A reading of the clock and the
-- contexts of the callers come in by `Env`.
--
-- Not modelled: the connection and traffic counters of the telemetry (internal/observe), the calls
-- that run and the channels that carry results (a log of what is sent, and of which items are
-- cancelled, stands for them), the choice of the Go scheduler between goroutines (histories hold for
-- every order), and the other parts of the repository.
pub mod Base
pub mod Broker
pub mod FileEdit
pub mod Proto
pub mod Storage
