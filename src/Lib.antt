-- ===== src/Lib.antt =====
-- QLab: a lab's shared resources (vent hoods) are booked through a priority queue. The backend's engine
-- reschedules a pool's queue; the frontend shows the schedule and offers the actions on it, to one
-- of a lab's users whom a signed-in operator acts as.
--
-- DynamicQueue models backend/internal/dynamicqueue.
--   Slot: slot.go, ids.go, resource.go, queue.go, interface.go, trace.go. An instant is a number of
--     nanoseconds, counted from an origin 2^63 ns before Go's zero time, so that a floor of an
--     int32 lookahead is a number too. Minutes.Duration wraps around in int64.
--   Validate: `Input.Validate` of validate.go, each early return with its error. Validate/Sound: IsValid.
--   Intervals: basic/intervals.go (`buildFree`, `freeFrom`, `place`, `carve`, `sortedKeys`). A map of
--     the Go code is an association list; where the code reads its iteration order, it sorts first.
--   Reschedule: basic/reschedule.go (`Engine.Reschedule`, `lapsed`, `laterOf`). The in-place update of
--     the free map and of the queue is the state Loop, handed from slot to slot. `sort.Slice` is an
--     insertion sort; Validate has made the priorities differ, so that the order is the only one. A read
--     of the first interval of an empty list is the outcome `panicked`.
--   Greedy: the specification after docs/ALGORITHM.md, a greedy list schedule over occupied spans,
--     without free intervals. Intervals/*, Reschedule/Refines and Reschedule/Schedule prove that the
--     engine implements it, on the slots by priority and the resources by id.
--   Minutes: when Minutes.Duration is exact.
--
-- Scheduling models backend/internal/services/scheduling, which runs the engine after each event.
--   Store: store/slot.go and store/resource.go. Helpers: v1/helpers.go and the checks of v1/v1.go.
--   Events: v1/events.go, the callbacks that the events hand to `mutate`; a write through the pointer
--     of `findSlot` is update_slot. Convert: `toEngineSlot` and `buildEngineInput` of v1/convert.go.
--   Accepted: what well-formed rows are (WellFormed, after the table's constraints, with priorities that
--     fit int32), and what the engine makes of them; Accepted/Kept: what an event makes of them.
--   Apply: `applyEngine`, `computeSchedule` and `placeScheduled` of v1/convert.go; Apply/ReadOnly: the two
--     side by side; Apply/Outbox: whose the notifications are.
--   Lifecycle and Next, Rights: which steps a slot makes, and for whom.
--   Notify: services/notifications/v1/v1.go, the rows of the outbox.
--   Tables: the rows of PostgreSQL and the statements of store/pgstore/queries.sql on them, with
--     `WithPool` of store/pgstore/pool.go; an error rolls back. Tables/Commits, Tables/Upserts and
--     Tables/Labs: what a transaction writes.
--   Service: v1/v1.go, v1/events.go and authz/v1/v1.go, each method of `Service`, from the tables before
--     to the tables after with the result or the error. `serve` is any request that may write.
--     Service/Good: what a pool in order is; Invariant, Progress, Isolation (with Own), Outsiders and Undone: what
--     requests make of it. Accepted/Placed and Accepted/Persisted, Apply/Writes: that what the engine
--     places can be read back and is written.
--
-- Frontend models frontend/src.
--   Proto: the messages of protogen. Text: JavaScript's truthiness, `trim` and `join`.
--   Model: workspace/model.ts. Workspace: workspace/WorkspaceProvider.tsx; `begin` is a call up to its
--     await and `settle` the rest, so that any other event can come between the two; `step` is one
--     event and `run` a sequence of them.
--   Api: api/*.ts, the headers that the interceptors set from the auth holder.
--   SlotUi: components/slot-ui.tsx. PoolPanel: components/PoolPanel.tsx (`resultToRows`), with
--     PoolPanel/Container for the component. PoolView: components/PoolView.tsx, its heights, reach and
--     segments, with PoolView/Grid for the grid, the cards and the view. A Date is a number of
--     milliseconds, counted from the earliest Date.
--   Shell: env.ts, theme.ts, ThemeToggle, SessionProvider, SignIn, ActAsSwitcher, WorkspacePicker and
--     App. Shell/Provision: ProvisionModal with the rules of proto/qlab/dev/v1/dev.proto. Shell/Entry:
--     main.tsx and firebase.ts. Preview: the mock data of Preview.tsx.
--   Proto/Service and Proto/Dev: the methods of both services and their messages.
--
-- HeaderMap models the Headers that both sides use, where the case of a name's letters does not count.
--
-- Authentication models backend/internal/services/authentication with store/pgstore/user.go.
--
-- Api models backend/internal/api: Convert the conversions of protoconv.go and convert.go, Handlers the
--   methods of api.go, Auth the interceptor of auth.go and a whole call, GoText the functions of Go's
--   strings that these use. Auth/Arrives: from the frontend's headers to the principal. Served: from a
--   schedule to the frontend's rows.
--
-- Operator models the writes of the operator surface: `CreateLabWorkspace` and `DeleteLab` of
--   store/pgstore/operator.go, which see all labs, and in Respond their methods and conversions of
--   backend/internal/devapi. The uuids that a request draws are a sequence, its argument `draw`. Inserts, Made
--   and Provisioned: what is made, and that requests can go on from it; TornDown: that nothing is left.
--
-- How they meet: Api calls Authentication for the token and then a method of the service; the service
-- changes a pool's rows in one transaction of Tables and builds the engine's Input from them; the
-- engine's positions arrive in a RescheduleResult, PoolPanel makes rows of it, PoolView groups the
-- rows and draws them, and SlotUi gives each row its buttons; the token and the lab of Workspace
-- become the headers of Frontend/Api, which Api reads; Shell shows the panel if there is a workspace.
--
-- All functions are structural recursions and return, except that `decimal` writes a number with as
-- much fuel as the number itself, which is more than its digits.
--
-- Parameters and bounds. `timestampDate` of @bufbuild/protobuf is an argument of PoolPanel, replies
-- of the operator client are arguments of `settle`; uuid.Parse and the notification builder are
-- arguments of Apply, and uuid.Parse a part of the service's Settings. What the database refuses is a
-- record of Faults (UserFaults for the users) that a request meets: a statement returns the fault's
-- error or does what it says. It also has the rounding of an instant in a timestamptz column, which
-- keeps microseconds; the zero time is NULL there. The uuid that a booking draws and the instant are
-- its Moment. The verifier of tokens, protovalidate, and timestamppb are arguments of Api.
-- PostgreSQL's order of ids is the order of their texts. The requests of Service.Invariant are one after
-- the other, as the pool's lock makes them. The engine's schedule is exact for durations and a grace of
-- at most 153722867 minutes (292 years), where Minutes.Duration does not overflow. A booking's
-- priority stays below 2^31, where the service's conversion to int32 is exact.
--
-- Not modelled: logs, spans and the texts of errors; row-level security and locks; the operator's
-- gate, its minting of tokens and its reads; middleware, configuration and clients of outside
-- services; generated code, but for the shapes of messages; markup and class names, beyond what tells
-- things apart; `toLocaleTimeString`; React's rendering and the scheduling of its effects.
pub mod Base
pub mod DynamicQueue
pub mod Scheduling
pub mod Frontend
pub mod HeaderMap
pub mod Authentication
pub mod Api
pub mod Operator
