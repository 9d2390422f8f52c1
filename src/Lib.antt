-- ===== src/Lib.antt =====
-- TinyOffice: durable work of AI employees, modelled and verified.
--
-- TinyOffice (src/, docs/) runs a company of persistent AI employees. Its durable work lives in
-- src/work. A WorkTask is an objective with an owner; a WorkSchedule says when it is run; a WorkRun
-- is one attempt by one assignee; events record what happened to a run, revisions what happened to
-- the objective. A dispatch lease hands a queued run to its assignee for a limited time. The API,
-- the chat runtime and the control plane are clients of the services modelled here.
--
-- Files:
--   Prelude          tests, lists, sorting, texts and JSON values as JavaScript has them
--   Prelude/Exec     methods that change a state and may throw. Ensures has the rules by which an
--                    action keeps an invariant, Succeeds the rules by which it returns
--   Work/Domain      src/work/domain.ts
--   Work/Repository  src/work/postgres-work-repository.ts: the lists of one company in memory
--   Work/Environment what a call takes from outside, the errors, and the checks of texts, timestamps
--                    and members of src/work/work-service.ts
--   Work/Service     the tables of src/work/work-service.ts; its children have the operations:
--                    Create (createWork), Due (listDueWorkSchedules, createDueWorkRun), Retry
--                    (retryWorkRun), Revise (reviseWorkTask), Schedules (moveWorkSchedule), Tasks
--                    (cancelWorkTask, archiveWorkTask, restoreWorkTask), Runs (moveWorkRun,
--                    recordWorkRunEvent). Below each, Safety is about the invariant, History
--                    about the history of a run, and the other modules about what the operation does
--   Work/Invariant   the invariant of the stored work, and the writes and checks under it
--   Work/History     what may become of one stored run
--   Work/Calls       the operations as calls, in sequences from the empty store
--   Work/Lease       src/work/work-dispatch-lease.ts and
--                    src/work/postgres-work-dispatch-lease-repository.ts; Lifecycle below it is about
--                    how the status of a lease changes
--   Work/Dispatcher  src/work/work-dispatcher.ts: a choice over the stored work and a lease for it
--   Governance       src/governance. Permissions is src/collaboration/policy/evaluate-permission.ts;
--                    Policies is EmployeePolicyService and DurablePermissionService over an interface
--                    with two sources, src/governance/repositories/employee-policy-repository.ts over
--                    src/governance/storage/postgres-company-governance-store.ts, which keeps no
--                    policies, and admin-employee-policy-repository.ts; Stored and Admin are about
--                    each; Approvals is ApprovalService and
--                    src/governance/repositories/approval-repository.ts, with Calls as a step relation,
--                    Canceling about its loops, Grants and Spending about grants, Backing and
--                    Soundness about the invariant, Outcomes about resolving; Requests is
--                    decideAccessToolCall of src/runtime/company-config/access-request-service.ts over
--                    them, with Allowed and Waiting about its two answers
--   Runtime          Transport is src/runtime/pi/persistent-pi-transport-state.ts, with History about
--                    its state, Selections about the transport selected, Bounds about its limits
--   Topics           src/channel-topics: Domain its records and their normal form, Service the
--                    repository and ensureChannelTopic, Routing routeToParticipant and applyHandoff;
--                    Participants, Normal, Invariant and Handoffs are about them
--   Intake           src/intake/intake-event-service.ts and src/intake/domain.ts; Interleaving and
--                    Orderly are about calls at the same time, Repeats and Keys about events sent again
--   Chat             Language is src/runtime/language/preferred-language.ts; Dispatch and
--                    Dispatch/Choice are src/runtime/realtime/tinyoffice-chat-dispatch-decision.ts;
--                    Safety, Totality, Targets and Answers are about the decision
--   Access           src/runtime/company-config/access-policy.ts: reading the policy of the tool guard;
--                    Stable and RoundTrip are about reading it back
--   */Tests          concrete records on which the theorems are applied
--
-- How the code is modelled:
--   - a method is an action from the stored records to a result or an error, with the records as
--     they are afterwards. The repository hands each write to the database when it is made, outside
--     a transaction, and `save` only waits, so that what was written before a throw stays written
--   - one Repository or lease list stands for one company's rows. A call of the work services
--     runs alone on it; two at the same time are not modelled
--   - a timestamp is a number of milliseconds from 1970. Readings of the clock are before the year
--     10000, where ISO texts compare as their instants do; a schedule's next time may be later, up to
--     the last date, and is compared as its text is. An interval is a finite double that is not
--     negative; whether its sum with a time rounds up to a whole number is a parameter. Other numbers
--     are natural numbers. The clock, the ids drawn, the employee directory, `localeCompare`
--     and `Date.parse` are fields of the environment, which a theorem takes as it comes
--   - an observer's callbacks are kept as a list of notices; what the observer does is not modelled
--   - the loops are recursions over lists, so no fuel is needed
--   - ApprovalService never throws, so its methods are functions from a state to a value and a state.
--     The parts beside work keep ISO texts of times as texts where the code rewrites them
--   - an intake call reads the store and adds its record in two steps, between which other calls may
--     run, on one store that the calls share; the server opens a store for each call, so this is about
--     the service. The other services are modelled a call at a time
--   - `JSON.stringify` on permission rules, `Number` on a variable of the process and `Date` on a text
--     are parameters; so are `localeCompare` and the digest in the decision on a chat message
--
-- Not modelled: the SQL texts and the decoding of rows, opening and closing of connections, stored
-- values that do not have their declared types, the runner of dispatches, the execution of turns,
-- collaboration beside the permission rules, the runtime beside the transport, the decision on a
-- message and the policy of the tool guard, the web application (input and output, or left for later).

pub mod Prelude
pub mod Work
pub mod Governance
pub mod Runtime
pub mod Topics
pub mod Intake
pub mod Chat
pub mod Access
