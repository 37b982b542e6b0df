-- ===== src/Lib.antt =====
-- A model of the parts of swebench_eval that decide: when a run may start and go on, which model call is
-- admitted, how many calls a provider stands, what a result means and how it changes the row of its
-- instance, when a row or a run is closed, what is kept of a conversation, when an agent is stuck, how
-- many graders run, what a call costs, whose keys are blocked, how many tasks run at once and when the
-- next one may start, which attempts an operator adds, and with which environment a task and an agent
-- start.
--
-- A run claims its pair of harness and model, mints its keys, seeds its rows and is dispatched as jobs
-- (RunLaunch, Queue). Dispatcher takes one at a time while its count of tasks lies below the ceilings and
-- its planner's gate is open, and starts a task with a job reference in its environment; a job of a run
-- that Control calls aborted it closes with a result instead. A worker asks Control whether its pool or
-- run is stopped, starts the agent with a part of its own environment (Routing), and its calls of a model
-- go through the gateway, where Pacer admits them under rates that Ceiling measured, GatewayPause may have
-- blocked its key, and Pricing charges them. It ends with a reason that Lifecycle turns into a state and
-- an error category, and sends a result. The results writer (Results) puts the results into the table,
-- sends the eval job of an instance whose harness is done, and sums up the run, for whose last step it
-- asks Lifecycle whether every row is closed. The supervisor and an abort (Reaper) close rows that no
-- worker will close, the first through a result message, the second in the table. Restart adds attempts to
-- the table for the instances that an operator names, sends their jobs, and closes the run once no row is
-- open. Compaction cuts the conversation of the harness that the repository brings, and Stuck watches the
-- events it writes. The grader's queue is worked off by the service that EvalScaler sizes, unless Control
-- pauses it.
--
-- Files, and what they model:
--   Prelude        tests, lists over native numbers, integers (Int), Python's texts (Text), numbers in
--                  decimal and back (Decimal)
--   Lifecycle      database/state_machine.py: error categories, states, and the three maps into them
--   Control        control/state.py: the flags in Redis, the gate, set_pause and request_abort (Gate);
--                  publishing the row of the database (Publish); the marker of activity (Active)
--   Pacer          gateway/pacer.py: the admission script, which runs in Redis, and the two that take a
--                  call out of its books (Admit), over sorted sets (Queue) and hashes (Hashes)
--   Compaction     harnesses/compaction.py: messages and their lengths (Message), the kept tail (Tail),
--                  the three stages (Stages), the trigger and the count of notices (Threshold)
--   Stuck          harnesses/stuck_detector.py: the scan for a repeated call, and the verdict
--   EvalScaler     orchestrator/control_plane/eval_autoscaler.py: the configuration and the targets of a
--                  tick, the calls of AWS and the rate limit (Tick), and the release of drained
--                  hosts (Drain)
--   Results        queue/schemas.py's ResultMessage, its body and the parse of a body (Wire), and
--                  orchestrator/control_plane/results_writer.py: the guarded upsert of a message into the
--                  rows (Table), a message's delivery with the eval job that follows (Write), the
--                  summary and the readiness of a run to be closed (Summary)
--   Reaper         orchestrator/control_plane/run_supervisor.py: the rule for rows past their deadline
--                  (Deadline) and the rule for rows whose job vanished (the root, Drained);
--                  orchestrator/control_plane/abort.py: the sweep (Sweep); what their messages and writes
--                  come to in the writer's table (Closing)
--   Ceiling        gateway/ceiling_discovery.py: the tally of a batch of probes, and the search for the
--                  highest safe concurrency
--   Queue          queue/schemas.py: JobReference as an environment, HarnessJob and its body (Jobs)
--   Pricing        gateway/pricing.py: the tables and the cost of a call
--   Routing        harnesses/routing.py: the markers of a pause and of a block, the gateway's key, and the
--                  environment of an agent's process
--   GatewayPause   orchestrator/control_plane/gateway_pause.py: the pause and resume of one run's key and of
--                  all, with block_key and unblock_key of gateway/admin.py; the updates of a table with unique
--                  ids (Rows), the table of precedence (Refine), a request in the middle of a sweep (Races),
--                  calls that LiteLLM does not carry out (Holds)
--   Dispatcher     orchestrator/control_plane/harness_dispatcher.py: the admission of tasks, and of one job
--                  its launch (Launch) and the pass of the loop that takes it (Loop); over any passes the
--                  number of tasks (Capacity), over one its effects (Gates). Its class Autoscaler is Planner:
--                  the holds, the ceiling and the gate (the root, Pauses), the growth and recovery of budgets
--                  (Budgets), over any history (Ratchet)
--   Restart        orchestrator/control_plane/restart.py: the close of a run, the restart and the regrade of
--                  instances and their jobs; the attempts in the table (Fresh, Ledger), whether a request
--                  goes through (Total), restarts against closes (Closing)
--   RunLaunch      orchestrator/control_plane/run_launch.py: the acts of a launch and of a run's end, with
--                  the loop of dispatcher.py's dispatch_run and the end of an abort in abort.py (the root); the
--                  run's own row (Own, Ends), the pair as a mutex (Mutex), rows before jobs (Seeds), a launch
--                  that is not cut off (Whole), revoked and leaked keys (Keys), an abort within a launch (Races)
-- (paths below swebench_eval/). A definition has the name of the function, variable or key it stands for,
-- or names one step of it; the comment above says which where the name does not.
--
-- State. Redis is a record of the hashes and sets that the component uses; a read that raises is an absent
-- value, as every reader treats it so. A script of Redis is one function, since Redis runs it alone. A
-- table of the database is the list of its rows, and one statement is one function on it. A component that
-- keeps variables (the scaler, the supervisor) has a record of them, passed on from call to call. Another
-- system's answer (the queue's depth, the list of hosts, a batch's outcome, ListTasks, RunTask) is an
-- argument. A transaction that holds the run's row is one step. A sweep of
-- GatewayPause and a reconcile of Control hold nothing between their reads and writes: Refine takes a sweep
-- as one step among others, Races splits it, and a reconcile has a store for each of the two. A launch is
-- a list of acts, so that it can
-- be cut off between any two and acts of others can come between.
--
-- Numbers. Rates, budgets, prices and times are natural numbers in small units, each file says which:
-- quotients and products of Lua's and Python's floats are exact there, and the code's roundings up or down
-- are written out, the one of Lua's `tostring` too, which leaves 14 digits of what the pacer writes. Floats that
-- are only carried in a body are numbers of thousandths; those of a job
-- reference are fractions, which its text rounds. Tokens that may be negative are integers, and the budgets
-- of the planner fractions.
--
-- Fuel. The walk to the start of the kept tail has one unit for each message and ends before they are
-- spent (Compaction.Tail.Bounds). The search for the head of the queue has the sixteen rounds of the
-- script. A decimal has one more unit than its number. The search for a safe concurrency tries a smaller
-- one in each round, so as many units as the target are enough (Ceiling.Search). Every other loop
-- follows a list.
--
-- Not modelled: what only moves data (the clients of Redis, AWS and the database, the HTTP API, the
-- workers, the adapters of the command-line agents), logging and the texts of log lines, the judge, the
-- gateway's server, and, of the parts above: the pacer's polling loop and the seeds of its rates, the keys
-- of Redis, the reading of a trajectory file, the results writer's queues of model calls, of observations
-- and of dead letters, the timers of the supervisor and its recovery of open runs, the overrides and key
-- rotation of a launch, the planner's projection of demand and its curves
-- with the search of an alias's ceiling over them, the content of a probe, the
-- reads of a model's metadata, and the owners of files.
pub mod Prelude
pub mod Lifecycle
pub mod Control
pub mod Pacer
pub mod Compaction
pub mod Stuck
pub mod EvalScaler
pub mod Results
pub mod Reaper
pub mod Ceiling
pub mod Queue
pub mod Pricing
pub mod Routing
pub mod GatewayPause
pub mod Dispatcher
pub mod Restart
pub mod RunLaunch
