-- ===== src/Lib.antt =====
-- The coordination core of dcNess: how implementation tasks are planned into waves, claimed by
-- independent sessions and merged in order, and how a session records its runs and shows their
-- progress.
--
-- Waves (harness/parallel_wave.py). `Waves.Tasks` holds ImplTask, WaveStep and WavePlan with their
-- properties; a frozenset is the list of its elements, and `==` of the frozen dataclass is
-- `task_beq`. `Waves.Scopes` holds the conflicts of file paths and the translation of globs; texts
-- are lists of code points there, and Python's `re` is the parameter `Regex`. `Waves.Planner` holds
-- compute_waves: `frontier_step` is one turn of its `while remaining` loop, `collect` the inner
-- loop over the candidates, and `rounds` the loop on fuel, one turn for each task, which is enough
-- since every turn removes a task. A limit of workers below 1 counts as 1; a negative one is 0 in
-- the model.
-- `Waves.Header` reads a task file's frontmatter, `Waves.Section` its scope section and the whole
-- task (parse_impl_task), and `Waves.Repair` is normalize_scope_text; the regular expressions of the
-- parsers are written out as functions on texts, their backtracking included. `Base.Python` has the
-- operations on texts that the parsers use, with Unicode's white space and ends of lines.
--
-- Board (harness/wave_board.py). `Board.Records` holds the JSON files as records: a directory is a
-- dictionary by file name without its extension, a file that is not valid JSON is `none`, a moment
-- is a number of clock ticks. The platform (resolution of paths, the digest, the process's number)
-- is the parameter `Platform`. `Board.Operations` has a function for each method of WaveBoard that
-- changes the board, from a board to the board that is left and a result or what is raised.
-- `Board.Machine` has an abstract machine of claims and the relation `Step`, one call of a method by
-- any session. `reset`, which removes the board's directory with all claims, is no `Step`: what is
-- stated of steps holds until it is called. `Board.Status` has what the board lists and the claim
-- of a branch; status_text, which prints, is left out.
--
-- Routing (harness/agent_routing.py). `Routing.Config` holds the routing file and what reading and
-- writing it raises: the JSON object is `Payload`, whose tables hold texts. `Routing.Providers` holds
-- the choice of a provider; whether the command codex is on the path is a parameter. `Routing.Stored`
-- has the theorems on files that set_provider wrote. `updated_at` is left out of the file.
--
-- Runner (harness/story_runner.py). `Runner.Tasks` holds the state of a run and mark_task, where a
-- change of the task object that find_task returns is a change of the list (`update_task`).
-- `Runner.Actions` holds next_action and seal_story; its loops over the tasks are `first_task` and
-- `first_pending`, which keeps the task before the pending one in place of its index. What git says
-- is the parameter `Worktree`. Moments (`updated_at`, `sealed_at`) are left out.
--
-- `Runner.Plan` has the making of a run's state: build_state on the tasks of the files that
-- discover_tasks found, with the checks of contiguous stories and of the order of dependencies.
-- `Runner.Init` is prepare_init_state on a disk of a state file, its archives and the caches of
-- failures; an archive's name is the moment and the number behind it, and the 999 rounds of its loop
-- are the code's.
--
-- Lock (harness/merge_lock.py, and the decisions of harness/guard_core.py). `Lock.Mutex` has the
-- operations of MergeLock; `Lock.History` runs a sequence of calls and records what they gave and
-- took. Each call is one atomic step there. The code holds nothing while `release` and `break_stale`
-- read the lock file, check it, write the archive and unlink it, so calls that overlap within these
-- are not covered: two break_stale that have both read a stale record, with an acquire between their
-- unlinks, remove a fresh lock. `Lock.Frontmatter` reads a task file, `Lock.Order` is check_merge_order, and `Lock.Guard` is
-- acquire_peer_merge_guard, which asks the board for the branch's claim, then the order, then the
-- lock. The files, the decimal digits of Unicode, git, the process's number and the fresh token are
-- parameters; the text of a reason is the data type `Reason`.
--
-- Cache (harness/provider_failure_cache.py). `Cache.Records` holds the JSON files by the fields that
-- the code reads, each with what Python's `==` and `isinstance` see of it. `Cache.Failures` has the
-- receipts of failures, `Cache.Scope` the chain that a state names, and `Cache.Store` the operations
-- on the cache; what is done under the file lock is one step. The resolution of paths, the state
-- files and `str.lower` are parameters. A category that is a list or an object is not modelled.
--
-- Chain (harness/chain_view.py). `Chain` has the sub-steps of a task, the views and the operations
-- that redraw them, `Chain.Build` is build_chain_view and `Chain.Input` is parse_tasks on the values
-- of a JSON object. A line of the view and an operation are data types, a header's text is its
-- number and name. `Chain.Rows` is a task list that the operations draw on: a flat list, to whose
-- end rows are added. `strip` and `lower` are parameters; a negative `prev` is not modelled.
--
-- Session (harness/session_state.py, harness/ledger.py and harness/agent_names.py).
-- `Session.Transition` is transition, the one writer of a session's live.json and of the ledgers of
-- its runs; what is done under the session's lock is one step. `Session.Runs` and
-- `Session.Lifecycle` are _apply_run_transition, `Session.Steps` is _apply_step_transition,
-- `Session.Pending` and `Session.Runtime` are _apply_runtime_transition. An `Effect` is what such a
-- function returns, the runs that it writes and the records that it appends. A moment is a number of
-- seconds, a file is malformed or holds its document, and a record has the fields that are read
-- again. The digest, the check of a receipt's prose, the check of a design document's path and the
-- reader of a prose's conclusion are the parameter `Files`; the warning of a stale step is printed.
-- `Session.Reach` has the histories of a session: any transitions at any moments. `Session.Gate` is
-- evaluate_order_gate_for_step, with the prose files of a run in `Session.Prose`: `RunFiles` is the
-- content of the run's directory and of the files that receipts and slots name.
--
-- Not modelled: the commands' argument parsing and printing, the writing of files byte by byte (a
-- write is atomic), and the other parts that PROJECT.json lists.
pub mod Base
pub mod Waves
pub mod Board
pub mod Routing
pub mod Runner
pub mod Lock
pub mod Cache
pub mod Chain
pub mod Session
