-- ===== src/Lib.antt =====
-- A model of the dispatcher of the judge: how a submission is taken in, prepared, queued, run case
-- by case, scored, reported to the backend and forgotten.
--
-- The program's parts and how they interact. app.py (not modelled) calls Dispatcher.handle for a
-- new submission. handle registers it and queues a static analysis. The thread of Dispatcher.run
-- takes the jobs off the queue one by one: the static analysis leads to the set-up of the network,
-- which releases the pending jobs, and these start a thread for a build, a compilation or a case.
-- The thread of a case runs the sandbox and the checker and calls on_case_complete; the last case
-- calls on_submission_complete, which regroups the results, runs the scorer, sends the report and
-- releases the submission. A failure on the way fills in results for all cases and completes the
-- submission.
--
-- Which file models which part:
--   Base and its children      shared names, lists, integers and texts (code points) on the native numbers
--   Dict, Dict/Laws            Python's dict (in order of insertion) and set of ids
--   CaseNo                     dispatcher/dispatcher.py: the format of case numbers and its reading
--   Json                       JSON values, as far as the program looks into them
--   Meta                       dispatcher/meta.py and dispatcher/constant.py
--   Results, Results/AllCases  dispatcher/result_factory.py
--   Errors                     dispatcher/exception.py, and computations that may raise
--   Grouping                   dispatcher/dispatcher.py, on_submission_complete: the nested dict of results
--   Scorer                     dispatcher/custom_scorer.py: run_custom_scorer, _parse_scorer_output
--   Scoring                    dispatcher/dispatcher.py: _build_scoring_tasks, _build_scoring_stats and others
--   Output, Runner             runner/submission.py: strip, compile, run, build_with_make
--   Checker                    dispatcher/custom_checker.py: run_custom_checker_case, _parse_checker_output
--   Rules                      dispatcher/static_analysis.py: _check_items, get_violations
--   Analysis/Ast, Definitions, Python and Kinds, Cpp
--                              the same file: the visitors of Python trees and of libclang's cursors
--   Analysis/Cycles            the same file: detect_cycles
--   Analysis/Report, Sources, Analyzer, Run
--                              the same file: the results, the choice of files, run_static_analysis
--   Artifacts, Artifacts/Upload
--                              dispatcher/artifact_collector.py
--   Building, Building/Interactive
--                              dispatcher/build_strategy.py
--   Interactive, Interactive/Numbers, Configuration
--                              runner/interactive_orchestrator.py
--   Network, Network/Topology, Provision
--                              dispatcher/network_control.py
--   Dispatcher/State           dispatcher/job.py and the tables of Dispatcher.__init__, as one record
--   Dispatcher/Scorer          _run_custom_scorer_if_needed
--   Dispatcher/Complete        on_submission_complete and release
--   Dispatcher/Failures        _handle_sa_failure, _mark_submission_failed, _handle_network_failure,
--                              _handle_build_failure, on_case_complete
--   Dispatcher/Prepare         _prepare_custom_checker, _prepare_custom_scorer, the resource data
--   Dispatcher/Handle          handle
--   Dispatcher/Loop            one round of run
--   Dispatcher/Threads         compile, build, extract_compile_result
--   Dispatcher/Container       create_container as one step
--   Dispatcher/Phases          create_container in two steps, before and behind its container
--   Dispatcher/System          requests, rounds and threads in any order, as a step relation
--   Tests                      runs on concrete inputs
-- The children of a module hold its proofs and are named for what they prove.
--
-- State and operations. A method of Dispatcher is a function from a State to its outcome and the
-- next State; an exception is the outcome `raise`, with the state as it was left. Where a method
-- calls code outside the model (the file system, containers, HTTP) or beside it (the static
-- analysis, the build strategies, the network controller), the outcome of that call is a field of
-- the environment record that the method takes: Env, HandleEnv, LoopEnv, BuildEnv, CaseEnv. What is
-- sent or asked of other parts is recorded in the fields `reports`, `effects` and `threads` of the
-- state. A lock is a flag that says whether it is held; each method is one step, but in
-- Dispatcher/System a case has two, and other threads run while its container does.
--
-- The static analysis, the collector of artifacts, the build strategies, the orchestrator of
-- interactive runs and the network controller stand beside the dispatcher. A tree of ast, a cursor
-- of libclang, a directory, the bytes of an archive, the replies of the backend and of Docker and
-- the files that a process leaves are data that they take; the calls of Docker's client are a log.
-- The result of run_static_analysis is put into the dispatcher's terms by Analysis.Run.analysis_of,
-- and what finalize comes to by Building.finalize_outcome.
--
-- Bounds and fuel. Loops are structural recursion on the list or the count they run over. The
-- digits of a number n are taken with the fuel n + 1, which suffices since a division by ten makes
-- a positive number smaller; CaseNo/Digits shows it. Integers of the program are ℤ where they may
-- be negative and ℕ where they count; neither wraps, as in Python. A time is a number of
-- microseconds. An average stays a sum and a count, since floats are not modelled. The search for
-- cycles has the number of names in the graph as fuel for its depth; each step down marks a name,
-- and the theorem on detect_cycles shows that the fuel is enough.
--
-- Not modelled: the interleaving of the threads inside the other methods; when the threads collect
-- and send artifacts (their failures are caught and logged, and they change no table of the
-- dispatcher); of the static analysis the calls of the compiler for include paths
-- (detect_include_args), the text of json.dumps and the depth limit of the Python interpreter; of
-- an interactive run the permissions, the pipes and the processes; of the network controller the
-- builds of images and the polling of containers; broken archives; resource data, test data, the
-- caller of the orchestrator (interactive_runner.py), the pipeline and the web application. Where
-- the dispatcher calls one of them, its outcome is a parameter.
pub mod Base
pub mod Dict
pub mod CaseNo
pub mod Json
pub mod Meta
pub mod Results
pub mod Errors
pub mod Grouping
pub mod Scorer
pub mod Scoring
pub mod Output
pub mod Runner
pub mod Rules
pub mod Checker
pub mod Dispatcher
pub mod Analysis
pub mod Artifacts
pub mod Building
pub mod Interactive
pub mod Network
pub mod Tests
