-- ===== src/Tests/Jobs.antt =====
-- The queue of storage jobs, with numbers for jobs.
use wgrd_mod_manager.Common.{ℕ, ◌≡◌, ◌≢◌, List, [], ◌∷◌, ◌++◌}
use wgrd_mod_manager.Storage.StorageJobQueue.{
  Worker, runs, ended, no_jobs, Call, enqueues, submits, stops, works, run,
}
use wgrd_mod_manager.Storage.StorageJobQueue.Order.{
  all_jobs, enqueued, run-all_jobs, turns, turns_left, drained, stopped, drain,
}

abbrev calls : List (Call ℕ)
calls = enqueues 4 ∷ enqueues 5 ∷ submits ∷ works ∷ enqueues 6 ∷ works ∷ stops ∷ []

run-all_jobs_example : all_jobs (run no_jobs calls) ≡ all_jobs no_jobs ++ enqueued calls
run-all_jobs_example = run-all_jobs no_jobs calls

abbrev in_work : Worker ℕ
in_work = runs 3

abbrev two_ready : List ℕ
two_ready = 4 ∷ 5 ∷ []

in_work-runs : in_work ≢ ended
in_work-runs e = cc

drain_example :
    turns (turns_left (stopped [] two_ready in_work [])) (stopped [] two_ready in_work [])
    ≡ drained (stopped [] two_ready in_work [])
drain_example = drain [] two_ready in_work [] in_work-runs
