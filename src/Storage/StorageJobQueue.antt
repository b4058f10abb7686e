-- ===== src/Storage/StorageJobQueue.antt =====
-- src/downloader/storage/StorageJobQueue: jobs that wait to be submitted, jobs that are ready, and one
-- worker that runs these. The callers and the worker interleave; each holds the lock for what is one
-- step here, and a job runs outside of it. What was run so far is kept in order.
pub mod Order
use wgrd_mod_manager.Common.{
  Bool, true, false, Option, none, some, List, [], ◌∷◌, ◌++◌, ◌==◌, if◌then◌else◌, length,
}

pub data Worker (J : Type 0) : Type 0 where
  waits : Worker J
  runs : J → Worker J
  ended : Worker J

pub record StorageJobQueue (J : Type 0) : Type 0 where
  pub jobs : List J
  pub ready : List J
  pub stopping : Bool
  pub worker : Worker J
  pub ran : List J

module _ {J : Type 0} where
  abbrev pub no_jobs : StorageJobQueue J
  no_jobs = record { jobs = []; ready = []; stopping = false; worker = waits; ran = [] }

  unfoldable pub enqueue : StorageJobQueue J → J → StorageJobQueue J
  enqueue q job = record q { jobs = q.jobs ++ job ∷ [] }

  -- the loop of `Submit`
  unfoldable pub move_all : List J → List J → List J
  move_all ready [] = ready
  move_all ready (job ∷ jobs) = move_all (ready ++ job ∷ []) jobs

  unfoldable pub submit : StorageJobQueue J → StorageJobQueue J
  submit q =
      if length q.jobs == 0 then q else record q { jobs = []; ready = move_all q.ready q.jobs }

  -- `Stop` up to the join, which waits for the worker's end
  unfoldable pub stop : StorageJobQueue J → StorageJobQueue J
  stop q = record q { stopping = true }

  -- What the worker does next in `RunWorker_`, if it does not wait for the signal: it takes a job,
  -- or finishes the one it runs, or ends.
  unfoldable pub turn : StorageJobQueue J → Option (StorageJobQueue J)
  turn q = elim q.worker [
    | ended ↦ none
    | runs job ↦ some (record q { worker = waits; ran = q.ran ++ job ∷ [] })
    | waits ↦ elim q.ready [
      | [] ↦ if q.stopping then some (record q { worker = ended }) else none
      | job ∷ ready ↦ some (record q { worker = runs job; ready = ready })
    ]
  ]

-- One step of the callers or of the worker.
pub data Call (J : Type 0) : Type 0 where
  enqueues : J → Call J
  submits : Call J
  stops : Call J
  works : Call J

module _ {J : Type 0} where
  unfoldable pub step : StorageJobQueue J → Call J → StorageJobQueue J
  step q (enqueues job) = enqueue q job
  step q submits = submit q
  step q stops = stop q
  step q works = elim (turn q) [ none ↦ q | some next ↦ next ]

  -- any interleaving
  unfoldable pub run : StorageJobQueue J → List (Call J) → StorageJobQueue J
  run q [] = q
  run q (k ∷ calls) = run (step q k) calls
