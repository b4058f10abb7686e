-- ===== src/Storage/StorageJobQueue/Order.antt =====
-- Each job runs once, in the order of `Enqueue`, and `Stop` waits for all that are ready.
use wgrd_mod_manager.Storage.StorageJobQueue.{
  Worker, waits, runs, ended, StorageJobQueue, enqueue, move_all, submit, stop, turn, Call,
  enqueues, submits, stops, works, step, run,
}
use wgrd_mod_manager.Common.{
  ℕ, zero, suc, ◌≡◌, refl, sym, ap, ◌∙◌, ◌≢◌, inl, inr, true, List, [], ◌∷◌, ◌++◌, append-nil,
  append_assoc, ◌==◌, Bool-cases, length,
}

module _ {J : Type 0} where
  -- the job that is being run
  abbrev pub in_hand : Worker J → List J
  in_hand waits = []
  in_hand (runs job) = job ∷ []
  in_hand ended = []

  -- all jobs of a queue, the first enqueued first: run, being run, ready, and not yet submitted
  abbrev pub all_jobs : StorageJobQueue J → List J
  all_jobs q = q.ran ++ (in_hand q.worker ++ (q.ready ++ q.jobs))

  abbrev pub enqueued : List (Call J) → List J
  enqueued [] = []
  enqueued (enqueues job ∷ calls) = job ∷ enqueued calls
  enqueued (submits ∷ calls) = enqueued calls
  enqueued (stops ∷ calls) = enqueued calls
  enqueued (works ∷ calls) = enqueued calls

  move_all-append : (ready jobs : List J) → move_all ready jobs ≡ ready ++ jobs
  unfolding move_all
  move_all-append ready [] = sym (append-nil ready)
  move_all-append ready (job ∷ jobs) =
      move_all-append (ready ++ job ∷ []) jobs ∙ append_assoc ready (job ∷ []) jobs

  enqueue-all_jobs :
      (q : StorageJobQueue J) (job : J) → all_jobs (enqueue q job) ≡ all_jobs q ++ job ∷ []
  unfolding enqueue
  enqueue-all_jobs q job =
      ap (λ xs. q.ran ++ xs)
        (ap (λ xs. in_hand q.worker ++ xs) (sym (append_assoc q.ready q.jobs (job ∷ [])))
          ∙ sym (append_assoc (in_hand q.worker) (q.ready ++ q.jobs) (job ∷ [])))
      ∙ sym (append_assoc q.ran (in_hand q.worker ++ (q.ready ++ q.jobs)) (job ∷ []))

  submit-all_jobs : (q : StorageJobQueue J) → all_jobs (submit q) ≡ all_jobs q
  unfolding submit
  submit-all_jobs q = elim (Bool-cases (length q.jobs == 0)) [
    | inl h ↦ rw (h, submit) refl
    | inr h ↦
        rw (h, submit)
          (ap (λ xs. q.ran ++ (in_hand q.worker ++ xs))
            (append-nil (move_all q.ready q.jobs) ∙ move_all-append q.ready q.jobs))
  ]

  turn-all_jobs : (q : StorageJobQueue J) → all_jobs (step q works) ≡ all_jobs q
  unfolding step turn
  turn-all_jobs q = go q.worker refl q.ready refl
    where
      go :
          (w : Worker J)
          → q.worker ≡ w
          → (ready : List J) → q.ready ≡ ready
          → all_jobs (step q works) ≡ all_jobs q
      go ended e ready f = rw e refl
      go (runs job) e ready f = rw e (append_assoc q.ran (job ∷ []) (q.ready ++ q.jobs))
      go waits e [] f = elim (Bool-cases q.stopping) [
        | inl h ↦ rw e (rw f (rw h refl))
        | inr h ↦ rw e (rw f (rw h refl))
      ]
      go waits e (job ∷ ready) f = rw e (rw f refl)

  step-all_jobs :
      (q : StorageJobQueue J) (k : Call J) → all_jobs (step q k) ≡ all_jobs q ++ enqueued (k ∷ [])
  unfolding step stop
  step-all_jobs q (enqueues job) = enqueue-all_jobs q job
  step-all_jobs q submits = submit-all_jobs q ∙ sym (append-nil (all_jobs q))
  step-all_jobs q stops = sym (append-nil (all_jobs q))
  step-all_jobs q works = turn-all_jobs q ∙ sym (append-nil (all_jobs q))

  enqueued-cons :
      (k : Call J) (calls : List (Call J))
      → enqueued (k ∷ calls) ≡ enqueued (k ∷ []) ++ enqueued calls
  enqueued-cons (enqueues job) calls = refl
  enqueued-cons submits calls = refl
  enqueued-cons stops calls = refl
  enqueued-cons works calls = refl

  -- However callers and worker interleave, what was run, what is being run, what is ready and what
  -- waits to be submitted are together, in this order, the jobs that were enqueued: each job runs
  -- at most once, none is lost, and none overtakes another.
  pub run-all_jobs :
      (q : StorageJobQueue J) (calls : List (Call J))
      → all_jobs (run q calls) ≡ all_jobs q ++ enqueued calls
  unfolding run
  run-all_jobs q [] = sym (append-nil (all_jobs q))
  run-all_jobs q (k ∷ calls) =
      run-all_jobs (step q k) calls
      ∙ ap (λ xs. xs ++ enqueued calls) (step-all_jobs q k)
      ∙ append_assoc (all_jobs q) (enqueued (k ∷ [])) (enqueued calls)
      ∙ ap (λ xs. all_jobs q ++ xs) (sym (enqueued-cons k calls))

  -- so many turns of the worker
  abbrev pub turns : ℕ → StorageJobQueue J → StorageJobQueue J
  turns zero q = q
  turns (suc n) q = turns n (step q works)

  -- how many turns the worker has before it: two for a ready job, one for a job in hand, one to end
  abbrev turns_of : List J → ℕ
  turns_of [] = 1
  turns_of (job ∷ ready) = suc (suc (turns_of ready))

  abbrev pub turns_left : StorageJobQueue J → ℕ
  turns_left q = elim q.worker [ runs job ↦ suc (turns_of q.ready) | _ ↦ turns_of q.ready ]

  -- the queue when the worker has run what was in hand and what was ready, and has ended
  abbrev pub drained : StorageJobQueue J → StorageJobQueue J
  drained q = record q { ready = []; worker = ended; ran = q.ran ++ (in_hand q.worker ++ q.ready) }

  abbrev pub stopped : List J → List J → Worker J → List J → StorageJobQueue J
  stopped jobs ready worker ran = record {
    jobs = jobs;
    ready = ready;
    stopping = true;
    worker = worker;
    ran = ran;
  }

  drain_waiting :
      (jobs ready ran : List J)
      → turns (turns_of ready) (stopped jobs ready waits ran) ≡ stopped jobs [] ended (ran ++ ready)
  unfolding step turn
  drain_waiting jobs [] ran = ap (stopped jobs [] ended) (sym (append-nil ran))
  drain_waiting jobs (job ∷ ready) ran =
      drain_waiting jobs ready (ran ++ job ∷ [])
      ∙ ap (stopped jobs [] ended) (append_assoc ran (job ∷ []) ready)

  -- Once the queue is stopping, a worker that has not ended comes to its end, within two turns for
  -- each ready job and two more; it has then run, in order, the job in hand and all that were ready.
  pub drain :
      (jobs ready : List J) (worker : Worker J) (ran : List J)
      → worker ≢ ended
      → turns (turns_left (stopped jobs ready worker ran)) (stopped jobs ready worker ran)
        ≡ drained (stopped jobs ready worker ran)
  unfolding step turn
  drain jobs ready waits ran h = drain_waiting jobs ready ran
  drain jobs ready (runs job) ran h =
      drain_waiting jobs ready (ran ++ job ∷ [])
      ∙ ap (stopped jobs [] ended) (append_assoc ran (job ∷ []) ready)
  drain jobs ready ended ran h = absurd (h refl)
