-- ===== src/TaskQueue2/Retry.antt =====
-- A task stays at the head of the queue until it is processed successfully
-- (include/TaskQueue2.h).
use shapeware.Base.{
  ◌≡◌, ◌≢◌, refl, sym, ap, subst, ◌∙◌, Bool, true, false, List, [], ◌∷◌, ◌++◌, some, append_assoc,
  append-nil, arith,
}
use shapeware.TaskQueue2.{
  Worker, testing, waiting, processing, finishing, exited, undefined, TaskQueue2, init,
  push_to_queue, stop_queue, worker_at, worker_step, run_worker, Step, pushes, stops, works, Reach,
  here, next,
}

module _ {ℓ} {T : Type ℓ} where
  -- The tasks for which the processing function returned true, oldest first.
  abbrev pub successes : List (T × Bool) → List T
  successes [] = []
  successes ((t, true) ∷ xs) = t ∷ successes xs
  successes ((t, false) ∷ xs) = successes xs

  successes-append : (xs bs : List (T × Bool)) → successes (xs ++ bs) ≡ successes xs ++ successes bs
  successes-append [] bs = refl
  successes-append ((t, true) ∷ xs) bs = ap (λ l. t ∷ l) (successes-append xs bs)
  successes-append ((t, false) ∷ xs) bs = successes-append xs bs

  -- The tasks that are still to be processed; `finishing true` has yet to remove the head.
  abbrev pub pending : Worker T → List T → List T
  pending (finishing true) (t ∷ ts) = ts
  pending _ ts = ts

  -- The worker's own task is the head of the queue.
  abbrev pub HoldsHead : Worker T → List T → Type ℓ
  HoldsHead (processing t) ts = (r : List T) × (ts ≡ t ∷ r)
  HoldsHead (finishing processed) ts = (t : T) × (r : List T) × (ts ≡ t ∷ r)
  HoldsHead undefined ts = (t : T) × (r : List T) × ([] ≡ t ∷ r)
  HoldsHead _ ts = Unit

  pub record Inv (q : TaskQueue2 T) : Type ℓ where
    pub in_order : q.accepted ≡ successes q.attempts ++ pending q.worker q.tasks
    pub holds : HoldsHead q.worker q.tasks

  pending-append :
      (w : Worker T) (ts us : List T)
      → HoldsHead w ts
      → (pending w (ts ++ us) ≡ pending w ts ++ us) × HoldsHead w (ts ++ us)
  pending-append testing ts us h = (refl, tt)
  pending-append waiting ts us h = (refl, tt)
  pending-append (processing t) ts us (r, e) = (refl, (r ++ us, ap (λ l. l ++ us) e))
  pending-append (finishing true) [] us (t, r, e) = cc
  pending-append (finishing true) (x ∷ ts) us (t, r, e) = (refl, (x, ts ++ us, refl))
  pending-append (finishing false) ts us (t, r, e) = (refl, (t, r ++ us, ap (λ l. l ++ us) e))
  pending-append exited ts us h = (refl, tt)
  pending-append undefined ts us (t, r, e) = (refl, (t, r, e))

  push-Inv : (t : T) (q : TaskQueue2 T) → Inv q → Inv (push_to_queue t q).0
  unfolding push_to_queue
  push-Inv t q v =
      let (grown, holds') = pending-append q.worker q.tasks (t ∷ []) v.holds in
      record {
        in_order =
            ap (λ l. l ++ t ∷ []) v.in_order
            ∙ append_assoc (successes q.attempts) (pending q.worker q.tasks) (t ∷ [])
            ∙ ap (λ l. successes q.attempts ++ l) (sym grown);
        holds = holds';
      }

  init-Inv : Inv (init {T = T})
  unfolding init
  init-Inv = record { in_order = refl; holds = tt }

  -- The worker's view of the invariant, with its place and the queue as variables.
  abbrev Holds : Worker T → List T → List T → List (T × Bool) → Type ℓ
  Holds w ts accepted attempts = (accepted ≡ successes attempts ++ pending w ts) × HoldsHead w ts

  Inv-intro : {q : TaskQueue2 T} → Holds q.worker q.tasks q.accepted q.attempts → Inv q
  Inv-intro (e, h) = record { in_order = e; holds = h }

  worker_at-Inv :
      (w : Worker T) (result : Bool) (q : TaskQueue2 T) {q' : TaskQueue2 T}
      → Holds w q.tasks q.accepted q.attempts
      → worker_at w result q ≡ some q'
      → Inv q'
  unfolding worker_at
  worker_at-Inv testing result q h s = ground (arith, h)
  worker_at-Inv waiting result q {q' = q'} h s = from_wake q.tasks refl
    where
      from_wake : (ts : List T) → q.tasks ≡ ts → Inv q'
      from_wake [] e = ground (arith, h)
      from_wake (t ∷ ts) e = ground (arith, h)
  worker_at-Inv (processing t) true q (e, (r, p)) s = ground (
    arith,
    successes-append q.attempts ((t, true) ∷ []),
    append_assoc (successes q.attempts) (t ∷ []) r,
  )
  worker_at-Inv (processing t) false q (e, (r, p)) s =
      ground
        (arith, successes-append q.attempts ((t, false) ∷ []), append-nil (successes q.attempts))
  worker_at-Inv (finishing true) result q (e, (t, r, p)) s = ground arith
  worker_at-Inv (finishing false) result q h s = ground (arith, h)
  worker_at-Inv exited result q h s = cc
  worker_at-Inv undefined result q h s = cc

  worker_step-Inv :
      {q q' : TaskQueue2 T} (result : Bool) → Inv q → worker_step result q ≡ some q' → Inv q'
  unfolding worker_step
  worker_step-Inv {q} result v s = worker_at-Inv q.worker result q (v.in_order, v.holds) s

  Step-Inv : {q q' : TaskQueue2 T} → Step q q' → Inv q → Inv q'
  unfolding stop_queue
  Step-Inv {q} (pushes t) v = push-Inv t q v
  Step-Inv {q} stops v = Inv-intro {q = stop_queue q} (v.in_order, v.holds)
  Step-Inv {q} (works result s) v = worker_step-Inv result v s

  pub Reach-Inv : {q : TaskQueue2 T} → Reach init q → Inv q
  Reach-Inv here = init-Inv
  Reach-Inv (next r st) = Step-Inv st (Reach-Inv r)

  HoldsHead-defined : (w : Worker T) (ts : List T) → HoldsHead w ts → w ≢ undefined
  HoldsHead-defined w ts h e = let (t, r, p) = subst (λ w'. HoldsHead w' ts) e h in cc

  held_task :
      {q : TaskQueue2 T} {t : T}
      → Inv q
      → q.worker ≡ processing t
      → (r : List T) × (q.tasks ≡ t ∷ r)
  held_task {q} v w = subst (λ w'. HoldsHead w' q.tasks) w v.holds

  -- In every state that the threads can reach from a new queue, nobody calling `pop`, the tasks
  -- accepted by `pushToQueue` are, in that order, those processed successfully and those still to
  -- be processed; a worker that processes or has processed a task holds the head of the queue; and
  -- no task is removed from an empty queue.
  pub retry_in_order :
      {q : TaskQueue2 T}
      → Reach init q
      → (q.accepted ≡ successes q.attempts ++ pending q.worker q.tasks)
        × HoldsHead q.worker q.tasks
        × (q.worker ≢ undefined)
  retry_in_order {q} r =
      let v = Reach-Inv r in (v.in_order, v.holds, HoldsHead-defined q.worker q.tasks v.holds)

  -- From every state that the threads can reach from a new queue, nobody calling `pop`, in which
  -- the worker is about to process a task and the queue is not stopped: when the processing
  -- function fails, the worker, with no other thread acting, comes after four steps to process the
  -- same task again, the queue unchanged.
  failed_task_again :
      {q : TaskQueue2 T} {t : T} (a b c : Bool)
      → Reach init q
      → q.worker ≡ processing t
      → q.run_worker_thread ≡ true
      → ((run_worker (false ∷ a ∷ b ∷ c ∷ []) q).worker ≡ processing t)
        × ((run_worker (false ∷ a ∷ b ∷ c ∷ []) q).tasks ≡ q.tasks)
        × ((run_worker (false ∷ a ∷ b ∷ c ∷ []) q).attempts ≡ q.attempts ++ (t, false) ∷ [])
  unfolding run_worker worker_step
  failed_task_again {q} {t} a b c r w run =
      let (rest, held) = held_task (Reach-Inv r) w in ground arith
