-- ===== src/Tasks/Fair.antt =====
-- The order in which `run_ready_tasks` comes to the tasks in its queue (kernel/src/task/executor.rs).
use zulu_os.Base.{
  ℕ, suc, ◌+◌, ◌≤◌, ◌≡◌, ◌≢◌, refl, sym, ◌∙◌, ap, List, [], ◌∷◌, ◌++◌, Option, none, some, arith,
  ◌==◌, if◌then◌else◌, length, inl, inr, Option-cases,
}
use mathlib.Core.List.{append_assoc, append-nil}
use zulu_os.Tasks.Maps.{lookup}
use zulu_os.Tasks.Queue.{ArrayQueue}
use zulu_os.Tasks.{Polled, Task, Executor, run_ready_tasks}
use zulu_os.Tasks.Consistent.{IsConsistent}
use zulu_os.Tasks.Ends.{
  run_popped_polls, run_popped_stale, settle-total, live_round, Pays, potential,
}

some_injective : {A : Type 0} (a b : A) → some a ≡ some b → a ≡ b
some_injective a b e = ap (λ o. elim o [ none ↦ a | some x ↦ x ]) e

-- Where the id is not.
abbrev pub Absent : ℕ → List ℕ → Type 0
Absent id [] = Unit {0}
Absent id (x ∷ xs) = (x ≢ id) × Absent id xs

module _ (A : ArrayQueue) (F : Type 0) (poll : F → ℕ → Polled F) (cost : F → ℕ) where
  open A use {Q, pop, items, capacity}

  -- What the poll of a task leaves of it.
  abbrev pub polled : ℕ → Task F → Option (Task F)
  polled id task =
      if (poll task.future id).ready
      then none
      else some (record task { future = (poll task.future id).future })

  -- One round of the loop, from the first id of the queue on.
  record Round (e : Executor A F poll) (id : ℕ) (rest : List ℕ) (e' : Executor A F poll)
      : Type 0 where
    continues :
        (fuel : ℕ) → run_ready_tasks A F poll (suc fuel) e ≡ run_ready_tasks A F poll fuel e'
    consistent : IsConsistent A F poll e'
    still_room : potential A F poll cost e' ≤ capacity e'.task_queue
    woken : List ℕ
    queued : items e'.task_queue ≡ rest ++ woken
    others : (j : ℕ) → id ≢ j → lookup j e'.tasks ≡ lookup j e.tasks
    own : (task : Task F) → lookup id e.tasks ≡ some task → lookup id e'.tasks ≡ polled id task

  own_case : (x y : Option (Task F)) (id : ℕ) → (if id == id then x else y) ≡ x
  own_case x y id = ground arith

  continue_at :
      {k : ℕ} (e : Executor A F poll) (fuel : ℕ)
      → k ≡ fuel
      → run_ready_tasks A F poll (suc k) e ≡ run_ready_tasks A F poll (suc fuel) e
  continue_at e fuel same = ap (λ n. run_ready_tasks A F poll (suc n) e) same

  round_lem :
      (e : Executor A F poll) (id : ℕ) (rest : List ℕ)
      → Pays A F poll cost
      → IsConsistent A F poll e
      → potential A F poll cost e ≤ capacity e.task_queue
      → items e.task_queue ≡ id ∷ rest
      → (e' : Executor A F poll) × Round e id rest e'
  unfolding run_ready_tasks
  round_lem e id rest pays ok room first =
      let (q, eq, iq, cq) = A.pop_first e.task_queue id rest first in
      let e1 : Executor A F poll = record e { task_queue = q } in
      let ok1 : IsConsistent A F poll e1 = record {
        keys = ok.keys;
        wakers = ok.wakers;
        cached = ok.cached;
      } in
      let less : potential A F poll cost e1 + 1 ≡ potential A F poll cost e =
        omega (arith, ap length iq, ap length first) in
      elim (Option-cases (lookup id e.tasks)) [
        | inl gone ↦ (
          e1,
          record {
            continues = λ fuel. rw (eq, run_ready_tasks, run_popped_stale A F poll e1 id gone) refl;
            consistent = ok1;
            still_room = omega (arith, cq);
            woken = [];
            queued = iq ∙ sym (append-nil rest);
            others = λ j ne. refl;
            own = λ task live. absurd (ground arith);
          },
        )
        | inr (task, live) ↦
            let (e2, er, ok2, lower, cap2, low2) =
              live_round A F poll cost e1 id task pays ok1 live (omega (arith, cq)) in
            let (e3, er3, ok3, ls, i3) = run_popped_polls A F poll e1 id task ok1 live (
              omega (
                arith,
                cq,
                settle-total A F poll cost e1 id task (poll task.future id) [] q live
                    (pays task.future id),
              )) in
            let same : e3 ≡ e2 = some_injective e3 e2 (sym er3 ∙ er) in
            (
              e2,
              record {
                continues = λ fuel. rw (eq, run_ready_tasks, er) refl;
                consistent = ok2;
                still_room = omega (arith, cq, cap2);
                woken = (poll task.future id).woken;
                queued =
                    ap (λ x. items x.task_queue) (sym same)
                    ∙ i3
                    ∙ ap (λ l. l ++ (poll task.future id).woken) iq;
                others = λ j ne. ap (λ x. lookup j x.tasks) (sym same) ∙ ls j ∙ ground arith;
                own = λ task' live'.
                    ap (λ x. lookup id x.tasks) (sym same)
                    ∙ ls id
                    ∙ own_case (polled id task) (lookup id e.tasks) id
                    ∙ ap (polled id) (some_injective task task' (sym live ∙ live'));
              },
            )
      ]

  -- Where every poll pays for the tasks that it wakes, and the queue has room for the whole
  -- potential, a live task that waits in the queue behind others, and is not among them, is
  -- polled as soon as the loop has come to each of these once: after that many rounds and one
  -- more it is gone, or kept as the poll left it.
  pub waiting_polled :
      (before after : List ℕ) (e : Executor A F poll) (id : ℕ) (task : Task F)
      → Pays A F poll cost
      → IsConsistent A F poll e
      → potential A F poll cost e ≤ capacity e.task_queue
      → items e.task_queue ≡ before ++ id ∷ after
      → Absent id before
      → lookup id e.tasks ≡ some task
      → (e' : Executor A F poll) × ((fuel : ℕ)
          → run_ready_tasks A F poll (suc (length before + fuel)) e
            ≡ run_ready_tasks A F poll fuel e')
        × (lookup id e'.tasks ≡ polled id task)
  waiting_polled [] after e id task pays ok room here away live =
      let (e1, r) = round_lem e id after pays ok room here in
      (e1, λ fuel. continue_at e fuel (omega arith) ∙ r.continues fuel, r.own task live)
  waiting_polled (x ∷ before) after e id task pays ok room here away live =
      let (e1, r) = round_lem e x (before ++ id ∷ after) pays ok room here in
      let (e2, go, end) =
        waiting_polled before (after ++ r.woken) e1 id task pays r.consistent r.still_room
          (r.queued ∙ append_assoc before (id ∷ after) r.woken) away.1
          (r.others id away.0 ∙ live) in
      (
        e2,
        λ fuel.
            continue_at e (suc (length before + fuel)) (omega arith)
            ∙ r.continues (suc (length before + fuel))
            ∙ go fuel,
        end,
      )
