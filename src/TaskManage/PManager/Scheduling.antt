-- ===== src/TaskManage/PManager/Scheduling.antt =====
-- Which process `find_next` picks: the first in the ready queue that still has a task.
use mathlib.Core.Path.{fun_ext}
use spec_to_rust_os.Prelude.{
  ℕ, zero, suc, ◌+◌, ◌<◌, ◌≡◌, ◌∙◌, refl, Option, none, some, List, [], ◌∷◌, ◌++◌, length,
  length-append, Option-cases, inl, inr, arith,
}
use spec_to_rust_os.Prelude.Panic.{returned, ◌>>=◌}
use spec_to_rust_os.TaskManage.Interface.{Manage, Schedule, IsQueue}
use spec_to_rust_os.TaskManage.PManager.{
  PManager, find_loop, find_next, make_current_suspend, id_of,
}

-- The first identifier of a queue that has a task, with the task, and what stands behind it.
unfoldable pub first_live : {T : Type 0} → (ℕ → Option T) → List ℕ → Option (ℕ × T)
first_live get [] = none
first_live get (i ∷ is) = elim (get i) [ some t ↦ some (i, t) | none ↦ first_live get is ]

unfoldable pub behind : {T : Type 0} → (ℕ → Option T) → List ℕ → List ℕ
behind get [] = []
behind get (i ∷ is) = elim (get i) [ some t ↦ is | none ↦ behind get is ]

module _ {M T : Type 0} (store : Manage M T) (queue : Schedule M) (q : IsQueue store queue) where
  abbrev get : M → ℕ → Option T
  get m i = store.get_mut i m

  pub record Found (get_before : ℕ → Option T) (l : List ℕ) (r : Option (Option (ℕ × T) × M))
      : Type 0 where
    pub left : M
    pub result : r ≡ some (first_live get_before l, left)
    pub queue_left : q.ready left ≡ behind get_before l
    pub kept : (j : ℕ) → store.get_mut j left ≡ get_before j

  find_loop-Found :
      (fuel : ℕ) (g : ℕ → Option T) (l : List ℕ) (m : M)
      → ((j : ℕ) → store.get_mut j m ≡ g j)
      → q.ready m ≡ l
      → length l < fuel
      → Found g l (find_loop store queue fuel m)
  unfolding find_loop first_live behind
  find_loop-Found zero g l m same e h = absurd (omega arith)
  find_loop-Found (suc fuel) g [] m same e h = record {
    left = (queue.fetch m).1;
    result = let f : (queue.fetch m).0 ≡ none = q.fetch-front m ∙ rw e in rw (f, find_loop);
    queue_left = q.ready-fetch m ∙ rw e;
    kept = λ j. q.get-fetch j m ∙ same j;
  }
  find_loop-Found (suc fuel) g (i ∷ is) m same e h = elim (Option-cases (g i)) [
    | inl stale ↦
        (let rest = find_loop-Found fuel g is m' left queue_left (omega arith) in
          record {
            left = rest.left;
            result =
                rw (f, find_loop)
                  (rw (left i ∙ stale, find_loop) (rw (stale, first_live) rest.result));
            queue_left = rw (stale, behind) rest.queue_left;
            kept = rest.kept;
          })
    | inr (task, live) ↦ record {
      left = m';
      result = rw (f, find_loop) (rw (left i ∙ live, find_loop) (rw (live, first_live)));
      queue_left = rw (live, behind) queue_left;
      kept = left;
    }
  ]
    where
      m' : M
      m' = (queue.fetch m).1

      f : (queue.fetch m).0 ≡ some i
      f = q.fetch-front m ∙ rw e

      left : (j : ℕ) → store.get_mut j m' ≡ g j
      left j = q.get-fetch j m ∙ same j

      queue_left : q.ready m' ≡ is
      queue_left = q.ready-fetch m ∙ rw e

  -- With fuel for the whole ready queue, `find_next` ends without a panic: it returns the first
  -- process in the queue that still has a task and makes it the current one, or returns nothing and
  -- clears the current process if there is none. It drops the identifiers before it, keeps those
  -- behind it in order, and changes no task.
  pub find_next_lem :
      (fuel : ℕ) (p : PManager M) (m : M)
      → p.manager ≡ some m
      → length (q.ready m) < fuel
      → let found = first_live (get m) (q.ready m) in
        (m' : M) × (find_next store queue fuel p
          ≡ returned
              (some (found, record p { manager = some m'; current = id_of store queue found })))
        × (q.ready m' ≡ behind (get m) (q.ready m))
        × ((j : ℕ) → store.get_mut j m' ≡ store.get_mut j m)
  unfolding find_next
  find_next_lem fuel p m has enough =
      let r = find_loop-Found fuel (get m) (q.ready m) m (λ j. refl) refl enough in
      (r.left, rw has (rw (r.result, find_next)), r.queue_left, r.kept)

  -- Round robin: after `make_current_suspend` the process that ran stands at the end of the queue, so
  -- `find_next` picks it again only if no other process in the queue has a task.
  pub find_next-make_current_suspend :
      (fuel i : ℕ) (p : PManager M) (m : M)
      → p.manager ≡ some m
      → p.current ≡ some i
      → length (q.ready m) + 1 < fuel
      → let found = first_live (get m) (q.ready m ++ i ∷ []) in
        (m' : M) × ((make_current_suspend store queue p >>= find_next store queue fuel)
          ≡ returned
              (some (found, record p { manager = some m'; current = id_of store queue found })))
        × (q.ready m' ≡ behind (get m) (q.ready m ++ i ∷ []))
  unfolding make_current_suspend
  find_next-make_current_suspend fuel i p m has runs enough = (
    r.0,
    rw (runs, make_current_suspend) (rw (has, make_current_suspend) (rw (same, queued) at r.1)),
    rw (same, queued) at r.2,
  )
    where
      m₂ : M
      m₂ = queue.add i m

      same : get m₂ ≡ get m
      same = fun_ext (λ j. q.get-add i j m)

      queued : q.ready m₂ ≡ q.ready m ++ i ∷ []
      queued = q.ready-add i m

      short : length (q.ready m₂) < fuel
      short = rw queued (omega (arith, length-append {0} (q.ready m) (i ∷ [])))

      r :
          (m' : M) × (find_next store queue fuel (record p { manager = some m₂; current = none })
            ≡ returned (
                some (
                  first_live (get m₂) (q.ready m₂),
                  record p {
                    manager = some m';
                    current = id_of store queue (first_live (get m₂) (q.ready m₂));
                  },
                )))
          × (q.ready m' ≡ behind (get m₂) (q.ready m₂))
          × ((j : ℕ) → store.get_mut j m' ≡ store.get_mut j m₂)
      r = find_next_lem fuel (record p { manager = some m₂; current = none }) m₂ refl short
