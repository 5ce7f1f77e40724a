-- ===== src/TaskManage/PThreadManager/ProcessExit.antt =====
-- What the exit of a thread makes of the entries of the processes.
use spec_to_rust_os.Prelude.{
  ℕ, ◌<◌, ◌≡◌, ◌≢◌, ◌∙◌, ap, refl, true, false, Option, none, some, List, [], ◌∷◌, ◌++◌, inl, inr,
  ◌==◌, if◌then◌else◌, length, Bool-cases, ==_iff, arith,
}
use spec_to_rust_os.Prelude.Map.{
  Map, lookup, remove, modify, map_value, lookup-modify, lookup-remove,
}
use spec_to_rust_os.Prelude.Distinct.{contains, remove_first}
use spec_to_rust_os.TaskManage.ProcRel.{del_child}
use spec_to_rust_os.TaskManage.ProcThreadRel.{ProcThreadRel, on_family, del_thread}
use spec_to_rust_os.TaskManage.PThreadManager.{threads_in, leave_proc}
use spec_to_rust_os.TaskManage.PThreadManager.Consistency.{threads_of}

-- The relations after the exit of thread `tid` of process `pid`: without the process, if that was
-- its last thread.
abbrev pub after_exit : ℕ → ℕ → ℕ → Map ProcThreadRel → Map ProcThreadRel
after_exit tid pid code rels =
    let rels' = modify pid (del_thread tid code) rels in
    if length (threads_of rels' pid) == 0 then leave_proc pid code rels' else rels'

-- What becomes of the process with entry `rel` and of the other entries, when its thread `tid` exits.
pub data ProcessAfter {MP : Type 0} (tid pid code : ℕ) (rel : ProcThreadRel) (deleted pm : MP)
    (rels : Map ProcThreadRel) : Option MP → Map ProcThreadRel → Type 0 where
  ended :
      (rels' : Map ProcThreadRel)
      → rel.threads ≡ tid ∷ []
      → lookup pid rels' ≡ none
      → ((q : ℕ)
          → q ≢ pid
          → lookup q rels' ≡ (
              if rel.parent == q
              then map_value (on_family (del_child pid code)) (lookup q rels)
              else lookup q rels))
      → ProcessAfter tid pid code rel deleted pm rels (some deleted) rels'
  goes_on :
      (rels' : Map ProcThreadRel)
      → 0 < length (remove_first tid rel.threads)
      → lookup pid rels'
        ≡ some (record rel {
          threads = remove_first tid rel.threads;
          dead_threads = rel.dead_threads ++ (tid, code) ∷ [];
        })
      → ((q : ℕ) → q ≢ pid → lookup q rels' ≡ lookup q rels)
      → ProcessAfter tid pid code rel deleted pm rels (some pm) rels'

only_thread :
    (tid : ℕ) (l : List ℕ) → contains l tid ≡ true → length (remove_first tid l) ≡ 0 → l ≡ tid ∷ []
unfolding contains remove_first
only_thread tid [] h e = cc
only_thread tid (x ∷ []) h e = let same : x ≡ tid = ground arith in ap (λ y. y ∷ []) same
only_thread tid (x ∷ y ∷ l) h e = absurd (ground arith)

lookup-leave_proc :
    (id code q : ℕ) (r : ProcThreadRel) (rels : Map ProcThreadRel)
    → lookup id rels ≡ some r
    → lookup q (leave_proc id code rels) ≡ (
        if id == q
        then none
        else if r.parent == q
        then map_value (on_family (del_child id code)) (lookup q rels)
        else lookup q rels)
unfolding leave_proc
lookup-leave_proc id code q r rels e =
    rw (leave_proc, e)
      (ground (
        arith,
        lookup-modify r.parent q (on_family (del_child id code)) (remove id rels),
        lookup-remove id q rels,
      ))

dead_thread :
    (tid code : ℕ) (rel : ProcThreadRel)
    → contains rel.threads tid ≡ true
    → del_thread tid code rel ≡ record rel {
      threads = remove_first tid rel.threads;
      dead_threads = rel.dead_threads ++ (tid, code) ∷ [];
    }
unfolding del_thread
dead_thread tid code rel h = rw (del_thread, h) refl

module _ {MP : Type 0} (tid pid code : ℕ) (rel : ProcThreadRel) (deleted pm : MP)
    (rels : Map ProcThreadRel) (e : lookup pid rels ≡ some rel)
    (lists : contains rel.threads tid ≡ true) where
  abbrev dying : Map ProcThreadRel
  dying = modify pid (del_thread tid code) rels

  dying-own :
      lookup pid dying
      ≡ some (record rel {
        threads = remove_first tid rel.threads;
        dead_threads = rel.dead_threads ++ (tid, code) ∷ [];
      })
  dying-own =
      let same : (pid == pid) ≡ true = ground arith in
      lookup-modify pid pid (del_thread tid code) rels
      ∙ rw (same, e) refl
      ∙ ap some (dead_thread tid code rel lists)

  dying-other : (q : ℕ) → q ≢ pid → lookup q dying ≡ lookup q rels
  dying-other q other =
      let differ : (pid == q) ≡ false = ground arith in
      lookup-modify pid q (del_thread tid code) rels ∙ rw differ refl

  pub process_lem :
      ProcessAfter tid pid code rel deleted pm rels
        (some (if length (threads_of dying pid) == 0 then deleted else pm))
        (after_exit tid pid code rels)
  process_lem =
      let left : threads_of dying pid ≡ remove_first tid rel.threads = ap threads_in dying-own in
      elim (Bool-cases (length (remove_first tid rel.threads) == 0)) [
        | inl last ↦
            (let none_left : (length (threads_of dying pid) == 0) ≡ true = rw left last in
              let same : (pid == pid) ≡ true = ground arith in
              rw none_left (
                ended (leave_proc pid code dying)
                  (only_thread tid rel.threads lists
                    ((==_iff (length (remove_first tid rel.threads)) 0).0 last))
                  (lookup-leave_proc pid code pid _ dying dying-own ∙ rw same refl)
                  (λ q other.
                    let differ : (pid == q) ≡ false = ground arith in
                    lookup-leave_proc pid code q _ dying dying-own
                    ∙ rw (differ, dying-other q other) refl)))
        | inr more ↦
            (let some_left : (length (threads_of dying pid) == 0) ≡ false = rw left more in
              rw some_left (goes_on dying (ground (arith, more)) dying-own dying-other))
      ]
