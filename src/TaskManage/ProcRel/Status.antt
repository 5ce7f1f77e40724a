-- ===== src/TaskManage/ProcRel/Status.antt =====
-- What a parent can know of a process: it is no child, a child that lives, or one that died with a
-- code that has not been collected. The operations of `ProcRel` are updates of this view.
use spec_to_rust_os.Prelude.{
  ℕ, ◌≡◌, Bool, true, false, Option, none, some, [], ◌∷◌, ◌==◌, if◌then◌else◌, Bool-cases,
  Option-cases, inl, inr, refl, arith,
}
use spec_to_rust_os.Prelude.Map.{lookup}
use spec_to_rust_os.Prelude.Distinct.{
  contains, Distinct, DistinctKeys, contains-remove_first, remove_first-Distinct, contains-append,
  append-Distinct, lookup-remove_key, remove_key-DistinctKeys, lookup-append, append-DistinctKeys,
}
use spec_to_rust_os.TaskManage.ProcRel.{ProcRel, add_child, del_child, wait_child, still_running}

pub data Status : Type 0 where
  gone : Status
  alive : Status
  dead : ℕ → Status

abbrev pub judge : Option ℕ → Bool → Status
judge (some code) b = dead code
judge none true = alive
judge none false = gone

unfoldable pub status : ProcRel → ℕ → Status
status r c = judge (lookup c r.dead_children) (contains r.children c)

-- No child is listed twice, and none is listed both as alive and as dead.
pub record IsValid (r : ProcRel) : Type 0 where
  pub children : Distinct r.children
  pub dead_children : DistinctKeys r.dead_children
  pub apart : (c : ℕ) → contains r.children c ≡ true → lookup c r.dead_children ≡ none

-- A process that is no child of the parent becomes a living one, and nothing else changes.
pub status-add_child :
    (c : ℕ) (r : ProcRel)
    → IsValid r
    → status r c ≡ gone
    → IsValid (add_child c r)
      × ((j : ℕ) → status (add_child c r) j ≡ (if c == j then alive else status r j))
unfolding status add_child contains
status-add_child c r v g = (
  record {
    children = append-Distinct r.children c v.children (ground arith);
    dead_children = v.dead_children;
    apart = λ j h. ground (arith, contains-append r.children (c ∷ []) j, v.apart j);
  },
  λ j. ground (arith, contains-append r.children (c ∷ []) j, v.apart j),
)

-- What the death of `c` with `code` makes of the status of `c`.
abbrev pub after_death : ℕ → Status → Status
after_death code alive = dead code
after_death code s = s

-- A living child that exits is kept with its exit code; a process that is no living child changes
-- nothing; no other child is touched.
pub status-del_child :
    (c code : ℕ) (r : ProcRel)
    → IsValid r
    → IsValid (del_child c code r)
      × ((j : ℕ)
          → status (del_child c code r) j
            ≡ (if c == j then after_death code (status r j) else status r j))
unfolding status del_child
status-del_child c code r v = elim (Bool-cases (contains r.children c)) [
  | inl here ↦ rw here (
    record {
      children = remove_first-Distinct c r.children v.children;
      dead_children = append-DistinctKeys r.dead_children c code v.dead_children (v.apart c here);
      apart = λ j. grind (
        arith,
        contains-remove_first c j r.children v.children,
        lookup-append r.dead_children c code j,
        v.apart j,
      );
    },
    λ j. ground (
      arith,
      contains-remove_first c j r.children v.children,
      lookup-append r.dead_children c code j,
      v.apart j,
    ),
  )
  | inr absent ↦ rw absent (v, λ j. ground (arith))
]

-- The reply of `wait_child` for a child of that status.
abbrev pub reply : ℕ → Status → Option (ℕ × ℕ)
reply c gone = none
reply c alive = some still_running
reply c (dead code) = some (c, code)

abbrev pub collected : Status → Status
collected (dead code) = gone
collected s = s

-- `wait_child` reports the status of the child. An exit code is handed out once: the child is gone
-- afterwards, and no other child is touched.
pub wait_child_lem :
    (c : ℕ) (r : ProcRel)
    → IsValid r
    → ((wait_child c r).0 ≡ reply c (status r c))
      × IsValid (wait_child c r).1
      × ((j : ℕ)
          → status (wait_child c r).1 j ≡ (if c == j then collected (status r j) else status r j))
unfolding status wait_child
wait_child_lem c r v = elim (Option-cases (lookup c r.dead_children)) [
  | inl no_code ↦ rw (no_code, wait_child) (ground arith, v, λ j. ground arith)
  | inr (code, e) ↦
      rw (e, wait_child)
        (
          refl,
          record {
            children = v.children;
            dead_children = remove_key-DistinctKeys c r.dead_children v.dead_children;
            apart = λ j h.
                ground (arith, lookup-remove_key c j r.dead_children v.dead_children, v.apart j);
          },
          λ j.
              ground (
                arith,
                lookup-remove_key c j r.dead_children v.dead_children,
                v.apart j,
                v.apart c,
              ),
        )
]
