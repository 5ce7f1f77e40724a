-- ===== src/Sync/Semaphore/Runs.antt =====
-- Sequences of semaphore operations: what the threads see, and how many hold a permit.
use spec_to_rust_os.Prelude.{
  ℕ, suc, ◌+◌, ◌<◌, ◌^◌, ◌≡◌, refl, Bool, true, Option, some, List, [], ◌∷◌, length, arith,
}
use spec_to_rust_os.Sync.Semaphore.{SemaphoreInner, down_inner, up_inner, new_inner}
use spec_to_rust_os.Sync.Semaphore.Permits.{
  Permits, IsValid, HasRoom, view, acquire, release, hand_over, down_inner-refines,
  up_inner-refines, new_inner-IsValid,
}

pub data Op : Type 0 where
  down : ℕ → Op
  up : Op

pub data Reply : Type 0 where
  went_on : Bool → Reply
  woke : Option ℕ → Reply

unfoldable pub run : SemaphoreInner → List Op → List Reply × SemaphoreInner
run s [] = ([], s)
run s (down tid ∷ ops) =
    let (ok, t) = down_inner tid s in let (rs, u) = run t ops in (went_on ok ∷ rs, u)
run s (up ∷ ops) = let (w, t) = up_inner s in let (rs, u) = run t ops in (woke w ∷ rs, u)

unfoldable pub run_permits : Permits → List Op → List Reply × Permits
run_permits p [] = ([], p)
run_permits p (down tid ∷ ops) =
    let (ok, q) = acquire tid p in let (rs, r) = run_permits q ops in (went_on ok ∷ rs, r)
run_permits p (up ∷ ops) =
    let (w, q) = release p in let (rs, r) = run_permits q ops in (woke w ∷ rs, r)

-- If at the start the count is below 2 ^ 63 with nobody waiting, or minus the number of waiters, a
-- sequence of operations too short for the count or the number of waiters to reach 2 ^ 63 gives the
-- replies, and ends in the permits and the queue, of the abstract semaphore.
pub run_refines :
    (ops : List Op) (s : SemaphoreInner)
    → IsValid s
    → HasRoom (length ops) s
    → let (rs, t) = run s ops in (rs, view t) ≡ run_permits (view s) ops
unfolding run run_permits
run_refines [] s v r = refl
run_refines (down tid ∷ ops) s v r =
    let (e, vt, rt) =
      down_inner-refines tid (length ops) s v
        (record { above = λ h. omega arith; below = omega arith }) in
    ground (arith, e, run_refines ops (down_inner tid s).1 vt rt)
run_refines (up ∷ ops) s v r =
    let (e, vt, rt) =
      up_inner-refines (length ops) s v
        (record { above = λ h. omega arith; below = omega arith }) in
    ground (arith, e, run_refines ops (up_inner s).1 vt rt)

-- The permits that the replies of a run hand out.
unfoldable pub granted : List Reply → ℕ
granted [] = 0
granted (went_on true ∷ rs) = suc (granted rs)
granted (woke (some t) ∷ rs) = suc (granted rs)
granted (r ∷ rs) = granted rs

unfoldable pub ups : List Op → ℕ
ups [] = 0
ups (up ∷ ops) = suc (ups ops)
ups (down t ∷ ops) = ups ops

-- Every permit is either handed out or free.
granted-run_permits :
    (ops : List Op) (p : Permits)
    → let (rs, q) = run_permits p ops in granted rs + q.permits ≡ p.permits + ups ops
unfolding run_permits granted ups acquire hand_over
granted-run_permits [] p = omega arith
granted-run_permits (down tid ∷ ops) p = ground (arith, granted-run_permits ops (acquire tid p).1)
granted-run_permits (up ∷ ops) p = released p.permits p.queue (granted-run_permits ops)
  where
    released :
        (n : ℕ) (w : List ℕ)
        → ((q : Permits)
            → granted (run_permits q ops).0 + (run_permits q ops).1.permits ≡ q.permits + ups ops)
        → granted (woke (hand_over n w).0 ∷ (run_permits (hand_over n w).1 ops).0)
            + (run_permits (hand_over n w).1 ops).1.permits
          ≡ n + suc (ups ops)
    released n [] ih = omega (arith, ih (record { permits = n + 1; queue = [] }))
    released n (t ∷ ts) ih = omega (arith, ih (record { permits = n; queue = ts }))

new_inner-HasRoom : (n k : ℕ) → n + k < 2 ^ 63 → HasRoom k (new_inner n)
unfolding new_inner
new_inner-HasRoom n k h = record { above = λ _. omega arith; below = omega arith }

-- Conservation: from a new semaphore of `n` permits, where `n` and the length of the run are together
-- below 2 ^ 63, the permits handed out and those still free are together the `n` permits and those given
-- back.
pub granted-run :
    (n : ℕ) (ops : List Op)
    → n + length ops < 2 ^ 63
    → let (rs, t) = run (new_inner n) ops in granted rs + (view t).permits ≡ n + ups ops
granted-run n ops h =
    let (v, e) = new_inner-IsValid n (omega arith) in
    ground (
      arith,
      run_refines ops (new_inner n) v (new_inner-HasRoom n (length ops) h),
      e,
      granted-run_permits ops (record { permits = n; queue = [] }),
    )
