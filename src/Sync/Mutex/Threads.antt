-- ===== src/Sync/Mutex/Threads.antt =====
-- Threads that lock and unlock one mutex, in any order in which the kernel may run them.
use mathlib.Core.List.{append_assoc, append-nil}
use spec_to_rust_os.Prelude.{
  ℕ, ◌≤◌, ◌<◌, ◌≡◌, refl, Bool, true, false, Option, none, some, List, [], ◌∷◌, ◌++◌, ◌==◌, length,
  if◌then◌else◌, arith,
}
use spec_to_rust_os.Prelude.Panic.{returned}
use spec_to_rust_os.Sync.Mutex.{MutexBlockingInner, new_inner, lock_inner, pass_on, unlock_inner}

-- The mutex; the threads that went on from `lock`, or were woken by `unlock`, and have not unlocked
-- since; and the order in which threads called `lock` and in which they got the mutex.
pub record System : Type 0 where
  pub mutex : MutexBlockingInner
  pub holders : List ℕ
  pub requests : List ℕ
  pub grants : List ℕ

unfoldable pub start : System
start = record { mutex = new_inner; holders = []; requests = []; grants = [] }

abbrev pub leave : ℕ → List ℕ → List ℕ
leave tid [] = []
leave tid (x ∷ xs) = if x == tid then xs else x ∷ leave tid xs

abbrev pub holds : ℕ → List ℕ → Bool
holds tid [] = false
holds tid (x ∷ xs) = if x == tid then true else holds tid xs

abbrev pub to_list : Option ℕ → List ℕ
to_list none = []
to_list (some t) = t ∷ []

-- Any thread may call `lock`; a thread calls `unlock` only while it holds the mutex.
pub data Step (s t : System) : Type 0 where
  lock :
      (tid : ℕ)
      → t ≡ record {
        mutex = (lock_inner tid s.mutex).1;
        holders = if (lock_inner tid s.mutex).0 then tid ∷ s.holders else s.holders;
        requests = s.requests ++ tid ∷ [];
        grants = if (lock_inner tid s.mutex).0 then s.grants ++ tid ∷ [] else s.grants;
      }
      → Step s t
  unlock :
      (tid : ℕ) (woken : Option ℕ) (m : MutexBlockingInner)
      → holds tid s.holders ≡ true
      → unlock_inner s.mutex ≡ returned (woken, m)
      → t ≡ record s {
        mutex = m;
        holders = to_list woken ++ leave tid s.holders;
        grants = s.grants ++ to_list woken;
      }
      → Step s t

pub data Reach : System → Type 0 where
  here : Reach start
  next : {s t : System} → Reach s → Step s t → Reach t

pub record IsFair (s : System) : Type 0 where
  pub held : s.mutex.locked ≡ true → length s.holders ≡ 1
  pub free : s.mutex.locked ≡ false → (length s.holders ≡ 0) × (s.mutex.waiting ≡ [])
  pub order : s.requests ≡ s.grants ++ s.mutex.waiting

length-leave : (tid : ℕ) (l : List ℕ) → holds tid l ≡ true → length l ≡ 1 → leave tid l ≡ []
length-leave tid [] h e = refl
length-leave tid (x ∷ []) h e = ground arith
length-leave tid (x ∷ y ∷ l) h e = absurd (omega arith)

pass_on-IsFair :
    (tid : ℕ) (w hs rs gs : List ℕ)
    → holds tid hs ≡ true
    → length hs ≡ 1
    → rs ≡ gs ++ w
    → let (woken, m) = pass_on true w in
      IsFair (record {
        mutex = m;
        holders = to_list woken ++ leave tid hs;
        requests = rs;
        grants = gs ++ to_list woken;
      })
unfolding pass_on
pass_on-IsFair tid [] hs rs gs h one e = ground (arith, length-leave tid hs h one, append-nil gs)
pass_on-IsFair tid (t ∷ ts) hs rs gs h one e =
    ground (arith, length-leave tid hs h one, append_assoc gs (t ∷ []) ts)

lock-IsFair :
    (tid : ℕ) (l : Bool) (w hs rs gs : List ℕ)
    → IsFair (record {
      mutex = record { locked = l; waiting = w };
      holders = hs;
      requests = rs;
      grants = gs;
    })
    → let (ok, m) = lock_inner tid (record { locked = l; waiting = w }) in
      IsFair (record {
        mutex = m;
        holders = if ok then tid ∷ hs else hs;
        requests = rs ++ tid ∷ [];
        grants = if ok then gs ++ tid ∷ [] else gs;
      })
unfolding lock_inner
lock-IsFair tid true w hs rs gs v = ground (arith, append_assoc gs w (tid ∷ []))
lock-IsFair tid false w hs rs gs v =
    ground (arith, append-nil gs, append-nil (gs ++ tid ∷ []), v.free)

Step-IsFair : {s t : System} → Step s t → IsFair s → IsFair t
unfolding unlock_inner
Step-IsFair {s} (lock tid e) v =
    rw e (lock-IsFair tid s.mutex.locked s.mutex.waiting s.holders s.requests s.grants v)
Step-IsFair {s} (unlock tid woken m mine u e) v =
    ground (arith, pass_on-IsFair tid s.mutex.waiting s.holders s.requests s.grants)

Reach-IsFair : {s : System} → Reach s → IsFair s
unfolding start
Reach-IsFair here = ground arith
Reach-IsFair (next r st) = Step-IsFair st (Reach-IsFair r)

-- Mutual exclusion, no lost waiter, and first come first served: in every state that lock and
-- unlock calls can reach, at most one thread holds the mutex, somebody holds it if threads wait,
-- and the threads got the mutex in the order in which they asked for it, all but those waiting.
pub mutual_exclusion :
    {s : System}
    → Reach s
    → (length s.holders ≤ 1)
      × (0 < length s.mutex.waiting → length s.holders ≡ 1)
      × (s.requests ≡ s.grants ++ s.mutex.waiting)
mutual_exclusion r = let v = Reach-IsFair r in ground (arith, v.held, v.free, v.order)
