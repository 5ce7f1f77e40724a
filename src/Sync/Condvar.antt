-- ===== src/Sync/Condvar.antt =====
-- sync/src/lib.rs: `Condvar`. Its queue lies in an interrupt-free cell as well.
use spec_to_rust_os.Prelude.{
  ℕ, ◌≡◌, Bool, true, false, Option, none, some, List, [], ◌∷◌, ◌++◌, pop_front,
}
use spec_to_rust_os.Prelude.Panic.{Outcome, returned, panicked, ◌>>=◌}
use spec_to_rust_os.Sync.Cell
use spec_to_rust_os.Sync.Cell.{IntrState, IsMasked, UpIntrFreeCell, exclusive_session}
use spec_to_rust_os.Sync.Cell.Session.{after_session, session_of_new}
use spec_to_rust_os.Sync.Mutex.{
  MutexBlocking, MutexBlockingInner, lock, unlock, lock_inner, unlock_inner, pass_on,
}

abbrev pub Condvar : Type 0
Condvar = UpIntrFreeCell (List ℕ)

abbrev pub new : Condvar
new = Cell.new []

unfoldable pub signal : IntrState → Condvar → Outcome (Option ℕ × IntrState × Condvar)
signal = exclusive_session (λ q. returned (pop_front q))

unfoldable pub wait_no_sched : ℕ → IntrState → Condvar → Outcome (Bool × IntrState × Condvar)
wait_no_sched tid s c = do
  (_, s', c') ← exclusive_session (λ q. returned (tt {0}, q ++ tid ∷ [])) s c
  returned (false, s', c')

abbrev unwrap : Option ℕ → Outcome ℕ
unwrap none = panicked
unwrap (some t) = returned t

-- It does not touch the queue of the condition variable.
unfoldable pub wait_with_mutex :
    ℕ → IntrState → MutexBlocking → Outcome ((Bool × Option ℕ) × IntrState × MutexBlocking)
wait_with_mutex tid s m = do
  (woken, s₁, m₁) ← unlock s m
  woken_tid ← unwrap woken
  (got_lock, s₂, m₂) ← lock tid s₁ m₁
  returned ((got_lock, some woken_tid), s₂, m₂)

-- What `wait_with_mutex` returns, apart from the interrupt state: nothing but a panic if the mutex
-- is unlocked or nobody waits for it.
abbrev pub handed_over : ℕ → Bool → List ℕ → Outcome ((Bool × Option ℕ) × MutexBlockingInner)
handed_over tid false w = panicked
handed_over tid true [] = panicked
handed_over tid true (t ∷ ts) =
    returned ((false, some t), record { locked = true; waiting = ts ++ tid ∷ [] })

abbrev pub forget :
    Outcome ((Bool × Option ℕ) × IntrState × MutexBlocking)
    → Outcome ((Bool × Option ℕ) × MutexBlockingInner)
forget o = o >>= λ (r, s, m). returned (r, m.value)

-- `wait_with_mutex` panics if the mutex is not locked, and also if it is locked and no thread waits
-- for it. Otherwise the mutex goes to the thread that has waited longest, the caller joins the end
-- of the mutex's queue, and the caller does not get the lock.
pub wait_with_mutex_lem :
    (tid : ℕ) (s : IntrState) (l : Bool) (w : List ℕ)
    → IsMasked s
    → forget (wait_with_mutex tid s (Cell.new (record { locked = l; waiting = w })))
      ≡ handed_over tid l w
unfolding wait_with_mutex lock unlock unlock_inner pass_on lock_inner
wait_with_mutex_lem tid s false w m =
    simp (session_of_new {A = MutexBlockingInner} {B = Option ℕ} s m)
wait_with_mutex_lem tid s true [] m =
    simp (session_of_new {A = MutexBlockingInner} {B = Option ℕ} s m)
wait_with_mutex_lem tid s true (t ∷ ts) m = simp (
  session_of_new {A = MutexBlockingInner} {B = Option ℕ} s m,
  session_of_new {A = MutexBlockingInner} {B = Bool} (after_session s) (record { off = m.off }),
)

-- After `wait_no_sched`, which never goes on, `signal` wakes the thread at the front of the queue:
-- the caller only if nobody waited before it.
signal-wait_no_sched :
    (tid : ℕ) (s : IntrState) (q : List ℕ)
    → IsMasked s
    → (wait_no_sched tid s (Cell.new q) >>= λ (_, s', c). signal s' c) ≡ (
        let (t, rest) = pop_front (q ++ tid ∷ []) in
        returned (t, after_session (after_session s), Cell.new rest))
unfolding signal wait_no_sched
signal-wait_no_sched tid s q m = simp (
  session_of_new {A = List ℕ} {B = Unit {0}} s m,
  session_of_new {A = List ℕ} {B = Option ℕ} (after_session s) (record { off = m.off }),
)
