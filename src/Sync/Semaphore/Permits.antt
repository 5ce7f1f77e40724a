-- ===== src/Sync/Semaphore/Permits.antt =====
-- A semaphore against its abstract view: a number of permits, and the threads that queue for one.
use spec_to_rust_os.Prelude.{
  ℕ, ◌+◌, ◌-◌, ◌^◌, ◌≤◌, ◌<◌, ◌≡◌, Bool, true, false, Option, none, some, List, [], ◌∷◌, ◌++◌, ◌==◌,
  length, length-append, if◌then◌else◌, arith,
}
use spec_to_rust_os.Sync.Semaphore.{SemaphoreInner, is_negative, down_inner, up_inner, new_inner}

pub record Permits : Type 0 where
  pub permits : ℕ
  pub queue : List ℕ

unfoldable pub acquire : ℕ → Permits → Bool × Permits
acquire tid p =
    if p.permits == 0
    then (false, record p { queue = p.queue ++ tid ∷ [] })
    else (true, record p { permits = p.permits - 1 })

-- A released permit goes to the thread at the front of the queue, if there is one.
unfoldable pub hand_over : ℕ → List ℕ → Option ℕ × Permits
hand_over n [] = (none, record { permits = n + 1; queue = [] })
hand_over n (t ∷ ts) = (some t, record { permits = n; queue = ts })

abbrev pub release : Permits → Option ℕ × Permits
release p = hand_over p.permits p.queue

-- The permits that a count stands for; a negative count stands for none.
abbrev pub view : SemaphoreInner → Permits
view s = record { permits = if is_negative s.count then 0 else s.count; queue = s.waiting }

-- A count of zero or more means that nobody waits; a negative one counts the threads that wait.
pub record IsValid (s : SemaphoreInner) : Type 0 where
  pub idle : s.count < 2 ^ 63 → length s.waiting ≡ 0
  pub busy : 2 ^ 63 ≤ s.count → s.count + length s.waiting ≡ 2 ^ 64
  pub in_word : s.count < 2 ^ 64

-- No overflow of the count is near: fewer than `k` more operations cannot reach one.
pub record HasRoom (k : ℕ) (s : SemaphoreInner) : Type 0 where
  pub above : s.count < 2 ^ 63 → s.count + k < 2 ^ 63
  pub below : length s.waiting + k < 2 ^ 63

pub new_inner-IsValid :
    (n : ℕ)
    → n < 2 ^ 63
    → IsValid (new_inner n) × (view (new_inner n) ≡ record { permits = n; queue = [] })
unfolding new_inner
new_inner-IsValid n h = ground arith

-- `down` on a valid semaphore is `acquire` on its permits and queue, and keeps it valid: it takes a
-- permit if there is one, and else the thread joins the queue at its end.
pub down_inner-refines :
    (tid k : ℕ) (s : SemaphoreInner)
    → IsValid s
    → HasRoom (k + 1) s
    → let (ok, t) = down_inner tid s in
      ((ok, view t) ≡ acquire tid (view s)) × IsValid t × HasRoom k t
unfolding down_inner acquire
down_inner-refines tid k s v r = ground (arith, length-append {0} s.waiting (tid ∷ []))

up-cases :
    (k c : ℕ) (w : List ℕ)
    → IsValid (record { count = c; waiting = w })
    → HasRoom (k + 1) (record { count = c; waiting = w })
    → let (woken, t) = up_inner (record { count = c; waiting = w }) in
      ((woken, view t) ≡ release (view (record { count = c; waiting = w })))
      × IsValid t
      × HasRoom k t
unfolding up_inner hand_over
up-cases k c [] v r = ground arith
up-cases k c (t ∷ ts) v r = ground arith

-- `up` on a valid semaphore is `release`, and keeps it valid: the permit goes to the thread that
-- has waited longest, and becomes free only if nobody waits.
pub up_inner-refines :
    (k : ℕ) (s : SemaphoreInner)
    → IsValid s
    → HasRoom (k + 1) s
    → let (woken, t) = up_inner s in ((woken, view t) ≡ release (view s)) × IsValid t × HasRoom k t
up_inner-refines k s v r = up-cases k s.count s.waiting v r
