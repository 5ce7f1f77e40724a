-- ===== src/Sync/Cell/Session.antt =====
-- What a session of an interrupt-free cell does to the cell and to the interrupt state.
use spec_to_rust_os.Prelude.{◌+◌, ◌≡◌, refl, true, false, ◌==◌, if◌then◌else◌, arith}
use spec_to_rust_os.Prelude.Panic.{Outcome, returned, panicked, ◌>>=◌}
use spec_to_rust_os.Sync.Cell.{
  IntrState, IsMasked, push_off, pop_off, UpIntrFreeCell, new, exclusive_access, drop_pops,
  drop_releases, exclusive_session,
}

-- The interrupt state that a session leaves: only the saved flag may differ.
abbrev pub after_session : IntrState → IntrState
after_session s = record s { prev_enabled = if s.nesting == 0 then s.enabled else s.prev_enabled }

-- `pop_off` undoes `push_off`: nesting and the interrupt bit are as they were.
pub pop_off-push_off :
    (s : IntrState) → IsMasked s → pop_off (push_off s) ≡ returned (after_session s)
unfolding pop_off push_off
pop_off-push_off s m = ground arith

pub push_off-IsMasked : (s : IntrState) → IsMasked s → IsMasked (push_off s)
unfolding push_off
push_off-IsMasked s m = ground arith

module _ {ℓ κ} {A : Type ℓ} {B : Type κ} where
  -- On a cell that is not borrowed a session is the closure on the value: the interrupt nesting and
  -- the interrupt bit are restored, the cell is released, and it panics exactly if the closure does.
  pub exclusive_session_lem :
      (f : A → Outcome (B × A)) (s : IntrState) (c : UpIntrFreeCell A)
      → IsMasked s
      → c.borrowed ≡ false
      → exclusive_session f s c
        ≡ (f c.value >>= λ (v, a). returned (v, after_session s, record c { value = a }))
  unfolding exclusive_session exclusive_access drop_pops drop_releases
  exclusive_session_lem f s c m free = rw free (simp (pop_off-push_off s m))

  -- The same on a cell in its resting state, in the order of arguments that rewriting wants.
  pub session_of_new :
      (s : IntrState) (m : IsMasked s) (f : A → Outcome (B × A)) (v : A)
      → exclusive_session f s (new v) ≡ (f v >>= λ (r, a). returned (r, after_session s, new a))
  session_of_new s m f v = exclusive_session_lem f s (new v) m refl

  -- A session on a cell that is borrowed panics, whatever the closure does.
  pub session_of_borrowed :
      (f : A → Outcome (B × A)) (s : IntrState) (c : UpIntrFreeCell A)
      → IsMasked s
      → c.borrowed ≡ true
      → exclusive_session f s c ≡ panicked
  unfolding exclusive_session exclusive_access
  session_of_borrowed f s c m taken = rw taken (simp (pop_off-push_off s m))

-- Interrupts are off while the guard of a cell is held.
pub access-masks {ℓ} :
    {A : Type ℓ} (s : IntrState) (c : UpIntrFreeCell A) {s' : IntrState} {c' : UpIntrFreeCell A}
    → IsMasked s
    → exclusive_access s c ≡ returned (s', c')
    → (c.borrowed ≡ false)
      × (s'.enabled ≡ false)
      × (s'.nesting ≡ s.nesting + 1)
      × (c'.borrowed ≡ true)
unfolding exclusive_access push_off pop_off
access-masks s c m e = ground arith

-- An interrupt handler that opens a session with the cell, where interrupts are on.
abbrev pub handler {ℓ κ} :
    {A : Type ℓ} {B : Type κ}
    → (A → Outcome (B × A))
    → IntrState × UpIntrFreeCell A
    → Outcome (IntrState × UpIntrFreeCell A)
handler g (s, c) =
    if s.enabled
    then (exclusive_session g s c >>= λ (_, s', c'). returned (s', c'))
    else returned (s, c)
