-- ===== src/Signal/State/Actions.antt =====
-- The actions and the handler of a signal (signal-impl/src/lib.rs).
use spec_to_rust_os.Prelude.{
  Bool-cases, inl, inr, get_or-set_self, get_or-set_ne, ℕ, ◌<◌, ◌≡◌, ◌≢◌, refl, sym, Bool, true,
  false, not, ◌&&◌, ◌||◌, Option, none, some, ltb, ◌==◌, length, set, arith, ap, ◌∙◌,
}
use spec_to_rust_os.Prelude.Panic.{returned}
use spec_to_rust_os.KernelContext.{LocalContext, HasRegs}
use spec_to_rust_os.Signal.State.{
  max_sig, sigkill, sigstop, SignalAction, SignalResult, handled, user_signal, SignalImpl,
  valid_index, action_at, get_action_ref, set_action, handle_signals, sig_return, unwrap_or_default,
}
use spec_to_rust_os.Signal.State.Delivery.{
  IsSound, Delivery, killed, resumed, still_frozen, in_handler, nothing_due, stopped, entered,
  dropped, killed_by_default, handle_signals-Delivery,
}

-- A signal whose action the process may choose.
abbrev pub is_free : ℕ → Bool
is_free k = not (k == sigkill || k == sigstop) && not (k == 0 || ltb max_sig k)

in_range :
    (s : SignalImpl) (k : ℕ) → IsSound s → (k == 0 || ltb max_sig k) ≡ false → k < length s.actions
in_range s k sound fits = ground (arith, sound.actions_full, fits)

set_action-refused :
    (k : ℕ) (action : SignalAction) (s : SignalImpl)
    → is_free k ≡ false
    → set_action k action s ≡ (false, s)
unfolding set_action valid_index
set_action-refused k action s h = ground (arith, h)

set_action-free :
    (k : ℕ) (action : SignalAction) (s : SignalImpl)
    → is_free k ≡ true
    → set_action k action s ≡ (true, record s { actions = set s.actions k (some action) })
unfolding set_action valid_index
set_action-free k action s h = ground (arith, h)

get_action_ref-free :
    (k : ℕ) (s : SignalImpl) → is_free k ≡ true → get_action_ref k s ≡ some (action_at k s)
unfolding get_action_ref valid_index
get_action_ref-free k s h = ground (arith, h)

get_action_ref-same :
    (j : ℕ) (s s' : SignalImpl)
    → action_at j s ≡ action_at j s'
    → get_action_ref j s ≡ get_action_ref j s'
unfolding get_action_ref valid_index
get_action_ref-same j s s' e = ground (arith, e)

get_action_ref-other :
    (j k : ℕ) (o : Option SignalAction) (s : SignalImpl)
    → j ≢ k
    → get_action_ref j (record s { actions = set s.actions k o }) ≡ get_action_ref j s
unfolding get_action_ref
get_action_ref-other j k o s other =
    let same : action_at j (record s { actions = set s.actions k o }) ≡ action_at j s =
      ap unwrap_or_default (get_or-set_ne s.actions k j o none (λ e. other (sym e))) in
    get_action_ref-same j (record s { actions = set s.actions k o }) s same

-- What `set_action` answers and leaves.
data ActionSet (k : ℕ) (action : SignalAction) (s : SignalImpl) : Bool × SignalImpl → Type 0 where
  refused : is_free k ≡ false → ActionSet k action s (false, s)
  installed :
      (s' : SignalImpl)
      → is_free k ≡ true
      → get_action_ref k s' ≡ some action
      → ((j : ℕ) → j ≢ k → get_action_ref j s' ≡ get_action_ref j s)
      → ActionSet k action s (true, s')

-- In a sound state `set_action` refuses SIGKILL, SIGSTOP and what is not a valid signal, and then changes
-- nothing. It succeeds for every other signal; then `get_action_ref` gives the new action for that signal
-- and what it gave before for each other one.
set_action-ActionSet :
    (k : ℕ) (action : SignalAction) (s : SignalImpl)
    → IsSound s
    → ActionSet k action s (set_action k action s)
set_action-ActionSet k action s sound = elim (Bool-cases (is_free k)) [
  | inr closed ↦ rw (set_action-refused k action s closed) (refused closed)
  | inl free ↦ rw (set_action-free k action s free) (
      installed (record s { actions = set s.actions k (some action) }) free
        (get_action_ref-free k (record s { actions = set s.actions k (some action) }) free
          ∙ ap (λ o. some (unwrap_or_default o))
              (get_or-set_self s.actions k (some action) none
                (in_range s k sound (ground (arith, free)))))
        (λ j other. get_action_ref-other j k (some action) s other))
]

entered_lem :
    (s : SignalImpl) (c : LocalContext) (r : SignalResult) (s' : SignalImpl) (c' : LocalContext)
    → s.handling ≡ none
    → r ≡ handled
    → Delivery s c r s' c'
    → s'.handling ≡ some (user_signal c)
entered_lem s c r s' c' idle e (killed d) = ground (arith, e)
entered_lem s c r s' c' idle e (resumed n h d) = ground (arith, idle, h)
entered_lem s c r s' c' idle e (still_frozen n h d) = ground (arith, e)
entered_lem s c r s' c' idle e (in_handler saved n h) = ground (arith, e)
entered_lem s c r s' c' idle e (nothing_due h d) = ground (arith, e)
entered_lem s c r s' c' idle e (stopped h d) = ground (arith, e)
entered_lem s c r s' c' idle e (entered k c'' h d n a q) = refl
entered_lem s c r s' c' idle e (dropped k h d n a i) = ground (arith, e)
entered_lem s c r s' c' idle e (killed_by_default k h d n a i) = ground (arith, e)

sig_return-saved :
    (s : SignalImpl) (saved d : LocalContext)
    → s.handling ≡ some (user_signal saved)
    → sig_return s d ≡ (true, record s { handling = none }, saved)
unfolding sig_return
sig_return-saved s saved d e = ground (arith, e)

-- In a sound state that handles no signal, when a user handler was entered, `sig_return` at any later context gives back the context from before
-- and leaves the process free to handle the next signal.
pub sig_return-handle_signals :
    (s s' : SignalImpl) (c c' d : LocalContext)
    → IsSound s
    → HasRegs c
    → s.handling ≡ none
    → handle_signals s c ≡ returned (handled, s', c')
    → sig_return s' d ≡ (true, record s' { handling = none }, c)
sig_return-handle_signals s s' c c' d sound full idle e =
    let (r, s1, c1, e1, del) = handle_signals-Delivery s c sound full in
    let same : returned (r, s1, c1) ≡ returned (handled, s', c') = sym e1 ∙ e in
    let kept : s1.handling ≡ some (user_signal c) =
      entered_lem s c r s1 c1 idle (ground (arith, same)) del in
    sig_return-saved s' c d (ground (arith, same, kept))
