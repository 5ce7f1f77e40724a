-- ===== src/Signal/State/Delivery.antt =====
-- What `handle_signals` of signal-impl/src/lib.rs does: SIGKILL first, then the handling state, then the
-- lowest deliverable signal.
use spec_to_rust_os.Prelude.{
  ℕ, ◌≤◌, ◌<◌, ◌≡◌, ◌≢◌, refl, sym, Bool, true, false, not, ◌&&◌, Option, none, some, ◌∙◌, ap, ◌==◌,
  length, Bool-cases, Option-cases, inl, inr, arith,
}
use spec_to_rust_os.Prelude.Panic.{Outcome, returned}
use spec_to_rust_os.KernelContext.{LocalContext, pc_mut, a_mut, HasRegs, x-x_mut}
use spec_to_rust_os.Signal.Set.{
  remove_bit, contain_bit, find_first_one, IsWord, First, nothing, lowest, find_first_one-First,
}
use spec_to_rust_os.Signal.State.{
  from_usize, max_sig, sigkill, sigcont, sigstop, SignalResult, no_signal, busy, ignored, handled,
  process_killed, process_suspended, frozen, user_signal, SignalImpl, valid_index, kill_code,
  should_ignore_by_default, take_deliverable_signal, handle_frozen, action_at, act, deliver,
  handle_signals,
}

-- A signal that was received and is not masked.
abbrev pub deliverable : SignalImpl → ℕ → Bool
deliverable s k = contain_bit s.received k && not (contain_bit s.mask k)

abbrev pub IsLowest : SignalImpl → ℕ → Type 0
IsLowest s k = (deliverable s k ≡ true) × ((j : ℕ) → j < k → deliverable s j ≡ false)

-- The state once signal `k` is taken off.
abbrev pub without : ℕ → SignalImpl → SignalImpl
without k s = record s { received = remove_bit k s.received }

-- Words, an array of its length, and no received bit that is not the index of a signal.
pub record IsSound (s : SignalImpl) : Type 0 where
  pub received_word : IsWord s.received
  pub mask_word : IsWord s.mask
  pub actions_full : length s.actions ≡ 32
  pub valid : (k : ℕ) → contain_bit s.received k ≡ true → (0 < k) × (k ≤ max_sig)

-- The outcomes of `handle_signals`, each with what leads to it.
pub data Delivery (s : SignalImpl) (c : LocalContext)
    : SignalResult → SignalImpl → LocalContext → Type 0 where
  killed :
      deliverable s sigkill ≡ true
      → Delivery s c (process_killed (kill_code sigkill)) (without sigkill s) c
  resumed :
      deliverable s sigkill ≡ false
      → s.handling ≡ some frozen
      → deliverable s sigcont ≡ true
      → Delivery s c handled (record (without sigcont s) { handling = none }) c
  still_frozen :
      deliverable s sigkill ≡ false
      → s.handling ≡ some frozen
      → deliverable s sigcont ≡ false
      → Delivery s c process_suspended s c
  in_handler :
      (saved : LocalContext)
      → deliverable s sigkill ≡ false
      → s.handling ≡ some (user_signal saved)
      → Delivery s c busy s c
  nothing_due : s.handling ≡ none → ((j : ℕ) → deliverable s j ≡ false) → Delivery s c no_signal s c
  stopped :
      s.handling ≡ none
      → IsLowest s sigstop
      → Delivery s c process_suspended (record (without sigstop s) { handling = some frozen }) c
  entered :
      (k : ℕ) (c' : LocalContext)
      → s.handling ≡ none
      → IsLowest s k
      → k ≢ sigstop
      → (action_at k s).handler ≢ 0
      → a_mut 0 k (pc_mut (action_at k s).handler c) ≡ returned c'
      → Delivery s c handled (record (without k s) { handling = some (user_signal c) }) c'
  dropped :
      (k : ℕ)
      → s.handling ≡ none
      → IsLowest s k
      → k ≢ sigstop
      → (action_at k s).handler ≡ 0
      → should_ignore_by_default k ≡ true
      → Delivery s c ignored (without k s) c
  killed_by_default :
      (k : ℕ)
      → s.handling ≡ none
      → IsLowest s k
      → k ≢ sigstop
      → (action_at k s).handler ≡ 0
      → should_ignore_by_default k ≡ false
      → Delivery s c (process_killed (kill_code k)) (without k s) c

abbrev Handled :
    SignalImpl → LocalContext → Outcome (SignalResult × SignalImpl × LocalContext) → Type 0
Handled s c o =
    (r : SignalResult) × (s' : SignalImpl) × (c' : LocalContext) × (o ≡ returned (r, s', c'))
    × Delivery s c r s' c'

a_mut-HasRegs :
    (v p : ℕ) (c : LocalContext)
    → HasRegs c
    → (c' : LocalContext) × (a_mut 0 v (pc_mut p c) ≡ returned c')
unfolding a_mut
a_mut-HasRegs v p c full =
    let (c', e, _, _, _, _) = x-x_mut 10 v (pc_mut p c) full (omega arith) (omega arith) in (c', e)

act-Delivery :
    (s : SignalImpl) (c : LocalContext) (k : ℕ)
    → HasRegs c
    → s.handling ≡ none
    → IsLowest s k
    → k ≢ sigstop
    → Handled s c (act k (without k s) c)
unfolding act
act-Delivery s c k full idle low mild = elim (Bool-cases ((action_at k s).handler == 0)) [
  | inl default ↦ elim (Bool-cases (should_ignore_by_default k)) [
    | inl ignore ↦
        rw (default, ignore) (_, _, _, refl, dropped k idle low mild (ground arith) ignore)
    | inr fatal ↦
        rw (default, fatal) (_, _, _, refl, killed_by_default k idle low mild (ground arith) fatal)
  ]
  | inr custom ↦
      (let (c', e) = a_mut-HasRegs k (action_at k s).handler c full in
        rw (custom, e) (_, _, _, refl, entered k c' idle low mild (λ z. ground arith) e))
]

deliver-Delivery :
    (s : SignalImpl) (c : LocalContext) (k : ℕ)
    → HasRegs c
    → s.handling ≡ none
    → deliverable s sigkill ≡ false
    → IsLowest s k
    → Handled s c (deliver k (without k s) c)
unfolding deliver act
deliver-Delivery s c k full idle spared low = elim (Bool-cases (k == sigkill)) [
  | inl kill ↦
      (let e : k ≡ sigkill = ground arith in
        let (due, _) = low in absurd (ground (arith, spared, due, e)))
  | inr other ↦ elim (Bool-cases (k == sigstop)) [
    | inl stop ↦
        (let e : k ≡ sigstop = ground arith in
          rw (other, e) (_, _, _, refl, stopped idle (rw (sym e) low)))
    | inr mild ↦ rw (other, mild) (act-Delivery s c k full idle low (λ e. ground arith))
  ]
]

take_lem :
    (s : SignalImpl) (k : ℕ)
    → 0 < k
    → k ≤ max_sig
    → find_first_one s.received s.mask ≡ some k
    → take_deliverable_signal s ≡ (some k, without k s)
unfolding take_deliverable_signal valid_index from_usize
take_lem s k lo hi e = rw (e, take_deliverable_signal) (ground arith)

take_none :
    (s : SignalImpl)
    → find_first_one s.received s.mask ≡ none
    → take_deliverable_signal s ≡ (none, s)
unfolding take_deliverable_signal
take_none s e = rw (e, take_deliverable_signal) refl

abbrev go_on :
    LocalContext → Option ℕ × SignalImpl → Outcome (SignalResult × SignalImpl × LocalContext)
go_on c (none, s) = returned (no_signal, s, c)
go_on c (some signum, s) = deliver signum s c

abbrev next : SignalImpl → LocalContext → Outcome (SignalResult × SignalImpl × LocalContext)
next s c = go_on c (take_deliverable_signal s)

handle_signals-idle :
    (s : SignalImpl) (c : LocalContext)
    → s.handling ≡ none
    → deliverable s sigkill ≡ false
    → handle_signals s c ≡ next s c
unfolding handle_signals
handle_signals-idle s c idle spared = ground (arith, idle, spared)

handle_signals-kill :
    (s : SignalImpl) (c : LocalContext)
    → deliverable s sigkill ≡ true
    → handle_signals s c ≡ returned (process_killed (kill_code sigkill), without sigkill s, c)
unfolding handle_signals
handle_signals-kill s c kill = ground (arith, kill)

handle_signals-cont :
    (s : SignalImpl) (c : LocalContext)
    → deliverable s sigkill ≡ false
    → s.handling ≡ some frozen
    → deliverable s sigcont ≡ true
    → handle_signals s c ≡ returned (handled, record (without sigcont s) { handling = none }, c)
unfolding handle_signals handle_frozen
handle_signals-cont s c spared e cont = ground (arith, spared, e, cont)

handle_signals-frozen :
    (s : SignalImpl) (c : LocalContext)
    → deliverable s sigkill ≡ false
    → s.handling ≡ some frozen
    → deliverable s sigcont ≡ false
    → handle_signals s c ≡ returned (process_suspended, s, c)
unfolding handle_signals handle_frozen
handle_signals-frozen s c spared e still = ground (arith, spared, e, still)

handle_signals-handler :
    (s : SignalImpl) (c saved : LocalContext)
    → deliverable s sigkill ≡ false
    → s.handling ≡ some (user_signal saved)
    → handle_signals s c ≡ returned (busy, s, c)
unfolding handle_signals
handle_signals-handler s c saved spared e = ground (arith, spared, e)

found-Delivery :
    (s : SignalImpl) (c : LocalContext)
    → IsSound s
    → HasRegs c
    → s.handling ≡ none
    → deliverable s sigkill ≡ false
    → (o : Option ℕ) → find_first_one s.received s.mask ≡ o
    → First s.received s.mask o
    → Handled s c (next s c)
found-Delivery s c sound full idle spared o e (nothing none_due) =
    (_, _, _, ap (go_on c) (take_none s e), nothing_due idle none_due)
found-Delivery s c sound full idle spared o e (lowest k within held free least) =
    let (lo, hi) = sound.valid k held in
    let (r, s', c', q, d) = deliver-Delivery s c k full idle spared (rw (held, free) refl, least) in
    (r, s', c', ap (go_on c) (take_lem s k lo hi e) ∙ q, d)

lowest-Delivery :
    (s : SignalImpl) (c : LocalContext)
    → IsSound s
    → HasRegs c
    → s.handling ≡ none
    → deliverable s sigkill ≡ false
    → Handled s c (next s c)
lowest-Delivery s c sound full idle spared =
    found-Delivery s c sound full idle spared (find_first_one s.received s.mask) refl
      (find_first_one-First s.received s.mask sound.received_word sound.mask_word)

pub handle_signals-Delivery :
    (s : SignalImpl) (c : LocalContext)
    → IsSound s
    → HasRegs c
    → (r : SignalResult) × (s' : SignalImpl) × (c' : LocalContext) × (handle_signals s c
        ≡ returned (r, s', c'))
      × Delivery s c r s' c'
handle_signals-Delivery s c sound full = elim (Bool-cases (deliverable s sigkill)) [
  | inl kill ↦ (_, _, _, handle_signals-kill s c kill, killed kill)
  | inr spared ↦ elim (Option-cases s.handling) [
    | inl idle ↦
        (let (r, s', c', e, d) = lowest-Delivery s c sound full idle spared in
          (r, s', c', handle_signals-idle s c idle spared ∙ e, d))
    | inr (frozen, e) ↦ elim (Bool-cases (deliverable s sigcont)) [
      | inl cont ↦ (_, _, _, handle_signals-cont s c spared e cont, resumed spared e cont)
      | inr still ↦ (_, _, _, handle_signals-frozen s c spared e still, still_frozen spared e still)
    ]
    | inr (user_signal saved, e) ↦
        (_, _, _, handle_signals-handler s c saved spared e, in_handler saved spared e)
  ]
]
