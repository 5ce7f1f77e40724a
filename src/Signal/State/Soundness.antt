-- ===== src/Signal/State/Soundness.antt =====
-- The operations of `SignalImpl` (signal-impl/src/lib.rs) keep its state sound, and a delivery takes at
-- most one signal, which is not masked.
use spec_to_rust_os.Prelude.{
  ℕ, ◌^◌, ◌≡◌, refl, sym, Bool, true, false, ◌||◌, Option, none, some, ltb, ◌==◌, Bool-cases, inl,
  inr, arith, length-set, ap,
}
use spec_to_rust_os.Prelude.Bits.{bit_and-le}
use spec_to_rust_os.Prelude.Panic.{returned}
use spec_to_rust_os.KernelContext.{LocalContext, HasRegs}
use spec_to_rust_os.Signal.Set.{
  remove_bit, contain_bit, contain_bit-remove_bit, contain_bit-add_bit, remove_bit-IsWord,
  add_bit-IsWord,
}
use spec_to_rust_os.Signal.State.{
  max_sig, sigkill, sigcont, sigstop, SignalAction, SignalResult, HandlingSignal, frozen,
  user_signal, SignalImpl, new, valid_index, add_signal, set_action, handle_signals,
}
use spec_to_rust_os.Signal.State.Delivery.{
  deliverable, without, IsSound, Delivery, killed, resumed, still_frozen, in_handler, nothing_due,
  stopped, entered, dropped, killed_by_default, handle_signals-Delivery,
}

-- Soundness is about the words and the array alone.
without-IsSound :
    (s : SignalImpl) (h : Option HandlingSignal) (k : ℕ)
    → IsSound s
    → IsSound (record (without k s) { handling = h })
without-IsSound s h k sound = record {
  received_word = remove_bit-IsWord k s.received sound.received_word;
  mask_word = sound.mask_word;
  actions_full = sound.actions_full;
  valid = λ j held.
      sound.valid j
        (ground (arith, held, contain_bit-remove_bit k s.received j sound.received_word));
}

pub Delivery-IsSound :
    (s : SignalImpl) (c : LocalContext) (r : SignalResult) (s' : SignalImpl) (c' : LocalContext)
    → IsSound s
    → Delivery s c r s' c'
    → IsSound s'
Delivery-IsSound s c r s' c' sound (killed d) = without-IsSound s s.handling sigkill sound
Delivery-IsSound s c r s' c' sound (resumed n h d) = without-IsSound s none sigcont sound
Delivery-IsSound s c r s' c' sound (still_frozen n h d) = sound
Delivery-IsSound s c r s' c' sound (in_handler saved n h) = sound
Delivery-IsSound s c r s' c' sound (nothing_due h d) = sound
Delivery-IsSound s c r s' c' sound (stopped h d) = without-IsSound s (some frozen) sigstop sound
Delivery-IsSound s c r s' c' sound (entered k c'' h d n a e) =
    without-IsSound s (some (user_signal c)) k sound
Delivery-IsSound s c r s' c' sound (dropped k h d n a i) = without-IsSound s s.handling k sound
Delivery-IsSound s c r s' c' sound (killed_by_default k h d n a i) =
    without-IsSound s s.handling k sound

pub new-IsSound : IsSound new
unfolding new contain_bit
new-IsSound = record {
  received_word = ground arith;
  mask_word = ground arith;
  actions_full = refl;
  valid = λ k held. ground (arith, held, bit_and-le 0 (2 ^ k));
}

pub add_signal-IsSound : (k : ℕ) (s : SignalImpl) → IsSound s → IsSound (add_signal k s)
unfolding add_signal valid_index
add_signal-IsSound k s sound = elim (Bool-cases (k == 0 || ltb max_sig k)) [
  | inl invalid ↦ rw (add_signal, invalid) sound
  | inr fits ↦
      rw (add_signal, fits)
        record {
          received_word = add_bit-IsWord k s.received sound.received_word;
          mask_word = sound.mask_word;
          actions_full = sound.actions_full;
          valid = λ j held.
              ground (
                arith,
                held,
                contain_bit-add_bit k s.received j sound.received_word,
                sound.valid j,
              );
        }
]

kept :
    (k : ℕ) (action : SignalAction) (s : SignalImpl) → IsSound s → IsSound (set_action k action s).1
unfolding set_action valid_index
kept k action s sound = record {
  received_word = ground (arith, sound.received_word);
  mask_word = ground (arith, sound.mask_word);
  actions_full = ground (arith, sound.actions_full, length-set s.actions k (some action));
  valid = λ j held. sound.valid j (ground (arith, held));
}

pub set_action-IsSound :
    (k : ℕ) (action : SignalAction) (s s' : SignalImpl) (done : Bool)
    → IsSound s
    → set_action k action s ≡ (done, s')
    → IsSound s'
set_action-IsSound k action s s' done sound e = rw (ap (λ p. p.1) (sym e)) (kept k action s sound)

-- At most one signal is taken, which was received and not masked.
data Taken (s s' : SignalImpl) : Type 0 where
  nothing : s'.received ≡ s.received → Taken s s'
  one : (k : ℕ) → deliverable s k ≡ true → s'.received ≡ remove_bit k s.received → Taken s s'

Delivery-Taken :
    (s : SignalImpl) (c : LocalContext) (r : SignalResult) (s' : SignalImpl) (c' : LocalContext)
    → Delivery s c r s' c'
    → (s'.mask ≡ s.mask) × (s'.actions ≡ s.actions) × Taken s s'
Delivery-Taken s c r s' c' (killed d) = (refl, refl, one sigkill d refl)
Delivery-Taken s c r s' c' (resumed n h d) = (refl, refl, one sigcont d refl)
Delivery-Taken s c r s' c' (still_frozen n h d) = (refl, refl, nothing refl)
Delivery-Taken s c r s' c' (in_handler saved n h) = (refl, refl, nothing refl)
Delivery-Taken s c r s' c' (nothing_due h d) = (refl, refl, nothing refl)
Delivery-Taken s c r s' c' (stopped h (d, l)) = (refl, refl, one sigstop d refl)
Delivery-Taken s c r s' c' (entered k c'' h (d, l) n a e) = (refl, refl, one k d refl)
Delivery-Taken s c r s' c' (dropped k h (d, l) n a i) = (refl, refl, one k d refl)
Delivery-Taken s c r s' c' (killed_by_default k h (d, l) n a i) = (refl, refl, one k d refl)

only_less :
    (s s' : SignalImpl) (j : ℕ)
    → IsSound s
    → Taken s s'
    → contain_bit s'.received j ≡ true
    → contain_bit s.received j ≡ true
only_less s s' j sound (nothing e) h = rw e at h
only_less s s' j sound (one k due e) h =
    ground (arith, rw e at h, contain_bit-remove_bit k s.received j sound.received_word)

only_due :
    (s s' : SignalImpl) (j : ℕ)
    → IsSound s
    → Taken s s'
    → contain_bit s.received j ≡ true
    → contain_bit s'.received j ≡ false
    → contain_bit s.mask j ≡ false
only_due s s' j sound (nothing e) h l = ground (arith, h, rw e at l)
only_due s s' j sound (one k due e) h l =
    let same : k ≡ j =
      ground (arith, h, rw e at l, contain_bit-remove_bit k s.received j sound.received_word) in
    let free : contain_bit s.mask k ≡ false = ground (arith, due) in rw (sym same) free

-- Whatever `handle_signals` does, it adds no signal, and a signal that it takes was not masked.
pub handle_signals-takes :
    (s : SignalImpl) (c : LocalContext)
    → IsSound s
    → HasRegs c
    → (r : SignalResult) × (s' : SignalImpl) × (c' : LocalContext) × (handle_signals s c
        ≡ returned (r, s', c'))
      × IsSound s'
      × (s'.mask ≡ s.mask)
      × (s'.actions ≡ s.actions)
      × ((j : ℕ) → contain_bit s'.received j ≡ true → contain_bit s.received j ≡ true)
      × ((j : ℕ)
          → contain_bit s.received j ≡ true
          → contain_bit s'.received j ≡ false
          → contain_bit s.mask j ≡ false)
handle_signals-takes s c sound full =
    let (r, s', c', e, d) = handle_signals-Delivery s c sound full in
    let (keep_mask, keep_actions, taken) = Delivery-Taken s c r s' c' d in
    (
      r,
      s',
      c',
      e,
      Delivery-IsSound s c r s' c' sound d,
      keep_mask,
      keep_actions,
      λ j h. only_less s s' j sound taken h,
      λ j h l. only_due s s' j sound taken h l,
    )
