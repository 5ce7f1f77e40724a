-- ===== src/Tests/Signal.antt =====
-- Runs of signal-impl/src/lib.rs and kernel-context/src/lib.rs.
use spec_to_rust_os.Prelude.{ℕ, ◌≡◌, refl, true, false, none, arith}
use spec_to_rust_os.Prelude.Panic.{Outcome, returned, panicked}
use spec_to_rust_os.KernelContext.{LocalContext, user, HasRegs, x_mut, a_mut}
use spec_to_rust_os.Prelude.Bits.{trailing_zeros}
use spec_to_rust_os.Signal.Set.{
  First, add_bit, remove_bit, difference, contain_bit, find_first_one, find_first_one-First,
}
use spec_to_rust_os.Signal.State.{
  SignalAction, SignalResult, handled, SignalImpl, new, add_signal, set_action, handle_signals,
  sig_return, take_deliverable_signal, valid_index, from_usize, deliver, act,
}
use spec_to_rust_os.Signal.State.Delivery.{IsSound, Delivery}
use spec_to_rust_os.Signal.State.Soundness.{
  new-IsSound, set_action-IsSound, add_signal-IsSound, handle_signals-takes,
}
use spec_to_rust_os.Signal.State.Actions.{sig_return-handle_signals}

abbrev context : LocalContext
context = user 4096

context-HasRegs : HasRegs context
unfolding user
context-HasRegs = refl

find_first_one-First_example : First 22 2 (find_first_one 22 2)
find_first_one-First_example = find_first_one-First 22 2 (omega arith) (omega arith)

abbrev interrupted : SignalImpl
interrupted = add_signal 2 new

interrupted-IsSound : IsSound interrupted
interrupted-IsSound = add_signal-IsSound 2 new new-IsSound

handle_signals-takes_example :
    (r : SignalResult) × (s' : SignalImpl) × (c' : LocalContext) × (handle_signals interrupted
        context
      ≡ returned (r, s', c'))
    × IsSound s'
    × (s'.mask ≡ interrupted.mask)
    × (s'.actions ≡ interrupted.actions)
    × ((j : ℕ) → contain_bit s'.received j ≡ true → contain_bit interrupted.received j ≡ true)
    × ((j : ℕ)
        → contain_bit interrupted.received j ≡ true
        → contain_bit s'.received j ≡ false
        → contain_bit interrupted.mask j ≡ false)
handle_signals-takes_example =
    handle_signals-takes interrupted context interrupted-IsSound context-HasRegs

abbrev action : SignalAction
action = record { handler = 8192; mask = 0 }

-- SIGINT is pending and has a handler.
abbrev ready : SignalImpl
ready = (set_action 2 action interrupted).1

ready-IsSound : IsSound ready
ready-IsSound =
    set_action-IsSound 2 action interrupted ready (set_action 2 action interrupted).0
      interrupted-IsSound refl

abbrev state_after : Outcome (SignalResult × SignalImpl × LocalContext) → SignalImpl
state_after (returned (r, s, c)) = s
state_after panicked = new

abbrev context_after : Outcome (SignalResult × SignalImpl × LocalContext) → LocalContext
context_after (returned (r, s, c)) = c
context_after panicked = context

abbrev in_handler : SignalImpl
in_handler = state_after (handle_signals ready context)

enters :
    handle_signals ready context
    ≡ returned (handled, in_handler, context_after (handle_signals ready context))
unfolding handle_signals take_deliverable_signal add_signal set_action new find_first_one
    contain_bit valid_index trailing_zeros difference add_bit from_usize deliver act a_mut x_mut
    user remove_bit
enters = refl

idle : ready.handling ≡ none
unfolding set_action add_signal new valid_index
idle = refl

sig_return-handle_signals_example :
    sig_return in_handler (user 12288) ≡ (true, record in_handler { handling = none }, context)
sig_return-handle_signals_example =
    sig_return-handle_signals ready in_handler context
      (context_after (handle_signals ready context)) (user 12288) ready-IsSound context-HasRegs idle
      enters
