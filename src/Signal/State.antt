-- ===== src/Signal/State.antt =====
-- signal-defs/src/lib.rs: `SignalNo`, which is its discriminant here, and `SignalAction`;
-- signal/src/lib.rs: `SignalResult`; signal-impl/src/lib.rs: `SignalImpl` and its operations.
use spec_to_rust_os.Prelude.{
  ℕ, ◌-◌, ◌%◌, ◌^◌, Bool, true, false, not, ◌&&◌, ◌||◌, Option, none, some, List, ltb, ◌==◌,
  if◌then◌else◌, get_or, set, replicate,
}
use spec_to_rust_os.Prelude.Panic.{Outcome, returned, ◌>>=◌}
use spec_to_rust_os.KernelContext.{LocalContext, pc_mut, a_mut}
pub mod Actions
pub mod Delivery
pub mod Soundness
use spec_to_rust_os.Signal.Set.{add_bit, remove_bit, contain_bit, find_first_one}

-- The variants are numbered 0 (ERR) to 63 (SIGRT31) without a gap.
unfoldable pub from_usize : ℕ → ℕ
from_usize num = let num_u8 = num % 256 in if ltb num_u8 64 then num_u8 else 0

abbrev pub max_sig : ℕ
max_sig = 31

abbrev pub sigkill : ℕ
sigkill = 9

abbrev pub sigchld : ℕ
sigchld = 17

abbrev pub sigcont : ℕ
sigcont = 18

abbrev pub sigstop : ℕ
sigstop = 19

abbrev pub sigurg : ℕ
sigurg = 23

pub record SignalAction : Type 0 where
  pub handler : ℕ
  pub mask : ℕ

abbrev pub default_action : SignalAction
default_action = record { handler = 0; mask = 0 }

pub data SignalResult : Type 0 where
  no_signal : SignalResult
  busy : SignalResult
  ignored : SignalResult
  handled : SignalResult
  process_killed : ℕ → SignalResult
  process_suspended : SignalResult

pub data HandlingSignal : Type 0 where
  frozen : HandlingSignal
  user_signal : LocalContext → HandlingSignal

pub record SignalImpl : Type 0 where
  pub received : ℕ
  pub mask : ℕ
  pub handling : Option HandlingSignal
  pub actions : List (Option SignalAction)

unfoldable pub new : SignalImpl
new = record { received = 0; mask = 0; handling = none; actions = replicate 32 none }

unfoldable pub valid_index : ℕ → Option ℕ
valid_index signum = if signum == 0 || ltb max_sig signum then none else some signum

-- The negation as an i32, in two's complement.
abbrev pub kill_code : ℕ → ℕ
kill_code signum = (2 ^ 32 - signum) % 2 ^ 32

unfoldable pub should_ignore_by_default : ℕ → Bool
should_ignore_by_default signum = signum == sigchld || (signum == sigurg || signum == sigcont)

unfoldable pub take_deliverable_signal : SignalImpl → Option ℕ × SignalImpl
take_deliverable_signal s = elim (find_first_one s.received s.mask) [
  | none ↦ (none, s)
  | some k ↦
      (let signum = from_usize k in
        (
          elim (valid_index signum) [ none ↦ none | some _ ↦ some signum ],
          record s { received = remove_bit k s.received },
        ))
]

unfoldable pub handle_frozen : SignalImpl → SignalResult × SignalImpl
handle_frozen s =
    if contain_bit s.received sigcont && not (contain_bit s.mask sigcont)
    then (handled, record s { received = remove_bit sigcont s.received; handling = none })
    else (process_suspended, s)

unfoldable pub from_fork : SignalImpl → SignalImpl
from_fork s = record { received = 0; mask = s.mask; handling = none; actions = s.actions }

unfoldable pub clear : SignalImpl → SignalImpl
clear s = record s { received = 0; mask = 0; handling = none; actions = replicate 32 none }

unfoldable pub add_signal : ℕ → SignalImpl → SignalImpl
add_signal signum s = elim (valid_index signum) [
  | none ↦ s
  | some idx ↦ record s { received = add_bit idx s.received }
]

unfoldable pub is_handling_signal : SignalImpl → Bool
is_handling_signal s = elim s.handling [ none ↦ false | some _ ↦ true ]

unfoldable pub set_action : ℕ → SignalAction → SignalImpl → Bool × SignalImpl
set_action signum action s =
    if signum == sigkill || signum == sigstop then (false, s) else elim (valid_index signum) [
      | none ↦ (false, s)
      | some idx ↦ (true, record s { actions = set s.actions idx (some action) })
    ]

abbrev pub unwrap_or_default : Option SignalAction → SignalAction
unwrap_or_default none = default_action
unwrap_or_default (some action) = action

-- The action at a valid index, which lies within the array.
abbrev pub action_at : ℕ → SignalImpl → SignalAction
action_at idx s = unwrap_or_default (get_or s.actions idx none)

unfoldable pub get_action_ref : ℕ → SignalImpl → Option SignalAction
get_action_ref signum s =
    if signum == sigkill || signum == sigstop
    then none
    else elim (valid_index signum) [ none ↦ none | some idx ↦ some (action_at idx s) ]

unfoldable pub update_mask : ℕ → SignalImpl → ℕ × SignalImpl
update_mask mask s = (s.mask, record s { mask = mask })

-- The arm of a signal that is neither SIGKILL nor SIGSTOP.
unfoldable pub act :
    ℕ → SignalImpl → LocalContext → Outcome (SignalResult × SignalImpl × LocalContext)
act signum s c =
    let action = action_at signum s in
    if not (action.handler == 0)
    then (a_mut 0 signum (pc_mut action.handler c) >>= λ c'.
        returned (handled, record s { handling = some (user_signal c) }, c'))
    else if should_ignore_by_default signum
    then returned (ignored, s, c)
    else returned (process_killed (kill_code signum), s, c)

unfoldable pub deliver :
    ℕ → SignalImpl → LocalContext → Outcome (SignalResult × SignalImpl × LocalContext)
deliver signum s c =
    if signum == sigkill
    then returned (process_killed (kill_code signum), s, c)
    else if signum == sigstop
    then returned (process_suspended, record s { handling = some frozen }, c)
    else act signum s c

unfoldable pub handle_signals :
    SignalImpl → LocalContext → Outcome (SignalResult × SignalImpl × LocalContext)
handle_signals s c =
    if contain_bit s.received sigkill && not (contain_bit s.mask sigkill)
    then returned (
      process_killed (kill_code sigkill),
      record s { received = remove_bit sigkill s.received },
      c,
    )
    else elim s.handling [
      | some frozen ↦ (let (r, s') = handle_frozen s in returned (r, s', c))
      | some (user_signal _) ↦ returned (busy, s, c)
      | none ↦
          (let (taken, s') = take_deliverable_signal s in
            elim taken [ none ↦ returned (no_signal, s', c) | some signum ↦ deliver signum s' c ])
    ]

unfoldable pub sig_return : SignalImpl → LocalContext → Bool × SignalImpl × LocalContext
sig_return s c = elim s.handling [
  | none ↦ (false, record s { handling = none }, c)
  | some frozen ↦ (false, record s { handling = some frozen }, c)
  | some (user_signal saved_ctx) ↦ (true, record s { handling = none }, saved_ctx)
]
