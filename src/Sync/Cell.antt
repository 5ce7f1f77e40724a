-- ===== src/Sync/Cell.antt =====
-- sync/src/lib.rs: `IntrState`, `push_off`, `pop_off` and `UPIntrFreeCell`. The `sie` bit of the
-- CPU, which `arch_intr` reads and writes on RISC-V, is the field `enabled`.
pub mod Session
use spec_to_rust_os.Prelude.{ℕ, ◌+◌, ◌-◌, ◌<◌, ◌≡◌, Bool, true, false, ◌&&◌, ◌==◌, if◌then◌else◌}
use spec_to_rust_os.Prelude.Panic.{Outcome, returned, panicked, ◌>>=◌}

-- `INTR_STATE`, with the interrupt bit of the CPU.
pub record IntrState : Type 0 where
  pub nesting : ℕ
  pub prev_enabled : Bool
  pub enabled : Bool

-- `Lazy::new` of `INTR_STATE`.
abbrev pub initial : Bool → IntrState
initial sie = record { nesting = 0; prev_enabled = false; enabled = sie }

unfoldable pub push_off : IntrState → IntrState
push_off s =
    if s.nesting == 0
    then record { nesting = s.nesting + 1; prev_enabled = s.enabled; enabled = false }
    else record s { nesting = s.nesting + 1 }

unfoldable pub pop_off : IntrState → Outcome IntrState
pop_off s =
    if s.nesting == 0
    then panicked
    else returned (record s {
      nesting = s.nesting - 1;
      enabled = if s.nesting - 1 == 0 && s.prev_enabled then true else s.enabled;
    })

-- `UPIntrFreeCell`: the value of the `RefCell`, and whether it is mutably borrowed.
pub record UpIntrFreeCell {ℓ} (A : Type ℓ) : Type ℓ where
  pub value : A
  pub borrowed : Bool

module _ {ℓ} {A : Type ℓ} where
  abbrev pub new : A → UpIntrFreeCell A
  new v = record { value = v; borrowed = false }

  -- The state under the guard; a cell that is borrowed already makes it pop and panic.
  unfoldable pub exclusive_access :
      IntrState → UpIntrFreeCell A → Outcome (IntrState × UpIntrFreeCell A)
  exclusive_access s c =
      if c.borrowed
      then (pop_off (push_off s) >>= λ _. panicked)
      else returned (push_off s, record c { borrowed = true })

  -- The guard's drop: `drop` pops first, and the borrow is released after it, with the field.
  unfoldable pub drop_pops : IntrState × UpIntrFreeCell A → Outcome (IntrState × UpIntrFreeCell A)
  drop_pops (s, c) = pop_off s >>= λ s'. returned (s', c)

  unfoldable pub drop_releases : IntrState × UpIntrFreeCell A → IntrState × UpIntrFreeCell A
  drop_releases (s, c) = (s, record c { borrowed = false })

  -- A session. `irq` is what an interrupt does that comes after the pop of the drop, where the guard
  -- may have turned interrupts on; elsewhere in the session they are off.
  abbrev pub interrupted_session {κ} :
      {B : Type κ}
      → (IntrState × UpIntrFreeCell A → Outcome (IntrState × UpIntrFreeCell A))
      → (A → Outcome (B × A))
      → IntrState
      → UpIntrFreeCell A
      → Outcome (B × IntrState × UpIntrFreeCell A)
  interrupted_session irq f s c = do
    (s₁, c₁) ← exclusive_access s c
    (v, a) ← f c₁.value
    held ← drop_pops (s₁, record c₁ { value = a })
    seen ← irq held
    let (s₂, c₂) = drop_releases seen
    returned (v, s₂, c₂)

  -- No interrupt comes.
  unfoldable pub exclusive_session {κ} :
      {B : Type κ}
      → (A → Outcome (B × A))
      → IntrState
      → UpIntrFreeCell A
      → Outcome (B × IntrState × UpIntrFreeCell A)
  exclusive_session = interrupted_session returned

-- Interrupts stay off while some session is open.
pub record IsMasked (s : IntrState) : Type 0 where
  pub off : 0 < s.nesting → s.enabled ≡ false
