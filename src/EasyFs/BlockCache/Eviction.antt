-- ===== src/EasyFs/BlockCache/Eviction.antt =====
-- `evict` of the model of easy-fs/src/block_cache.rs: the replacement of a slot loses nothing.
use spec_to_rust_os.Prelude.{
  ℕ, suc, ◌≡◌, refl, sym, ap, ◌∙◌, Bool, true, false, Option, none, some, List, [], ◌∷◌, ◌==◌,
  if◌then◌else◌, length, Bool-cases, inl, inr, arith,
}
use spec_to_rust_os.Prelude.Map.{lookup}
use spec_to_rust_os.EasyFs.Disk.{Disk, write_block}
use spec_to_rust_os.EasyFs.BlockCache.{BlockCache, sync, drop_cache, Queue, evict}

-- What a reader sees of a block: the cache of the block if there is one, else the disk.
abbrev pub cached : Option BlockCache → List ℕ → List ℕ
cached none bytes = bytes
cached (some c) bytes = c.cache

abbrev pub visible : Queue → Disk → Disk
visible queue disk j = cached (lookup j queue) (disk j)

-- Each block has one slot, under its own number, and a slot that was not written agrees with the disk.
pub data IsCoherent (disk : Disk) : Queue → Type 0 where
  no_slots : IsCoherent disk []
  slot :
      (id : ℕ) (c : BlockCache) (queue : Queue)
      → lookup id queue ≡ none
      → c.block_id ≡ id
      → (c.modified ≡ false → c.cache ≡ disk id)
      → IsCoherent disk queue
      → IsCoherent disk ((id, c) ∷ queue)

pub lookup-absent :
    (id k : ℕ) (c : BlockCache) (queue : Queue)
    → lookup id ((k, c) ∷ queue) ≡ none
    → ((k == id) ≡ false) × (lookup id queue ≡ none)
unfolding lookup
lookup-absent id k c queue absent = (ground (arith, absent), ground (arith, absent))

-- A change of the disk at one block, which has no slot.
pub IsCoherent-change :
    (id : ℕ) (disk disk' : Disk) (queue : Queue)
    → lookup id queue ≡ none
    → ((j : ℕ) → (j == id) ≡ false → disk' j ≡ disk j)
    → IsCoherent disk queue
    → IsCoherent disk' queue
IsCoherent-change id disk disk' queue absent same no_slots = no_slots
IsCoherent-change id disk disk' queue absent same (slot k c q fresh own agree rest) =
    let (apart, beyond) = lookup-absent id k c q absent in
    slot k c q fresh own (λ clean. agree clean ∙ sym (same k apart))
      (IsCoherent-change id disk disk' q beyond same rest)

-- Dropping a slot writes what it holds, if it was written.
pub drop_cache_lem :
    (id : ℕ) (c : BlockCache) (disk : Disk) (j : ℕ)
    → c.block_id ≡ id
    → (c.modified ≡ false → c.cache ≡ disk id)
    → drop_cache c disk j ≡ (if j == id then c.cache else disk j)
unfolding drop_cache sync write_block
drop_cache_lem id c disk j own agree = elim (Bool-cases c.modified) [
  | inl dirty ↦ ground (arith, dirty, own)
  | inr clean ↦ ground (arith, clean, agree clean)
]

-- What `evict` leaves: one slot less, and every block as it was seen.
pub record Evicted (queue : Queue) (disk : Disk) (queue' : Queue) (disk' : Disk) : Type 0 where
  pub coherent : IsCoherent disk' queue'
  pub shorter : length queue ≡ suc (length queue')
  pub absent : (j : ℕ) → lookup j queue ≡ none → lookup j queue' ≡ none
  pub untouched : (j : ℕ) → lookup j queue ≡ none → disk' j ≡ disk j
  pub seen : (j : ℕ) → visible queue' disk' j ≡ visible queue disk j

pub cached_at : (o : Option BlockCache) {x y : List ℕ} → x ≡ y → cached o x ≡ cached o y
cached_at o e = ap (cached o) e

evict-here :
    (id : ℕ) (c : BlockCache) (queue : Queue) (disk : Disk)
    → lookup id queue ≡ none
    → c.block_id ≡ id
    → (c.modified ≡ false → c.cache ≡ disk id)
    → IsCoherent disk queue
    → Evicted ((id, c) ∷ queue) disk queue (drop_cache c disk)
unfolding lookup
evict-here id c queue disk fresh own agree rest = record {
  coherent =
      IsCoherent-change id disk (drop_cache c disk) queue fresh
        (λ j apart. rw (drop_cache_lem id c disk j own agree, apart) refl) rest;
  shorter = refl;
  absent = λ j gone. (lookup-absent j id c queue gone).1;
  untouched = λ j gone.
      ground (arith, (lookup-absent j id c queue gone).0, drop_cache_lem id c disk j own agree);
  seen = λ j. elim (Bool-cases (id == j)) [
    | inl own_block ↦
        (let e : id ≡ j = ground (arith, own_block) in
          let gone : lookup j queue ≡ none = rw (sym e) fresh in
          rw (own_block, gone) (drop_cache_lem id c disk j own agree ∙ ground (arith, e)))
    | inr other ↦
        rw other (
          cached_at (lookup j queue) (drop_cache_lem id c disk j own agree ∙ ground (arith, other)))
  ];
}

evict-later :
    (id : ℕ) (c : BlockCache) (queue queue' : Queue) (disk disk' : Disk)
    → lookup id queue ≡ none
    → c.block_id ≡ id
    → (c.modified ≡ false → c.cache ≡ disk id)
    → Evicted queue disk queue' disk'
    → Evicted ((id, c) ∷ queue) disk ((id, c) ∷ queue') disk'
unfolding lookup
evict-later id c queue queue' disk disk' fresh own agree out = record {
  coherent =
      slot id c queue' (out.absent id fresh) own
        (λ clean. agree clean ∙ sym (out.untouched id fresh)) out.coherent;
  shorter = ap suc out.shorter;
  absent = λ j gone. ground (arith, lookup-absent j id c queue gone, out.absent j);
  untouched = λ j gone. out.untouched j (lookup-absent j id c queue gone).1;
  seen = λ j. elim (Bool-cases (id == j)) [
    | inl own_block ↦ rw own_block refl
    | inr other ↦ rw other (out.seen j)
  ];
}

-- There is a free slot.
abbrev pub has_free : (ℕ → Bool) → Queue → Bool
has_free is_free [] = false
has_free is_free ((id, c) ∷ queue) = if is_free id then true else has_free is_free queue

pub evict-Evicted :
    (is_free : ℕ → Bool) (queue : Queue) (disk : Disk)
    → IsCoherent disk queue
    → has_free is_free queue ≡ true
    → (queue' : Queue) × (disk' : Disk) × (evict is_free queue disk ≡ some (queue', disk'))
      × Evicted queue disk queue' disk'
unfolding evict
evict-Evicted is_free [] disk no_slots h = ground (arith, h)
evict-Evicted is_free ((id, c) ∷ queue) disk (slot _ _ _ fresh own agree rest) h =
    elim (Bool-cases (is_free id)) [
      | inl free ↦ (
        queue,
        drop_cache c disk,
        rw (evict, free) refl,
        evict-here id c queue disk fresh own agree rest,
      )
      | inr held ↦
          (let (queue', disk', e, out) =
              evict-Evicted is_free queue disk rest (ground (arith, held, h)) in
            (
              (id, c) ∷ queue',
              disk',
              rw (evict, held, e) refl,
              evict-later id c queue queue' disk disk' fresh own agree out,
            ))
    ]
