-- ===== src/EasyFs/BlockCache/Transparency.antt =====
-- The block cache of easy-fs/src/block_cache.rs is transparent: what a reader sees of a block does not
-- depend on which blocks are in the cache.
use spec_to_rust_os.Prelude.{
  ℕ, ◌≤◌, ◌<◌, ◌≡◌, refl, sym, ap, ◌∙◌, Bool, true, none, some, [], ◌∷◌, ◌++◌, ◌==◌, if◌then◌else◌,
  length, length-append, Bool-cases, Option-cases, inl, inr, arith,
}
use spec_to_rust_os.Prelude.Map.{lookup}
use spec_to_rust_os.Prelude.Panic.{returned}
use spec_to_rust_os.EasyFs.Disk.{Disk}
use spec_to_rust_os.EasyFs.BlockCache.{
  BlockCache, new, Queue, block_cache_size, make_room, get_block_cache,
}
use spec_to_rust_os.EasyFs.BlockCache.Eviction.{
  visible, IsCoherent, no_slots, slot, lookup-absent, has_free, evict-Evicted,
}

-- A new slot at the end of the queue.
lookup-append :
    (id j : ℕ) (c : BlockCache) (queue : Queue)
    → lookup id queue ≡ none
    → lookup j (queue ++ ((id, c) ∷ [])) ≡ (if id == j then some c else lookup j queue)
unfolding lookup
lookup-append id j c [] absent = ground arith
lookup-append id j c ((k, d) ∷ queue) absent =
    let (apart, beyond) = lookup-absent id k d queue absent in
    ground (arith, apart, lookup-append id j c queue beyond)

IsCoherent-append :
    (id : ℕ) (disk : Disk) (queue : Queue)
    → lookup id queue ≡ none
    → IsCoherent disk queue
    → IsCoherent disk (queue ++ ((id, new id disk) ∷ []))
unfolding new lookup
IsCoherent-append id disk queue absent no_slots =
    slot id (new id disk) [] refl refl (λ clean. refl) no_slots
IsCoherent-append id disk queue absent (slot k c q fresh own agree rest) =
    let (apart, beyond) = lookup-absent id k c q absent in
    slot k c (q ++ ((id, new id disk) ∷ []))
      (lookup-append id k (new id disk) q beyond ∙ ground (arith, apart, fresh)) own agree
      (IsCoherent-append id disk q beyond rest)

make_room_lem :
    (is_free : ℕ → Bool) (queue : Queue) (disk : Disk)
    → IsCoherent disk queue
    → length queue ≤ block_cache_size
    → (length queue ≡ block_cache_size → has_free is_free queue ≡ true)
    → (queue' : Queue) × (disk' : Disk) × (make_room is_free queue disk ≡ returned (queue', disk'))
      × IsCoherent disk' queue'
      × (length queue' < block_cache_size)
      × ((j : ℕ) → lookup j queue ≡ none → lookup j queue' ≡ none)
      × ((j : ℕ) → visible queue' disk' j ≡ visible queue disk j)
unfolding make_room
make_room_lem is_free queue disk ok fits room =
    elim (Bool-cases (length queue == block_cache_size)) [
      | inl full ↦
          (let (queue', disk', e, out) =
              evict-Evicted is_free queue disk ok (room (ground (arith, full))) in
            (
              queue',
              disk',
              rw (make_room, full, e) refl,
              out.coherent,
              ground (arith, full, out.shorter),
              out.absent,
              out.seen,
            ))
      | inr less ↦ (
        queue,
        disk,
        rw (make_room, less) refl,
        ok,
        ground (arith, less, fits),
        λ j gone. gone,
        λ j. refl,
      )
    ]

new-visible :
    (id : ℕ) (queue : Queue) (disk : Disk)
    → lookup id queue ≡ none
    → (new id disk).cache ≡ visible queue disk id
unfolding new
new-visible id queue disk gone = rw gone refl

visible-append :
    (id j : ℕ) (queue : Queue) (disk : Disk)
    → lookup id queue ≡ none
    → visible (queue ++ ((id, new id disk) ∷ [])) disk j ≡ visible queue disk j
unfolding new
visible-append id j queue disk gone = elim (Bool-cases (id == j)) [
  | inl own_block ↦
      (let e : id ≡ j = ground (arith, own_block) in
        let absent : lookup j queue ≡ none = rw (sym e) gone in
        rw (lookup-append id j (new id disk) queue gone, own_block, absent) (ap disk e))
  | inr other ↦ rw (lookup-append id j (new id disk) queue gone, other) refl
]

-- If a slot is free whenever all sixteen are taken, `get_block_cache` returns: the block has a slot then,
-- which holds what a reader saw of it before, no more than sixteen slots are taken, the queue stays
-- coherent with the disk, and every block is seen as before.
pub get_block_cache_lem :
    (is_free : ℕ → Bool) (id : ℕ) (queue : Queue) (disk : Disk)
    → IsCoherent disk queue
    → length queue ≤ block_cache_size
    → (length queue ≡ block_cache_size → has_free is_free queue ≡ true)
    → (queue' : Queue) × (disk' : Disk) × (c : BlockCache) × (get_block_cache is_free id queue disk
        ≡ returned (queue', disk'))
      × (lookup id queue' ≡ some c)
      × (c.cache ≡ visible queue disk id)
      × IsCoherent disk' queue'
      × (length queue' ≤ block_cache_size)
      × ((j : ℕ) → visible queue' disk' j ≡ visible queue disk j)
unfolding get_block_cache
get_block_cache_lem is_free id queue disk ok fits room = elim (Option-cases (lookup id queue)) [
  | inr (c, hit) ↦
      (queue, disk, c, rw (get_block_cache, hit) refl, hit, rw hit refl, ok, fits, λ j. refl)
  | inl miss ↦
      (let (queue1, disk1, e, ok1, fits1, absent, seen) =
          make_room_lem is_free queue disk ok fits room in
        let gone = absent id miss in
        let c = new id disk1 in
        let found : (j : ℕ)
            → lookup j (queue1 ++ ((id, c) ∷ [])) ≡ (if id == j then some c else lookup j queue1) =
          λ j. lookup-append id j c queue1 gone in
        (
          queue1 ++ ((id, c) ∷ []),
          disk1,
          c,
          rw (get_block_cache, miss, e) refl,
          found id ∙ ground arith,
          new-visible id queue1 disk1 gone ∙ seen id,
          IsCoherent-append id disk1 queue1 gone ok1,
          omega (arith, fits1, length-append queue1 ((id, c) ∷ [])),
          λ j. visible-append id j queue1 disk1 gone ∙ seen j,
        ))
]
