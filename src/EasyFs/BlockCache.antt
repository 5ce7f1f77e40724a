-- ===== src/EasyFs/BlockCache.antt =====
-- easy-fs/src/block_cache.rs: `BlockCache` and `BlockCacheManager`. A handle is the number of its block, by
-- which it shares the slot in the queue. Whether a slot has no handle but that of the queue
-- (`Arc::strong_count`) is a parameter, `is_free`. The device is a disk.
use spec_to_rust_os.Prelude.{
  ℕ, ◌+◌, ◌≤◌, ◌≡◌, Bool, true, false, Option, none, some, List, [], ◌∷◌, ◌++◌, leb, ◌==◌,
  if◌then◌else◌, length, take, drop,
}
use spec_to_rust_os.Prelude.Map.{lookup, modify}
use spec_to_rust_os.Prelude.Panic.{Outcome, returned, panicked, ◌>>=◌}
use spec_to_rust_os.EasyFs.Disk.{Disk, block_sz, write_block}
pub mod Eviction
pub mod Transparency
pub mod Writeback

pub record BlockCache : Type 0 where
  pub cache : List ℕ
  pub block_id : ℕ
  pub modified : Bool

unfoldable pub new : ℕ → Disk → BlockCache
new id disk = record { cache = disk id; block_id = id; modified = false }

-- The bytes of a value of `size` bytes.
unfoldable pub get_ref : ℕ → ℕ → BlockCache → Outcome (List ℕ)
get_ref offset size c =
    if leb (offset + size) block_sz then returned (take size (drop offset c.cache)) else panicked

-- A write of the bytes through the reference that `get_mut` gives.
unfoldable pub get_mut : ℕ → ℕ → (List ℕ → List ℕ) → BlockCache → Outcome BlockCache
get_mut offset size f c =
    if leb (offset + size) block_sz
    then returned (record c {
      modified = true;
      cache =
          take offset c.cache
          ++ (f (take size (drop offset c.cache)) ++ drop (offset + size) c.cache);
    })
    else panicked

unfoldable pub sync : BlockCache → Disk → BlockCache × Disk
sync c disk =
    if c.modified
    then (record c { modified = false }, write_block c.block_id c.cache disk)
    else (c, disk)

-- `Drop::drop`
unfoldable pub drop_cache : BlockCache → Disk → Disk
drop_cache c disk = (sync c disk).1

abbrev pub Queue : Type 0
Queue = List (ℕ × BlockCache)

abbrev pub block_cache_size : ℕ
block_cache_size = 16

-- The first slot that is free leaves the queue, and its cache is dropped.
unfoldable pub evict : (ℕ → Bool) → Queue → Disk → Option (Queue × Disk)
evict is_free [] disk = none
evict is_free ((id, c) ∷ queue) disk =
    let rest = evict is_free queue disk in
    if is_free id
    then some (queue, drop_cache c disk)
    else elim rest [ none ↦ none | some (queue', disk') ↦ some ((id, c) ∷ queue', disk') ]

unfoldable pub make_room : (ℕ → Bool) → Queue → Disk → Outcome (Queue × Disk)
make_room is_free queue disk =
    if length queue == block_cache_size
    then elim (evict is_free queue disk) [ none ↦ panicked | some room ↦ returned room ]
    else returned (queue, disk)

unfoldable pub get_block_cache : (ℕ → Bool) → ℕ → Queue → Disk → Outcome (Queue × Disk)
get_block_cache is_free id queue disk = elim (lookup id queue) [
  | some _ ↦ returned (queue, disk)
  | none ↦
      (make_room is_free queue disk >>= λ (queue', disk').
      returned (queue' ++ ((id, new id disk') ∷ []), disk'))
]

unfoldable pub block_cache_sync_all : Queue → Disk → Queue × Disk
block_cache_sync_all [] disk = ([], disk)
block_cache_sync_all ((id, c) ∷ queue) disk =
    let (c', disk') = sync c disk in
    let (queue', disk'') = block_cache_sync_all queue disk' in ((id, c') ∷ queue', disk'')
