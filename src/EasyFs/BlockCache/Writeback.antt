-- ===== src/EasyFs/BlockCache/Writeback.antt =====
-- `block_cache_sync_all` of easy-fs/src/block_cache.rs brings the disk up to date.
use spec_to_rust_os.Prelude.{
  ℕ, ◌≡◌, refl, sym, ◌∙◌, none, [], ◌∷◌, ◌==◌, Bool-cases, inl, inr, arith,
}
use spec_to_rust_os.Prelude.Map.{lookup}
use spec_to_rust_os.EasyFs.Disk.{Disk}
use spec_to_rust_os.EasyFs.BlockCache.{BlockCache, sync, drop_cache, Queue, block_cache_sync_all}
use spec_to_rust_os.EasyFs.BlockCache.Eviction.{
  visible, IsCoherent, slot, IsCoherent-change, drop_cache_lem, cached_at,
}

sync-cache : (c : BlockCache) (disk : Disk) → (sync c disk).0.cache ≡ c.cache
unfolding sync
sync-cache c disk = elim (Bool-cases c.modified) [
  | inl dirty ↦ ground (arith, dirty)
  | inr clean ↦ ground (arith, clean)
]

-- In a coherent state `block_cache_sync_all` leaves on the disk, for every block, what a reader saw of it,
-- and every block is seen as before.
pub block_cache_sync_all_lem :
    (queue : Queue) (disk : Disk) (j : ℕ)
    → IsCoherent disk queue
    → let (queue', disk') = block_cache_sync_all queue disk in
      (disk' j ≡ visible queue disk j) × (visible queue' disk' j ≡ visible queue disk j)
unfolding block_cache_sync_all lookup drop_cache
block_cache_sync_all_lem [] disk j ok = (refl, refl)
block_cache_sync_all_lem ((id, c) ∷ queue) disk j (slot _ _ _ fresh own agree rest) =
    let next : IsCoherent (drop_cache c disk) queue =
      IsCoherent-change id disk (drop_cache c disk) queue fresh
        (λ k apart. rw (drop_cache_lem id c disk k own agree, apart) refl) rest in
    let (written, seen) = block_cache_sync_all_lem queue (drop_cache c disk) j next in
    elim (Bool-cases (id == j)) [
      | inl own_block ↦
          (let e : id ≡ j = ground (arith, own_block) in
            let gone : lookup j queue ≡ none = rw (sym e) fresh in
            let at_disk : drop_cache c disk j ≡ c.cache =
              drop_cache_lem id c disk j own agree ∙ ground (arith, e) in
            let through : visible queue (drop_cache c disk) j ≡ c.cache = rw gone at_disk in
            rw own_block (written ∙ through, sync-cache c disk))
      | inr other ↦
          (let same : visible queue (drop_cache c disk) j ≡ visible queue disk j =
              cached_at (lookup j queue)
                (drop_cache_lem id c disk j own agree ∙ ground (arith, other)) in
            rw other (written ∙ same, seen ∙ same))
    ]
