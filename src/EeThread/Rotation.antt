-- ===== src/EeThread/Rotation.antt =====
-- The rotation of a ready queue by src/kernel/thread.cpp.
use ps2bios_rebuild.Common.{
  ℕ, ◌<◌, ◌==◌, ◌≡◌, ◌≢◌, refl, arith, leb, true, false, List, [], ◌∷◌, ◌++◌,
}
use ps2bios_rebuild.EeThread.Types.{Kernel, nobody}
use ps2bios_rebuild.EeThread.Links.{enqueue, unlink}
use ps2bios_rebuild.EeThread.Lists.{IsQueue, enqueue-IsQueue}
use ps2bios_rebuild.EeThread.Unlink.{unlink-IsQueue, pop_front_lem}
use ps2bios_rebuild.EeThread.Tables.{prepare_tables}
use ps2bios_rebuild.EeThread.Threads.{rotate_ready_queue}

rotate_lem :
    (k : Kernel) (priority id : ℕ)
    → k.tables_ready ≡ true
    → priority < 128
    → (k.ready_queue priority).head ≡ id
    → id ≢ nobody
    → let u = unlink k.threads (k.ready_queue priority) id in
      let r = enqueue u.0 u.1 id in
      let (a, k') = rotate_ready_queue k priority in
      (a ≡ priority) × (k'.threads ≡ r.0) × (k'.ready_queue priority ≡ r.1)
unfolding rotate_ready_queue prepare_tables
rotate_lem k priority id ready h e ne =
    let p : leb 128 priority ≡ false = ground arith in
    let n : (id == nobody) ≡ false = ground arith in
    rw (ready, p, pop_front_lem k.threads (k.ready_queue priority) id e ne, n)
      (refl, refl, ground arith)

-- A rotation puts the first thread of a ready queue behind the others, and answers the priority.
pub rotate_ready_queue-IsQueue :
    (k : Kernel) (priority id : ℕ) (xs : List ℕ)
    → k.tables_ready ≡ true
    → priority < 128
    → IsQueue k.threads (k.ready_queue priority) (id ∷ xs)
    → let (a, k') = rotate_ready_queue k priority in
      (a ≡ priority) × IsQueue k'.threads (k'.ready_queue priority) (xs ++ id ∷ [])
rotate_ready_queue-IsQueue k priority id xs ready h v =
    let r = rotate_lem k priority id ready h v.head v.links.0 in
    (
      r.0,
      rw (r.1, r.2)
          (enqueue-IsQueue id xs v.links.0 v.distinct.0
            (unlink-IsQueue {t = k.threads} {q = k.ready_queue priority} id [] xs v)),
    )
