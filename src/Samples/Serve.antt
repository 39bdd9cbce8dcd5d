-- ===== src/Samples/Serve.antt =====
-- A list of the store that is changed, closed and opened again.
use kurn.Prelude.{◌≡◌, refl, ℕ, Bool, false, none, [], ◌∷◌}
use kurn.Prelude.Bytes.{codes}
use kurn.Live.Coherent.{IsCoherent, Reach-IsCoherent, here, next, replaces}
use kurn.Query.Search.{query_snap}
use kurn.Store.Journal.{fsync_none}
use kurn.Store.Mutate.{StoreList, upsert_locked, delete_locked, reopen}
use kurn.Store.Serve.{opened_empty, idle, then_step, upserts, deletes, reopen-query_snap}
use kurn.Samples.Live.{same_bytes, two, started}
use kurn.Samples.Store.{
  small_encode, small_decode, small_normal, small-IsLawful, sound_disk, same_digest, bare_entry,
  store_runs,
}

abbrev over_floor : ℕ → Bool
over_floor score = false

abbrev at_first : StoreList
at_first = opened_empty same_digest small_encode small_decode small_normal started

abbrev put : StoreList
put =
    (upsert_locked same_digest small_encode fsync_none sound_disk (bare_entry (codes "c") ∷ [])
      at_first).0

abbrev gone : StoreList
gone = (delete_locked same_digest small_encode fsync_none sound_disk (codes "a") put).0

started-IsCoherent : IsCoherent started
started-IsCoherent = Reach-IsCoherent same_bytes (next here (replaces two))

reopen-query_snap_example :
    ((reopen same_digest small_decode started gone.journal.file).quarantined ≡ false)
    × (query_snap
          (reopen same_digest small_decode started gone.journal.file).store.list
          none
          0
          over_floor
          false
          (codes "bob")
        ≡ query_snap gone.list none 0 over_floor false (codes "bob"))
unfolding store_runs
reopen-query_snap_example =
    reopen-query_snap same_digest small_encode small_decode small_normal started gone small-IsLawful
      started-IsCoherent refl
      (then_step (then_step idle (upserts fsync_none sound_disk (bare_entry (codes "c") ∷ []) refl))
        (deletes fsync_none sound_disk (codes "a") refl))
      refl none 0 over_floor false (codes "bob")
