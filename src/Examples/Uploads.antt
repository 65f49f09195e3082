-- ===== src/Examples/Uploads.antt =====
-- A connection that takes an upload over from another one.
use mini_im.Prelude.{ℕ, ◌≡◌, ◌&&◌, not, none, some, [], ◌∷◌}
use mini_im.Quic.Dict.{get}
use mini_im.Quic.Upload.{
  UploadLease, UploadRegistry, new_registry, find_file, current, owned_by, enter, release_owner,
}
use mini_im.Quic.Upload.Consistent.{Consistent, enter-Consistent}
use mini_im.Quic.Upload.Run.{
  connect, granted, bound, advanced, disconnected, run, Exclusive, run-Exclusive,
  new_registry-Consistent,
}
use mini_im.Quic.Upload.Owners.{release_owner-current}

run-Exclusive_example :
    (r : UploadRegistry) × (run
        (connect
          ∷ granted 1 "ann" "i1" "f1" 4 0 "d1" 1
          ∷ bound 2 4 "f1" 8 0
          ∷ advanced 3 0 100
          ∷ granted 9 "ann" "i1" "f1" 5 100 "d1" 2
          ∷ disconnected 4 none
          ∷ [])
        (new_registry 60000)
      ≡ some r)
    × Exclusive r
run-Exclusive_example = run-Exclusive 60000 (
    connect
    ∷ granted 1 "ann" "i1" "f1" 4 0 "d1" 1
    ∷ bound 2 4 "f1" 8 0
    ∷ advanced 3 0 100
    ∷ granted 9 "ann" "i1" "f1" 5 100 "d1" 2
    ∷ disconnected 4 none
    ∷ [])

abbrev lease : UploadLease
lease = record {
  user_id = "ann";
  intent = "i1";
  file_id = "f1";
  owner = 4;
  device_id = "d1";
  generation = 1;
  offset = 0;
  touched = 1;
  stream_id = none;
}

abbrev one_lease : UploadRegistry
one_lease = enter lease (new_registry 60000)

one_lease-Consistent : Consistent one_lease
unfolding new_registry find_file get
one_lease-Consistent =
    enter-Consistent lease (new_registry 60000) (new_registry-Consistent 60000) (λ file_id b e. cc)

release_owner-current_example :
    (r' : UploadRegistry) × (release_owner 4 none one_lease ≡ some r')
    × (r'.leases ≡ one_lease.leases)
    × ((a : ℕ) → current r' a ≡ (current one_lease a && not (owned_by 4 none (one_lease.leases a))))
release_owner-current_example = release_owner-current 4 none one_lease one_lease-Consistent
