-- ===== src/Examples/Delivery.antt =====
-- Examples of whole uploads, of the ledger of the service and of the keys of parts.
use cloud_file.Base.{ℕ, ◌≡◌, refl, String, List, [], ◌∷◌, none, some, arith}
use cloud_file.Api.{chunk_count_of}
use mathlib.Core.Bool.{true≢false}
use cloud_file.Base.{sym, eq_iff, true}
use cloud_file.Base.Int.{pos}
use cloud_file.Server.Uploads.{upload_chunk}
use cloud_file.Server.Resend.{upload_chunk-again}
use cloud_file.Server.Action.{failure, fails, done}
use cloud_file.Server.World.{World, acquire}
use cloud_file.Server.Uploads.{upload_status}
use cloud_file.Server.Listing.{listing, upload_status-lists}
use cloud_file.Server.Locking.{
  outside, holding, System, set_phase, takes, refused, Reach, here, next,
}
use cloud_file.Server.Locking.Exclusion.{Reach-exclusive, Reach-acquire}
use cloud_file.Server.Keys.Apart.{part_key-injective}
use cloud_file.Server.Routes.{handle_all}
use cloud_file.Server.Merge.{Merged}
use cloud_file.Server.Ledger.{ledger, AllowsAll}
use cloud_file.Server.Ledger.Refines.{handle_all-refines}
use cloud_file.Server.Delivery.{IsHonest, deliver_file}
use cloud_file.Server.Delivery.Merging.{IsDelivered, IsFiled}
use cloud_file.Server.Delivery.Delivered.{IsIdle, deliver_file-IsDelivered}
use cloud_file.Examples.Shelf.{shelf, shelf_law, shelf-IsReliable}
use cloud_file.Examples.Server.{
  config, hash_all, no_tables, world_of, always_fails, req, requests, no_tables-IsConsistent,
  upload, sent_tables, sent_objects, sent_tables-IsConsistent,
}

abbrev start : World shelf
start = world_of no_tables (λ k. none)

handle_all-refines_example :
    AllowsAll hash_all
      (ledger no_tables)
      requests
      (ledger (handle_all {S = shelf} config hash_all always_fails requests start).1.tables)
handle_all-refines_example =
    handle_all-refines config hash_all always_fails requests start no_tables-IsConsistent

abbrev three : List ℕ
three = 1 ∷ 2 ∷ 3 ∷ []

three-IsHonest : IsHonest hash_all three req
unfolding chunk_count_of
three-IsHonest = record {
  not_empty = omega arith;
  chunked = omega arith;
  size = refl;
  count = refl;
  hash = refl;
}

start-IsIdle : IsIdle shelf req start
start-IsIdle = record {
  open_faults = refl;
  fresh = refl;
  consistent = no_tables-IsConsistent;
  unlocked = refl;
}

deliver_file-IsDelivered_example :
    (m : Merged) × ((deliver_file config hash_all req three start).0 ≡ done (some m))
    × IsDelivered shelf_law three m (deliver_file config hash_all req three start).1.objects
    × IsFiled req.user_id m (deliver_file config hash_all req three start).1.tables
deliver_file-IsDelivered_example =
    deliver_file-IsDelivered shelf_law shelf-IsReliable config hash_all req three three-IsHonest
      start start-IsIdle

part_key-injective_example : (◌≡◌ {A = ℕ} 1 1) × (◌≡◌ {A = ℕ} 2 2)
part_key-injective_example = part_key-injective 1 2 1 2 refl

upload_status-lists_example :
    ((upload_status {S = shelf} 1 "u" (world_of sent_tables sent_objects)).0
      ≡ done (listing 1 2 sent_tables))
    × ((upload_status {S = shelf} 1 "u" (world_of sent_tables sent_objects)).1.tables ≡ sent_tables)
upload_status-lists_example =
    upload_status-lists {S = shelf} 1 "u" (world_of sent_tables sent_objects) upload refl
      sent_tables-IsConsistent refl

-- two requests for one merge, of which the first has the lock
abbrev one_key : ℕ → String
one_key i = "merge_lock:1"

abbrev all_outside : System shelf
all_outside = record { world = start; phases = λ i. outside }

abbrev locked : World shelf
locked = record start { locks = ("merge_lock:1", "id") ∷ []; uuids = 1 }

abbrev one_inside : System shelf
one_inside = record { world = locked; phases = set_phase 0 (holding "id") (λ i. outside) }

one_inside-Reach : Reach config one_key all_outside one_inside
unfolding acquire
one_inside-Reach =
    next one_inside one_inside (next all_outside one_inside here (takes 0 "id" locked refl refl))
      (refused 1 locked refl refl)

Reach-exclusive_example : ◌≡◌ {A = ℕ} 0 0
Reach-exclusive_example =
    Reach-exclusive config one_key all_outside one_inside refl (λ i. refl) one_inside-Reach 0 0 "id"
      "id" refl refl refl

not_other : (i : ℕ) → one_key i ≡ "merge_lock:2" → one_inside.phases i ≡ outside
not_other i e = absurd (true≢false (sym ((eq_iff "merge_lock:1" "merge_lock:2").1 e)))

Reach-acquire_example :
    (acquire config "merge_lock:2" one_inside.world).0 ≡ done (some (config.new_uuid 1))
Reach-acquire_example =
    Reach-acquire config one_key all_outside one_inside refl (λ i. refl) one_inside-Reach
      "merge_lock:2" not_other

-- the upload, before its chunks are merged, sent a chunk again whose file cannot be read
upload_chunk-again_example :
    upload_chunk {S = shelf} hash_all 1 "u"
      (pos 1)
      ""
      (fails (failure "no file"))
      (world_of sent_tables sent_objects)
    ≡ (done (upload, true), world_of sent_tables sent_objects)
upload_chunk-again_example =
    upload_chunk-again {S = shelf} hash_all 1 "u" 1 "" (fails (failure "no file"))
      (world_of sent_tables sent_objects) upload refl sent_tables-IsConsistent refl refl
      (omega arith) refl
