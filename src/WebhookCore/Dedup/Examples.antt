-- ===== src/WebhookCore/Dedup/Examples.antt =====
-- Runs of the dedup cache, and its theorems at concrete histories.
use contextmatrix_backendkit.Prelude.{
  ◌≡◌, ◌≢◌, refl, ◌∷◌, [], List, true, false, Bool, Bytes, bytes, bytes_dec, arith, ℕ_discrete,
}
use contextmatrix_backendkit.Prelude.Int.{pos, ◌+ℤ◌, ◌-ℤ◌}
use contextmatrix_backendkit.Prelude.Assoc.{lookup, insert, delete}
use contextmatrix_backendkit.GoTime.{since}
use contextmatrix_backendkit.WebhookCore.Store.{new, find, push, remove, unlink, drop_front, evict}
use contextmatrix_backendkit.WebhookCore.Store.Laws.{view, find_value, new-IsValid}
use contextmatrix_backendkit.WebhookCore.Replay.{is_live}
use contextmatrix_backendkit.WebhookCore.Replay.Window.{Window, entry_key}
use contextmatrix_backendkit.WebhookCore.Dedup.{
  DedupCache, new_dedup_cache, dedup_key, record_fresh, record_key, check_and_record, rollback,
}
use contextmatrix_backendkit.WebhookCore.Dedup.Refines
use contextmatrix_backendkit.WebhookCore.Dedup.Refines.{window, check_message}
use contextmatrix_backendkit.WebhookCore.Dedup.Delivery
use contextmatrix_backendkit.WebhookCore.Dedup.Delivery.{IsSound}
use contextmatrix_backendkit.WebhookCore.Dedup.History
use contextmatrix_backendkit.WebhookCore.Dedup.History.{Call, records, rolls, step, run}

program : Unit {0}
unfolding new find push remove unlink drop_front evict new_dedup_cache dedup_key is_live
    record_fresh record_key check_and_record rollback run step lookup insert delete since bytes_dec
    ℕ_discrete ◌-ℤ◌ ◌+ℤ◌ view find_value
program = tt

abbrev small : DedupCache
small = new_dedup_cache (pos 10) (pos 2)

abbrev chat : Bytes
chat = bytes "chat-1"

abbrev m1 : Bytes
m1 = bytes "m1"

abbrev m2 : Bytes
m2 = bytes "m2"

abbrev history : List Call
history = records chat m2 (pos 5) ∷ rolls chat m2 ∷ []

small-IsSound : IsSound small
unfolding new_dedup_cache
small-IsSound = record { valid = new-IsValid entry_key; finite = omega arith }

m2-ne-m1 : ◌≢◌ {A = Bytes} m2 m1
m2-ne-m1 = ground arith

recorded_acked_example :
    (check_and_record chat m1 (pos 10) (run history (check_and_record chat m1 (pos 0) small).0)).1
    ≡ true
unfolding program
recorded_acked_example =
    History.recorded_acked chat m1 (pos 0) (pos 10) small history small-IsSound (omega arith) refl
      refl (omega arith, ((omega arith, λ e. m2-ne-m1 e.1), tt)) (omega arith) (omega arith)

-- Without a message ID every request is fresh.
anonymous : (check_and_record chat [] (pos 1) (step (records chat [] (pos 0)) small)).1 ≡ false
unfolding program
anonymous = refl

one : DedupCache
unfolding step
one = step (records chat m1 (pos 0)) small

one-IsSound : IsSound one
unfolding one step
one-IsSound = Delivery.check_and_record-IsSound chat m1 (pos 0) small small-IsSound

rollback_retry_example : (check_and_record chat m1 (pos 1) (rollback chat m1 one)).1 ≡ false
rollback_retry_example = Delivery.rollback_retry chat m1 (pos 1) one one-IsSound

rollback-check_and_record_example :
    window (rollback chat m2 (check_and_record chat m2 (pos 1) one).0) ≡ window one
unfolding one program
rollback-check_and_record_example =
    Delivery.rollback-check_and_record chat m2 (pos 1) one one-IsSound refl (omega arith)

check_and_record-check_example :
    let (c', duplicate) = check_and_record chat m1 (pos 3) one in
    let r : Window × Bool = (window c', duplicate) in r ≡ check_message chat m1 (pos 3) (window one)
unfolding one program
check_and_record-check_example =
    Refines.check_and_record-check chat m1 (pos 3) one one-IsSound.valid (omega arith)
