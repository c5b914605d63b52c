-- ===== src/Tests/Feed.antt =====
-- The feed.
use fingerprint_hub.Prelude.{
  ℕ, ◌<◌, ◌≡◌, refl, none, [], ◌∷◌, map, arith, length, take, drop, ltb, All, ◌≤◌,
}
use fingerprint_hub.Schema.{Status, active, hidden}
use fingerprint_hub.Store.Feed.{feed, sync, last_seq}
use fingerprint_hub.Store.Feed.Paging.{pull, sync_page, IsStrict}
use fingerprint_hub.Store.Feed.Replica.{unfiltered, apply_feed, peer_view, Cache, shared}
use fingerprint_hub.Store.Feed.Convergence.{InSync, apply_feed-InSync}
use fingerprint_hub.Store.Contribute.{contribute}
use fingerprint_hub.Store.Flags.{flag}
use fingerprint_hub.Store.History.{init, init-IsValid, Reach-IsValid, Reach-Follows}
use fingerprint_hub.Store.Validity.{IsValid}
use fingerprint_hub.Store.Freshness.{Follows}
use fingerprint_hub.Tests.Data.{plain, sample, history, sample-IsValid}

program : Unit {0}
unfolding contribute flag feed sync pull
program = tt

-- The row that was flagged twice comes after the other one, as a tombstone.
feed_of_third :
    map {B = ℕ × ℕ × Status} (λ r. (r.id, r.sync_seq, r.status)) (feed 3 unfiltered 0 sample)
    ≡ (2, 2, active) ∷ (1, 3, hidden) ∷ []
unfolding program
feed_of_third = refl

Reach-IsValid_example : IsValid sample
Reach-IsValid_example = Reach-IsValid plain sample history

Reach-Follows_example : Follows init sample
Reach-Follows_example = Reach-Follows plain init sample init-IsValid history

sync_page_example :
    ((sync 3 0 1 unfiltered sample).rows ≡ take 1 (feed 3 unfiltered 0 sample))
    × ((sync 3 0 1 unfiltered sample).has_more ≡ ltb 1 (length (feed 3 unfiltered 0 sample)))
    × (feed 3 unfiltered (sync 3 0 1 unfiltered sample).next_since sample
        ≡ drop 1 (feed 3 unfiltered 0 sample))
    × (0 ≤ (sync 3 0 1 unfiltered sample).next_since)
    × IsStrict (feed 3 unfiltered 0 sample)
    × All (λ r. 0 < r.sync_seq) (feed 3 unfiltered 0 sample)
sync_page_example = sync_page 3 unfiltered sample sample-IsValid 0 1

abbrev nothing : Cache
nothing id = none

start : InSync 3 nothing 0 init
unfolding peer_view shared
start = record { view = λ id. refl; seen = tt; below = omega arith }

apply_feed-InSync_example :
    InSync 3
      (apply_feed nothing (feed 3 unfiltered 0 sample))
      (last_seq 0 (feed 3 unfiltered 0 sample))
      sample
unfolding peer_view shared
apply_feed-InSync_example =
    apply_feed-InSync 3 0 nothing init sample init-IsValid sample-IsValid
      (Reach-Follows plain init sample init-IsValid history) start (λ id r h. cc)
