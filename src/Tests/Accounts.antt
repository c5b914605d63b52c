-- ===== src/Tests/Accounts.antt =====
-- Consumers.
use fingerprint_hub.Prelude.{Str, codes, ◌≡◌, refl, [], ◌∷◌, true, some, All, str_in}
use fingerprint_hub.Schema.{Consumer}
use fingerprint_hub.Consumers.{
  is_nonempty, invalid_scopes, with_key, insert_consumer, generate_api_key, create_consumer,
  find_by_key_hash, valid_scopes,
}
use fingerprint_hub.Consumers.Uniqueness.{
  HasConsumers, create_consumer-HasConsumers, create_consumer-find,
}
use fingerprint_hub.Store.History.{init}

-- Any function of the key may stand for the digest.
abbrev digest : Str → Str
digest key = key

no_consumers : HasConsumers init
no_consumers = record { rows = tt; distinct_rows = tt }

create_consumer-HasConsumers_example :
    HasConsumers
      (create_consumer digest (codes "token") (codes "bot") (codes "read" ∷ []) 1000 init).1
create_consumer-HasConsumers_example =
    create_consumer-HasConsumers digest (codes "token") (codes "bot") (codes "read" ∷ []) 1000 init
      no_consumers

create_consumer-find_example :
    (c : Consumer) × (find_by_key_hash
        (codes "fph_token")
        (create_consumer digest (codes "token") (codes "bot") (codes "read" ∷ []) 1000 init).1
      ≡ some c)
    × (c.enabled ≡ true)
    × (c.id ≡ 1)
    × (c.name ≡ codes "bot")
    × (c.scopes ≡ codes "read" ∷ [])
    × All (λ s. str_in s valid_scopes ≡ true) (codes "read" ∷ [])
unfolding create_consumer is_nonempty invalid_scopes with_key insert_consumer generate_api_key
create_consumer-find_example =
    create_consumer-find digest (codes "token") (codes "bot") (codes "read" ∷ []) 1000 init 1
      (codes "fph_token") refl
