-- ===== src/Tests/AtRest.antt =====
-- Contributions, a hit and flags, all with the encryption of utils/field_encryption.py.
use fingerprint_hub.Prelude.{codes, some}
use fingerprint_hub.Prelude.Int.{pos}
use fingerprint_hub.Cipher.{Cipher}
use fingerprint_hub.Schema.{Db}
use fingerprint_hub.Encryption.Envelope.{field_cipher}
use fingerprint_hub.Encryption.AtRest.{IsEnvelope, Reach-IsEnvelope}
use fingerprint_hub.Store.Contribute.{Nonces, contribute}
use fingerprint_hub.Store.Hits.{report_hit}
use fingerprint_hub.Store.Flags.{flag}
use fingerprint_hub.Store.History.{Reach, here, next, contributes, reports, flags, init}
use fingerprint_hub.Store.Secrets.{EverySecret}
use fingerprint_hub.Tests.Data.{image}
use fingerprint_hub.Tests.Secrets.{open_box, ring, nonce}

abbrev fields : Cipher
fields = field_cipher open_box ring

abbrev drawn : Nonces
drawn = record { reason = nonce; source_url = nonce; source_guild_id = nonce }

abbrev contributed : Db
contributed = (contribute fields drawn 1 (image (codes "00ff00ff00ff00ff")) 1000 init).1

abbrev hit : Db
hit = (report_hit fields nonce 1 2 (some (codes "77")) (some (pos 3)) 2000 contributed).1

abbrev flagged : Db
flagged = (flag fields nonce 1 2 (some (codes "wrong")) 3000 2 hit).1

history : Reach fields init flagged
history =
    next
      (next (next here (contributes drawn 1 (image (codes "00ff00ff00ff00ff")) 1000))
        (reports nonce 1 2 (some (codes "77")) (some (pos 3)) 2000))
      (flags nonce 1 2 (some (codes "wrong")) 3000 2)

Reach-IsEnvelope_example : EverySecret (IsEnvelope open_box ring) flagged
Reach-IsEnvelope_example =
    Reach-IsEnvelope open_box ring init flagged history
      (record { rows = tt; hits = tt; flags = tt })
