-- ===== src/Tests/Requests.antt =====
-- Requests through the middleware.
use fingerprint_hub.Prelude.{refl, Str, codes, str_eq, str_in, some, none, true, false, [], ◌∷◌}
use fingerprint_hub.Prelude.Int.{pos}
use fingerprint_hub.Schema.{Db}
use fingerprint_hub.Consumers.{find_by_key_hash}
use fingerprint_hub.Store.Contribute.{contribute}
use fingerprint_hub.Store.Flags.{flag}
use fingerprint_hub.Store.Validity.{IsValid}
use fingerprint_hub.Api.Messages.{object}
use fingerprint_hub.Api.Values.{all_hex, is_hex}
use fingerprint_hub.Api.Access.{Arrival, Gate, authenticate}
use fingerprint_hub.Api.Access.Admission.{IsAdmitted, authenticate-IsAdmitted}
use fingerprint_hub.Api.App.{Message, serve, dispatch, post_hit, post_flag}
use fingerprint_hub.Api.Constraints.{RowsClean, serve-RowsClean}
use fingerprint_hub.Api.Serving.{serve-IsValid}
use fingerprint_hub.Api.Steps.{Moves, dispatch-Moves}
use fingerprint_hub.Tests.Data.{plain, sample, sample-IsValid}
use fingerprint_hub.Tests.Service.{writer, defaults, draws, about_second}

-- Any function of the key may stand for the digest.
abbrev digest : Str → Str
digest key = key

abbrev populated : Db
populated = record sample { consumers = writer ∷ [] }

abbrev idle : Gate
idle = record { request_times = λ _. []; last_seen_marked = λ _. none }

abbrev arrival : Arrival
arrival = record {
  is_public = false;
  api_key = some (codes "hash2");
  now = 70000000000;
  now_ms = 7000;
  touch_succeeds = true;
  ping_succeeds = true;
}

abbrev message : Message
message = record { id = some (codes "2"); query = []; body = object [] }

authenticate-IsAdmitted_example : IsAdmitted digest (pos 300) arrival idle populated writer
unfolding authenticate find_by_key_hash str_eq
authenticate-IsAdmitted_example =
    authenticate-IsAdmitted digest (pos 300) arrival idle populated writer refl

serve-IsValid_example :
    IsValid (serve digest plain draws defaults arrival post_hit message idle sample).2
serve-IsValid_example =
    serve-IsValid digest plain draws defaults arrival post_hit message idle sample sample-IsValid

dispatch-Moves_example :
    Moves plain sample (dispatch plain draws defaults post_flag (about_second writer) sample).1
dispatch-Moves_example = dispatch-Moves plain sample draws defaults post_flag (about_second writer)

sample-RowsClean : RowsClean sample
unfolding contribute flag str_in str_eq all_hex is_hex
sample-RowsClean = (
  record { phash = (refl, refl); category = refl; action = refl },
  (record { phash = (refl, refl); category = refl; action = refl }, tt),
)

serve-RowsClean_example :
    RowsClean (serve digest plain draws defaults arrival post_hit message idle sample).2
serve-RowsClean_example =
    serve-RowsClean digest plain draws defaults arrival post_hit message idle sample
      sample-RowsClean
