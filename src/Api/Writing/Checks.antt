-- ===== src/Api/Writing/Checks.antt =====
-- The reading and the checks of a contribution in `contribute_fingerprint` of api/fingerprints.py.
use fingerprint_hub.Prelude.{
  Str, codes, str_in, Bool, true, false, Option, none, some, List, [], ◌∷◌, if◌then◌else◌, or_else,
}
use fingerprint_hub.Store.Contribute.{Contribution}
use fingerprint_hub.Api.Values.{strip, lower, nonempty, matches_phash}
use fingerprint_hub.Api.Messages.{Json, null, boolean, integer, float, text, array, nested, lookup}

-- `str(value)`
unfoldable pub str : Json → Str
str null = codes "None"
str (boolean true) = codes "True"
str (boolean false) = codes "False"
str (integer s _) = s
str (float s _) = s
str (text s) = s
str (array s) = s
str (nested s) = s

-- `_str_or_none(body.get(key))`
unfoldable pub str_or_none : Option Json → Option Str
unfolding str strip nonempty
str_or_none none = none
str_or_none (some null) = none
str_or_none (some value) = nonempty (strip (str value))

-- `str(body.get(key, "")).strip()`
unfoldable pub str_field : Option Json → Str
unfolding str strip
str_field none = []
str_field (some value) = strip (str value)

-- `_bool_or_none`
unfoldable pub bool_or_none : Option Json → Option Bool
bool_or_none none = some false
bool_or_none (some null) = some false
bool_or_none (some (boolean b)) = some b
bool_or_none (some _) = none

abbrev pub valid_categories : List Str
valid_categories =
    codes "scam" ∷ codes "nsfw" ∷ codes "crypto" ∷ codes "phishing" ∷ codes "other" ∷ []

abbrev pub valid_actions : List Str
valid_actions = codes "kick" ∷ codes "timeout" ∷ []

-- The fields of the body, or the error answer.
pub data Checked : Type 0 where
  accepted : Contribution → Checked
  rejected : Str → Checked

unfoldable pub contribution_of : Str → Str → Str → Bool → List (Str × Json) → Contribution
unfolding lookup str_or_none
contribution_of phash_hex category action auto_added body =
    let get : Str → Option Str = λ key. str_or_none (lookup key body) in
    record {
      phash_hex = phash_hex;
      algorithm = or_else (get (codes "algorithm")) (codes "phash");
      algorithm_version = or_else (get (codes "algorithm_version")) (codes "imagehash.phash");
      normalization_version =
          or_else (get (codes "normalization_version")) (codes "alpha_white_v1");
      category = category;
      action = action;
      source_guild_id = get (codes "source_guild_id");
      reason = get (codes "reason");
      source_url = get (codes "source_url");
      auto_added = auto_added;
      provenance = or_else (get (codes "provenance")) (codes "manual_staff");
    }

unfoldable pub check : List (Str × Json) → Checked
unfolding lookup str_field lower matches_phash str_in bool_or_none contribution_of
check body =
    let phash_hex = lower (str_field (lookup (codes "phash_hex") body)) in
    let category = str_field (lookup (codes "category") body) in
    let action = str_field (lookup (codes "action") body) in
    if matches_phash 16 phash_hex
    then if str_in category valid_categories
      then if str_in action valid_actions
        then elim (bool_or_none (lookup (codes "auto_added") body)) [
          | none ↦ rejected (codes "auto_added must be a boolean")
          | some auto_added ↦ accepted (contribution_of phash_hex category action auto_added body)
        ]
        else rejected (codes "action must be one of ['kick', 'timeout']")
      else rejected
          (codes "category must be one of ['crypto', 'nsfw', 'other', 'phishing', 'scam']")
    else rejected (codes "phash_hex must be 16 lowercase hex characters")
