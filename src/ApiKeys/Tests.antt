-- ===== src/ApiKeys/Tests.antt =====
-- Two keys, with the identity for the hash, for internal/web/keys.go.
use m365_copilot2api.Prelude.{
  ◌≡◌, refl, [], ◌∷◌, List, codes, none, true, false, text_eq, Text, any,
}
use m365_copilot2api.ApiKeys.{ApiKey, valid, revoke}
use m365_copilot2api.ApiKeys.Laws.{admits, admits_but, valid-admits, admits-revoke}

abbrev same : Text → Text
same t = t

abbrev key_of : Text → Text → ApiKey
key_of id hash = record {
  id = id;
  name = codes "key";
  prefix = [];
  hash = hash;
  created_at = 1;
  last_used_at = none;
  revoked = false;
}

abbrev stored : List ApiKey
stored = key_of (codes "1") (codes "m365_aa") ∷ key_of (codes "2") (codes "m365_bb") ∷ []

valid-admits_example :
    ((valid same (codes "m365_bb") 9 stored).1 ≡ admits same (codes "m365_bb") stored)
    × (admits same (codes "m365_aa") (valid same (codes "m365_bb") 9 stored).0
        ≡ admits same (codes "m365_aa") stored)
valid-admits_example = valid-admits same (codes "m365_bb") (codes "m365_aa") 9 stored

admits-revoke_example :
    admits same (codes "m365_bb") (revoke (codes "2") true stored).0
    ≡ admits_but same (codes "2") (codes "m365_bb") stored
unfolding revoke any text_eq
admits-revoke_example =
    admits-revoke same (codes "2") (codes "m365_bb") stored (refl, (refl, tt)) refl
