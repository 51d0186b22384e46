-- ===== src/Token/Claims.antt =====
-- The claims of a JWT, as internal/token/jwt.go writes and reads them: `jwtClaims`, its JSON object,
-- and the extraction of claims from a `jwt.MapClaims`.
use elysium.Prelude.{
  ℕ, String, ◌≡◌, refl, Option, none, some, List, [], ◌∷◌, Text, map, str_eq, if◌then◌else◌, arith,
}

-- A value of a `map[string]interface{}`. Decoded JSON arrays are lists of `interface{}`.
pub data Item : Type 0 where
  str_item : Text → Item
  other_item : Item

pub data ClaimValue : Type 0 where
  text : Text → ClaimValue
  items : List Item → ClaimValue
  strings : List Text → ClaimValue
  number : ℕ → ClaimValue
  null other : ClaimValue

abbrev pub MapClaims : Type 0
MapClaims = List (String × ClaimValue)

unfoldable pub claim : String → MapClaims → Option ClaimValue
claim k [] = none
claim k ((p, v) ∷ m) = if str_eq p k then some v else claim k m

-- `strClaim`.
abbrev pub text_of : Option ClaimValue → Text
text_of (some (text t)) = t
text_of _ = []

unfoldable pub str_claim : MapClaims → String → Text
str_claim m k = text_of (claim k m)

-- `stringSliceClaim`; a nil slice is the empty list.
unfoldable pub str_items : List Item → List Text
str_items [] = []
str_items (str_item t ∷ is) = t ∷ str_items is
str_items (other_item ∷ is) = str_items is

abbrev pub texts_of : Option ClaimValue → List Text
texts_of (some (items is)) = str_items is
texts_of (some (strings ts)) = ts
texts_of _ = []

unfoldable pub string_slice_claim : MapClaims → String → List Text
unfolding str_items
string_slice_claim m k = texts_of (claim k m)

-- A field of a claims struct: with or without the option `omitempty`.
pub data ClaimField : Type 0 where
  always : Text → ClaimField
  omitempty : Text → ClaimField
  texts_omitempty : List Text → ClaimField
  date : ℕ → ClaimField

abbrev pub json_value : ClaimField → Option ClaimValue
json_value (always t) = some (text t)
json_value (omitempty []) = none
json_value (omitempty (c ∷ cs)) = some (text (c ∷ cs))
json_value (texts_omitempty []) = none
json_value (texts_omitempty (t ∷ ts)) = some (items (map str_item (t ∷ ts)))
json_value (date n) = some (number n)

abbrev pub add_claim : String → Option ClaimValue → MapClaims → MapClaims
add_claim p none m = m
add_claim p (some v) m = (p, v) ∷ m

-- The JSON object of a claims struct, decoded into a map.
unfoldable pub json_object : List (String × ClaimField) → MapClaims
json_object [] = []
json_object ((p, f) ∷ fs) = add_claim p (json_value f) (json_object fs)

-- `jwtClaims` with its `jwt.RegisteredClaims`; dates are in seconds.
pub record JwtClaims : Type 0 where
  pub issued_at : ℕ
  pub expires_at : ℕ
  pub issuer : Text
  pub subject : Text
  pub kind : Text
  pub actor_type : Text
  pub user_id : Text
  pub actor_id : Text
  pub nickname : Text
  pub email : Text
  pub permissions : List Text
  pub delegated_permissions : List Text
  pub policy_groups : List Text
  pub client_id : Text
  pub service_name : Text

unfoldable pub claim_fields : JwtClaims → List (String × ClaimField)
claim_fields c =
    ("iss", omitempty c.issuer)
    ∷ ("sub", omitempty c.subject)
    ∷ ("exp", date c.expires_at)
    ∷ ("iat", date c.issued_at)
    ∷ ("kind", always c.kind)
    ∷ ("actor_type", omitempty c.actor_type)
    ∷ ("user_id", omitempty c.user_id)
    ∷ ("actor_id", omitempty c.actor_id)
    ∷ ("nickname", omitempty c.nickname)
    ∷ ("email", omitempty c.email)
    ∷ ("perms", texts_omitempty c.permissions)
    ∷ ("dperms", texts_omitempty c.delegated_permissions)
    ∷ ("pgroups", texts_omitempty c.policy_groups)
    ∷ ("client_id", omitempty c.client_id)
    ∷ ("svc_name", omitempty c.service_name)
    ∷ []

abbrev pub or_else : Option ClaimValue → Option ClaimValue → Option ClaimValue
or_else none v = v
or_else (some u) v = some u

-- What a key of the object of a struct holds, by the fields alone.
abbrev pub claim_at : String → List (String × ClaimField) → Option ClaimValue
claim_at k [] = none
claim_at k ((p, f) ∷ fs) =
    if str_eq p k then or_else (json_value f) (claim_at k fs) else claim_at k fs

pub claim-json_object :
    (k : String) (fs : List (String × ClaimField)) → claim k (json_object fs) ≡ claim_at k fs
unfolding claim json_object
claim-json_object k [] = refl
claim-json_object k ((p, always t) ∷ fs) = rw (claim-json_object k fs) refl
claim-json_object k ((p, omitempty []) ∷ fs) = ground (arith, claim-json_object k fs)
claim-json_object k ((p, omitempty (c ∷ cs)) ∷ fs) = rw (claim-json_object k fs) refl
claim-json_object k ((p, texts_omitempty []) ∷ fs) = ground (arith, claim-json_object k fs)
claim-json_object k ((p, texts_omitempty (t ∷ ts)) ∷ fs) = rw (claim-json_object k fs) refl
claim-json_object k ((p, date n) ∷ fs) = rw (claim-json_object k fs) refl

pub text_of-omitempty : (t : Text) → text_of (or_else (json_value (omitempty t)) none) ≡ t
text_of-omitempty [] = refl
text_of-omitempty (c ∷ cs) = refl

str_items-map : (ts : List Text) → str_items (map str_item ts) ≡ ts
unfolding str_items
str_items-map [] = refl
str_items-map (t ∷ ts) = rw (str_items-map ts) refl

pub texts_of-omitempty :
    (ts : List Text) → texts_of (or_else (json_value (texts_omitempty ts)) none) ≡ ts
unfolding str_items
texts_of-omitempty [] = refl
texts_of-omitempty (t ∷ ts) = rw (str_items-map ts) refl
