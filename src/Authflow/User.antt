-- ===== src/Authflow/User.antt =====
-- internal/modules/authflow/user.go: the user of a session from the claims of the ID token.
use modular_monolith.Prelude.{
  String, ◌==◌, Bool, true, false, not, ◌&&◌, List, [], ◌∷◌, Option, none, some, if◌then◌else◌, any,
  sort_by, mentions, text_le,
}
use modular_monolith.Oidc.{
  Value, Values, Fields, Claims, null, flag, number, text, texts, items, flags, object, nil, cons,
  end, field,
}

pub record SessionUser : Type 0 where
  pub subject : String
  pub identity_id : String
  pub email : String
  pub email_verified : Bool
  pub preferred_username : String
  pub name : String
  pub given_name : String
  pub family_name : String
  pub locale : String
  pub organization_id : String
  pub roles : List String
  pub raw_claims : List (String × Value)

abbrev nonempty : String → Option String
nonempty s = if s == "" then none else some s

-- A text that is not empty, also where the key is missing (`nil`).
unfoldable pub string_claim : Value → Option String
string_claim (text s) = nonempty s
string_claim null = none
string_claim (flag b) = none
string_claim (number n) = none
string_claim (texts l) = none
string_claim (items l) = none
string_claim (flags l) = none
string_claim (object l) = none

-- `claims[key]`, which is `nil` where the key is missing.
unfoldable pub value_at : String → List (String × Value) → Value
value_at key [] = null
value_at key ((k, v) ∷ claims) = let rest = value_at key claims in if k == key then v else rest

abbrev or_else : Option String → Option String → Option String
or_else (some s) _ = some s
or_else none o = o

-- The loop over the claims whose key names an organization and no role.
unfoldable pub any_organization_id : List (String × Value) → Option String
unfolding string_claim
any_organization_id [] = none
any_organization_id ((key, value) ∷ claims) =
    let rest = any_organization_id claims in
    if not (mentions "org" key) && not (mentions "organization" key)
    then rest
    else if mentions "role" key
    then rest
    else or_else (string_claim value) rest

abbrev or_empty : Option String → String
or_empty none = ""
or_empty (some s) = s

unfoldable pub extract_organization_id : List (String × Value) → String
unfolding string_claim value_at any_organization_id
extract_organization_id claims = or_empty (
    or_else (string_claim (value_at "organization_id" claims)) (
      or_else (string_claim (value_at "org_id" claims)) (
        or_else (string_claim (value_at "urn:zitadel:iam:org:id" claims))
          (any_organization_id claims))))

-- `roles[role] = struct{}{}`
abbrev pub put : String → List String → List String
put role roles = if any (λ r. r == role) roles then roles else role ∷ roles

-- `if test && role != "" { roles[role] = struct{}{} }`
abbrev pub put_if : Bool → String → List String → List String
put_if test role roles = if test && not (role == "") then put role roles else roles

abbrev is_enabled_object : Fields → Bool
is_enabled_object end = false
is_enabled_object (field _ _ _) = true

unfoldable pub is_enabled_role : Value → Bool
is_enabled_role (flag b) = b
is_enabled_role (text s) = not (s == "") && not (s == "false")
is_enabled_role (object fields) = is_enabled_object fields
is_enabled_role null = false
is_enabled_role (number n) = true
is_enabled_role (texts l) = true
is_enabled_role (items l) = true
is_enabled_role (flags l) = true

abbrev put_claim : Option String → List String → List String
put_claim none roles = roles
put_claim (some role) roles = put role roles

unfoldable pub put_texts : List String → List String → List String
put_texts [] roles = roles
put_texts (role ∷ rest) roles = put_texts rest (put_if true role roles)

unfoldable pub put_items : Values → List String → List String
unfolding string_claim
put_items nil roles = roles
put_items (cons v rest) roles = put_items rest (put_claim (string_claim v) roles)

unfoldable pub put_flags : List (String × Bool) → List String → List String
put_flags [] roles = roles
put_flags ((role, enabled) ∷ rest) roles = put_flags rest (put_if enabled role roles)

unfoldable pub put_fields : Fields → List String → List String
unfolding is_enabled_role
put_fields end roles = roles
put_fields (field role enabled rest) roles =
    put_fields rest (put_if (is_enabled_role enabled) role roles)

unfoldable pub add_roles : Value → List String → List String
unfolding put_texts put_items put_flags put_fields
add_roles (text role) roles = put_if true role roles
add_roles (texts l) roles = put_texts l roles
add_roles (items l) roles = put_items l roles
add_roles (flags l) roles = put_flags l roles
add_roles (object l) roles = put_fields l roles
add_roles null roles = roles
add_roles (flag b) roles = roles
add_roles (number n) roles = roles

unfoldable pub collect_roles : List (String × Value) → List String → List String
unfolding add_roles
collect_roles [] roles = roles
collect_roles ((key, value) ∷ claims) roles =
    collect_roles claims (if mentions "role" key then add_roles value roles else roles)

unfoldable pub extract_roles : List (String × Value) → List String
unfolding collect_roles
extract_roles claims = sort_by text_le (collect_roles claims [])

unfoldable pub normalize_user : Claims → SessionUser
unfolding extract_organization_id extract_roles
normalize_user c = record {
  subject = if c.user_id == "" then c.subject else c.user_id;
  identity_id = "";
  email = c.email;
  email_verified = c.email_verified;
  preferred_username = c.preferred_username;
  name = c.name;
  given_name = c.given_name;
  family_name = c.family_name;
  locale = c.locale;
  organization_id =
      if c.organization_id == "" then extract_organization_id c.raw_claims else c.organization_id;
  roles = extract_roles c.raw_claims;
  raw_claims = c.raw_claims;
}
