-- ===== src/Oidc.antt =====
-- internal/providers/identity: the claims of a token (claims.go) and what the OAuth calls exchange
-- (oauth.go). A Go map is the list of its entries in the order in which `range` visits them.
pub mod Keys
pub mod Provider
use modular_monolith.Prelude.{String, Bool, List, Option, ◌==◌, if◌then◌else◌}
use modular_monolith.Prelude.Int.{ℤ}

-- The values of type `any` that the claims hold: what encoding/json decodes, and the two typed
-- containers that addRoles also accepts. Nothing reads a number.
mutual
  pub data Value : Type 0 where
    null : Value
    flag : Bool → Value
    number : String → Value
    text : String → Value
    texts : List String → Value
    items : Values → Value
    flags : List (String × Bool) → Value
    object : Fields → Value

  pub data Values : Type 0 where
    nil : Values
    cons : Value → Values → Values

  pub data Fields : Type 0 where
    end : Fields
    field : String → Value → Fields → Fields

-- `Claims` with the fields of the embedded `jwt.RegisteredClaims` that the program reads.
pub record Claims : Type 0 where
  pub user_id : String
  pub organization_id : String
  pub email : String
  pub email_verified : Bool
  pub preferred_username : String
  pub name : String
  pub given_name : String
  pub family_name : String
  pub locale : String
  pub nonce : String
  pub raw_claims : List (String × Value)
  pub subject : String
  pub expires_at : Option ℤ

pub record AuthorizationRequest : Type 0 where
  pub state : String
  pub nonce : String
  pub code_challenge : String
  pub scope : String

pub record TokenResponse : Type 0 where
  pub access_token : String
  pub id_token : String
  pub token_type : String
  pub expires_in : ℤ
