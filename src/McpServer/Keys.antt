-- ===== src/McpServer/Keys.antt =====
-- internal/mcpserver/auth.go: the table mcp_api_keys, and how a request is authenticated by it. The
-- column roles holds lists of texts, as Create and Update write them. Failures of the database are
-- left out.
pub mod Revoked
use aceryx.Prelude.{
  ℕ, String, Bool, true, false, not, ◌&&◌, Option, none, some, List, [], ◌∷◌, ◌++◌, filter, any,
  nat_eq, ◌==◌, if◌then◌else◌,
}
use aceryx.Prelude.Text.{trim_space}
use aceryx.Json.{lower_rune, lower_codes}
use aceryx.Tasks.Forms.{same_codes}
use aceryx.McpServer.{Connection}
use Prim.Native.Char.{code}
use Prim.Native.String

pub record ApiKeyRecord : Type 0 where
  pub id : String
  pub tenant_id : String
  pub user_id : String
  pub name : String
  pub key_hash : String
  pub roles : List String
  pub enabled : Bool
  pub last_used_at : Option ℕ

abbrev pub KeyTable : Type 0
KeyTable = List ApiKeyRecord

-- `matches` is bcrypt.CompareHashAndPassword.
module _ (matches : String → String → Bool) where
  -- The loop of ValidateKey over the enabled rows: the row, and the table with the time of its use.
  unfoldable pub validate_key : ℕ → String → KeyTable → Option ApiKeyRecord × KeyTable
  validate_key now key [] = (none, [])
  validate_key now key (row ∷ rest) =
      let later = validate_key now key rest in
      if row.enabled && matches row.key_hash key
      then (some row, record row { last_used_at = some now } ∷ rest)
      else (later.0, row ∷ later.1)

-- What is inserted, with the id and the hash that are made for it.
unfoldable pub create : ApiKeyRecord → KeyTable → KeyTable
create row table = table ++ record row { name = trim_space row.name; last_used_at = none } ∷ []

abbrev pub is_key_of : String → String → ApiKeyRecord → Bool
is_key_of tenant id row = row.tenant_id == tenant && row.id == id

-- Update, and whether a row was found.
unfoldable pub update : String → String → String → List String → Bool → KeyTable → KeyTable
update tenant id name roles enabled [] = []
update tenant id name roles enabled (row ∷ rest) =
    (if is_key_of tenant id row
      then record row { name = trim_space name; roles = roles; enabled = enabled }
      else row)
    ∷ update tenant id name roles enabled rest

unfoldable pub update_key :
    String → String → String → List String → Bool → KeyTable → Bool × KeyTable
update_key tenant id name roles enabled table =
    (any (is_key_of tenant id) table, update tenant id name roles enabled table)

-- Revoke, and whether a row was found.
unfoldable pub revoke : String → String → KeyTable → Bool × KeyTable
revoke tenant id table =
    (any (is_key_of tenant id) table, filter (λ row. not (is_key_of tenant id row)) table)

-- The rest of a text after a prefix in any case of its letters, which are ASCII.
unfoldable pub after_folded : List ℕ → String → Option String
after_folded [] s = some s
after_folded (p ∷ prefix) String.[] = none
after_folded (p ∷ prefix) (String.◌∷◌ c s) =
    let rest = after_folded prefix s in if nat_eq p (lower_rune (code c)) then rest else none

abbrev pub trim_or_none : Option String → Option String
trim_or_none none = none
trim_or_none (some text) = if trim_space text == "" then none else some (trim_space text)

-- The key that a request presents: `header` are its headers.
unfoldable pub presented_key : String → String → (String → String) → Option String
presented_key auth_type auth_header header =
    if same_codes (lower_codes (trim_space auth_type)) (lower_codes "bearer")
    then trim_or_none (after_folded (lower_codes "bearer ") (trim_space (header "Authorization")))
    else trim_or_none (some (header auth_header))

abbrev pub connection_of : ApiKeyRecord → Connection
connection_of row = record { tenant_id = row.tenant_id; roles = row.roles }

module _ (matches : String → String → Bool) where
  abbrev pub validated : ℕ → Option String → KeyTable → Option ApiKeyRecord × KeyTable
  validated now none table = (none, table)
  validated now (some key) table = validate_key matches now key table

  -- Authenticate: the row of the key, whose tenant and roles are the connection's.
  unfoldable pub authenticate :
      ℕ → String → String → (String → String) → KeyTable → Option ApiKeyRecord × KeyTable
  authenticate now auth_type auth_header header table =
      validated now (presented_key auth_type auth_header header) table

-- What is done to the table.
pub data KeyOperation : Type 0 where
  creates : ApiKeyRecord → KeyOperation
  updates : String → String → String → List String → Bool → KeyOperation
  revokes : String → String → KeyOperation
  authenticates : ℕ → String → String → (String → String) → KeyOperation

unfoldable pub operate : (String → String → Bool) → KeyTable → KeyOperation → KeyTable
operate matches table (creates row) = create row table
operate matches table (updates tenant id name roles enabled) =
    (update_key tenant id name roles enabled table).1
operate matches table (revokes tenant id) = (revoke tenant id table).1
operate matches table (authenticates now auth_type auth_header header) =
    (authenticate matches now auth_type auth_header header table).1
