-- ===== src/McpServer/Keys/Revoked.antt =====
-- internal/mcpserver/auth.go: whom a key authenticates, and keys that are revoked.
use aceryx.Prelude.{
  ℕ, String, Bool, true, false, not, ◌&&◌, Option, none, some, List, [], ◌∷◌, All, All-append,
  all_in, In, here, there, filter, fold, ◌≡◌, refl, sym, ap, ◌∙◌, inl, inr, Bool-cases,
  Option-cases, some-injective, and_left, and_right,
}
use aceryx.McpServer.Keys.{
  ApiKeyRecord, KeyTable, validate_key, create, is_key_of, update, update_key, revoke,
  presented_key, authenticate, validated, KeyOperation, creates, updates, revokes, authenticates,
  operate,
}

module _ (matches : String → String → Bool) where
  validate_key-some :
      (now : ℕ) (key : String) (table : KeyTable) (row : ApiKeyRecord)
      → (validate_key matches now key table).0 ≡ some row
      → In row table × (row.enabled ≡ true) × (matches row.key_hash key ≡ true)
  unfolding validate_key
  validate_key-some now key [] row = λ h. cc h
  validate_key-some now key (first ∷ rest) row =
      elim (Bool-cases (first.enabled && matches first.key_hash key)) [
        | inl e ↦ rw (e) (λ h.
            let same = some-injective h in
            let on = and_left first.enabled (matches first.key_hash key) e in
            let match = and_right first.enabled (matches first.key_hash key) e in
            (
              here (sym same),
              ap (λ r. r.enabled) (sym same) ∙ on,
              ap (λ r. matches r.key_hash key) (sym same) ∙ match,
            ))
        | inr e ↦
            rw (e)
              (λ h. let (i, on, same) = validate_key-some now key rest row h in (there i, on, same))
      ]

  -- Who is authenticated presents a key that matches the hash of an enabled row of the table, which
  -- is the row that is answered.
  pub authenticate-some :
      (now : ℕ) (auth_type auth_header : String) (header : String → String) (table : KeyTable)
      (row : ApiKeyRecord)
      → (authenticate matches now auth_type auth_header header table).0 ≡ some row
      → (key : String) × (presented_key auth_type auth_header header ≡ some key)
        × In row table
        × (row.enabled ≡ true)
        × (matches row.key_hash key ≡ true)
  unfolding authenticate
  authenticate-some now auth_type auth_header header table row =
      elim (Option-cases (presented_key auth_type auth_header header)) [
        | inl e ↦ rw (e) (λ h. cc h)
        | inr (key, e) ↦ rw (e) (λ h.
            let (i, on, same) = validate_key-some now key table row h in (key, refl, i, on, same))
      ]

  module _ (tenant id : String) where
    -- The table has no row of the key.
    abbrev pub IsAbsent : KeyTable → Type 0
    IsAbsent table = All (λ row. is_key_of tenant id row ≡ false) table

    -- A key that is made is another one.
    abbrev pub IsFresh : KeyOperation → Type 0
    IsFresh (creates row) = is_key_of tenant id row ≡ false
    IsFresh _ = Unit

    revoke-IsAbsent : (table : KeyTable) → IsAbsent (revoke tenant id table).1
    unfolding revoke
    revoke-IsAbsent [] = tt
    revoke-IsAbsent (row ∷ rest) = elim (Bool-cases (is_key_of tenant id row)) [
      | inl e ↦ rw (e) (revoke-IsAbsent rest)
      | inr e ↦ rw (e) (e, revoke-IsAbsent rest)
    ]

    filter-IsAbsent :
        (test : ApiKeyRecord → Bool) (table : KeyTable)
        → IsAbsent table
        → IsAbsent (filter test table)
    filter-IsAbsent test [] h = h
    filter-IsAbsent test (row ∷ rest) (off, later) = elim (Bool-cases (test row)) [
      | inl e ↦ rw (e) (off, filter-IsAbsent test rest later)
      | inr e ↦ rw (e) (filter-IsAbsent test rest later)
    ]

    update-IsAbsent :
        (t i name : String) (roles : List String) (enabled : Bool) (table : KeyTable)
        → IsAbsent table
        → IsAbsent (update t i name roles enabled table)
    unfolding update
    update-IsAbsent t i name roles enabled [] h = h
    update-IsAbsent t i name roles enabled (row ∷ rest) (off, later) = (
      elim (Bool-cases (is_key_of t i row)) [ inl e ↦ rw (e) off | inr e ↦ rw (e) off ],
      update-IsAbsent t i name roles enabled rest later,
    )

    validate_key-IsAbsent :
        (now : ℕ) (key : String) (table : KeyTable)
        → IsAbsent table
        → IsAbsent (validate_key matches now key table).1
    unfolding validate_key
    validate_key-IsAbsent now key [] h = h
    validate_key-IsAbsent now key (row ∷ rest) (off, later) =
        elim (Bool-cases (row.enabled && matches row.key_hash key)) [
          | inl e ↦ rw (e) (off, later)
          | inr e ↦ rw (e) (off, validate_key-IsAbsent now key rest later)
        ]

    validated-IsAbsent :
        (now : ℕ) (key : Option String) (table : KeyTable)
        → IsAbsent table
        → IsAbsent (validated matches now key table).1
    validated-IsAbsent now none table h = h
    validated-IsAbsent now (some key) table h = validate_key-IsAbsent now key table h

    operate-IsAbsent :
        (table : KeyTable) (operation : KeyOperation)
        → IsFresh operation
        → IsAbsent table
        → IsAbsent (operate matches table operation)
    unfolding operate create update_key revoke authenticate
    operate-IsAbsent table (creates row) fresh h = All-append _ table _ h (fresh, tt)
    operate-IsAbsent table (updates t i name roles enabled) fresh h =
        update-IsAbsent t i name roles enabled table h
    operate-IsAbsent table (revokes t i) fresh h =
        filter-IsAbsent (λ row. not (is_key_of t i row)) table h
    operate-IsAbsent table (authenticates now auth_type auth_header header) fresh h =
        validated-IsAbsent now (presented_key auth_type auth_header header) table h

    run-IsAbsent :
        (operations : List KeyOperation) (table : KeyTable)
        → All IsFresh operations
        → IsAbsent table
        → IsAbsent (fold (operate matches) table operations)
    run-IsAbsent [] table fresh h = h
    run-IsAbsent (operation ∷ rest) table (first, later) h =
        run-IsAbsent rest (operate matches table operation) later
          (operate-IsAbsent table operation first h)

    -- A key that was revoked authenticates nobody any more, whatever keys are made, changed, revoked
    -- and used after it, where each new key has another id or tenant.
    pub revoked_stays :
        (table : KeyTable) (operations : List KeyOperation) (now : ℕ)
        (auth_type auth_header : String) (header : String → String) (row : ApiKeyRecord)
        → All IsFresh operations
        → (authenticate matches now auth_type auth_header header
            (fold (operate matches) (revoke tenant id table).1 operations)).0
          ≡ some row
        → is_key_of tenant id row ≡ false
    revoked_stays table operations now auth_type auth_header header row fresh h =
        let left = fold (operate matches) (revoke tenant id table).1 operations in
        let (_, _, i, _, _) = authenticate-some now auth_type auth_header header left row h in
        all_in _ (run-IsAbsent operations (revoke tenant id table).1 fresh (revoke-IsAbsent table))
          i
