-- ===== src/Tokens/Dead.antt =====
-- What the calls leave of a token that is revoked.
use saas_frontend.Base.{
  ℕ, ◌≡◌, refl, sym, ap, ◌∙◌, inl, inr, Bool, true, false, Option, none, some, List, [], ◌∷◌,
  Result, ok, err, arith, ◌==◌, ==_iff, ltb, if◌then◌else◌, All, update_where,
  find_one-update_where, Option-cases, Bool-cases,
}
use saas_frontend.Tokens.Defs.{
  RefreshToken, Tokens, Visit, Error, find_by_hash, is_revoked, revoke_where, is_live_of, generate,
  rotated, exchange, rotate_refresh_token, revoke_refresh_token,
}

-- A token of an owner that was handed out and is revoked.
pub record IsDead (owner hash : ℕ) (t : Tokens) : Type 0 where
  pub row : RefreshToken
  pub found : find_by_hash hash t ≡ some row
  pub owned : row.owner_id ≡ owner
  pub dead : is_revoked row.revoked_at ≡ true

pub revoke_where-found :
    (now hash : ℕ) (p : RefreshToken → Bool) (row : RefreshToken) (t : Tokens)
    → find_by_hash hash t ≡ some row
    → find_by_hash hash (revoke_where now p t)
      ≡ some (if p row then record row { revoked_at = some now } else row)
revoke_where-found now hash p row t found =
    find_one-update_where (λ (r : RefreshToken). r.token_hash == hash) p
      (λ r. record r { revoked_at = some now }) t.rows {x = row} (λ y. refl) found

pub revoke_where-IsDead :
    (owner now hash : ℕ) (p : RefreshToken → Bool) (t : Tokens)
    → IsDead owner hash t
    → IsDead owner hash (revoke_where now p t)
revoke_where-IsDead owner now hash p t d =
    let found = revoke_where-found now hash p d.row t d.found in
    elim (Bool-cases (p d.row)) [
      | inl hit ↦ record {
        row = record d.row { revoked_at = some now };
        found = found ∙ rw hit refl;
        owned = d.owned;
        dead = refl;
      }
      | inr miss ↦ record {
        row = d.row;
        found = found ∙ rw miss refl;
        owned = d.owned;
        dead = d.dead;
      }
    ]

pub new_hash :
    (hash hash' : ℕ) (row : RefreshToken) (t : Tokens)
    → find_by_hash hash t ≡ none
    → find_by_hash hash' t ≡ some row
    → (hash == hash') ≡ false
new_hash hash hash' row t free found = elim (Bool-cases (hash == hash')) [
  | inl hit ↦
      let e : hash ≡ hash' = (==_iff hash hash').0 hit in
      absurd (cc (sym free ∙ ap (λ h. find_by_hash h t) e ∙ found))
  | inr miss ↦ miss
]

pub revoked-All :
    (owner now : ℕ) (rows : List RefreshToken)
    → All
        (λ (row : RefreshToken). is_live_of owner row ≡ false)
        (update_where (is_live_of owner) (λ r. record r { revoked_at = some now }) rows)
revoked-All owner now [] = tt
revoked-All owner now (r ∷ rows) = (
  elim (Bool-cases (is_live_of owner r)) [
    | inl live ↦ rw live (ground arith)
    | inr not_live ↦ rw not_live not_live
  ],
  revoked-All owner now rows,
)

module _ (sha256 : ℕ → ℕ) where
  pub generate-IsDead :
      (owner hash days : ℕ) (v : Visit) (o : ℕ) (t : Tokens)
      → IsDead owner hash t
      → IsDead owner hash (generate sha256 days v o t).1
  generate-IsDead owner hash days v o t d =
      elim (Option-cases (find_by_hash (sha256 v.opaque_token) t)) [
        | inr (other, taken) ↦ rw (generate, taken) d
        | inl free ↦
            let apart : (sha256 v.opaque_token == hash) ≡ false =
              new_hash (sha256 v.opaque_token) hash d.row t free d.found in
            rw (generate, free)
              (record { row = d.row; found = rw apart d.found; owned = d.owned; dead = d.dead })
      ]

  pub rotated-IsDead :
      (owner hash o : ℕ) (z : Result Error ℕ × Tokens)
      → IsDead owner hash z.1
      → IsDead owner hash (rotated o z).1
  rotated-IsDead owner hash o (ok token, t) d = d
  rotated-IsDead owner hash o (err e, t) d = d

  pub exchange-IsDead :
      (owner hash days : ℕ) (v : Visit) (row : RefreshToken) (t : Tokens)
      → IsDead owner hash t
      → IsDead owner hash (exchange sha256 days v row t).1
  exchange-IsDead owner hash days v row t d = elim (Bool-cases (ltb row.expires_at v.now)) [
    | inl late ↦ rw (exchange, late) d
    | inr valid ↦
        rw (exchange, valid)
          (rotated-IsDead owner hash row.owner_id _ (
            generate-IsDead owner hash days v row.owner_id _
              (revoke_where-IsDead owner v.now hash (λ r. r.id == row.id) t d)))
  ]

  pub rotate-IsDead :
      (owner hash : ℕ) (v : Visit) (token : ℕ) (t : Tokens)
      → IsDead owner hash t
      → IsDead owner hash (rotate_refresh_token sha256 v token t).1
  unfolding rotate_refresh_token
  rotate-IsDead owner hash v token t d = elim (Option-cases (find_by_hash (sha256 token) t)) [
    | inl unknown ↦ rw (rotate_refresh_token, unknown) d
    | inr (row, found) ↦ elim (Bool-cases (is_revoked row.revoked_at)) [
      | inl old ↦
          rw (rotate_refresh_token, found, old)
            (revoke_where-IsDead owner v.now hash (is_live_of row.owner_id) t d)
      | inr live ↦ rw (rotate_refresh_token, found, live) (exchange-IsDead owner hash 30 v row t d)
    ]
  ]

  pub revoke-IsDead :
      (owner hash now : ℕ) (token : Option ℕ) (t : Tokens)
      → IsDead owner hash t
      → IsDead owner hash (revoke_refresh_token sha256 now token t)
  unfolding revoke_refresh_token
  revoke-IsDead owner hash now none t d = d
  revoke-IsDead owner hash now (some token) t d =
      elim (Option-cases (find_by_hash (sha256 token) t)) [
        | inl unknown ↦ rw (revoke_refresh_token, unknown) d
        | inr (row, found) ↦ elim (Bool-cases (is_revoked row.revoked_at)) [
          | inl old ↦ rw (revoke_refresh_token, found, old) d
          | inr live ↦
              rw (revoke_refresh_token, found, live)
                (revoke_where-IsDead owner now hash (λ r. r.id == row.id) t d)
        ]
      ]
