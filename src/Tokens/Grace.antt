-- ===== src/Tokens/Grace.antt =====
-- The window in which a revoked token of a platform admin is let through.
use saas_frontend.Base.{
  ℕ, ◌+◌, ◌<◌, ◌≤◌, ◌≡◌, ◌⊎◌, refl, ◌∙◌, inl, inr, true, false, ◌&&◌, none, some, ok, err, arith,
  ◌==◌, ==_iff, ltb, Option-cases, All, Bool-cases,
}
use saas_frontend.Tokens.Defs.{
  RefreshToken, Tokens, Visit, reuse_detected, find_by_hash, is_revoked, revoke, is_live_of,
  has_replacement, is_in_grace, Rotated, exchange, generate, rotate_platform_refresh_token,
}
use saas_frontend.Tokens.Dead.{revoke_where-found, revoked-All, new_hash}

-- From 15 seconds on, and for an admin without a live session at any time, a revoked token is
-- refused, and every session of the admin is ended.
pub grace-ends :
    (sha256 : ℕ → ℕ) (token time : ℕ) (v : Visit) (row : RefreshToken) (t : Tokens)
    → find_by_hash (sha256 token) t ≡ some row
    → row.revoked_at ≡ some time
    → (time + 15000 ≤ v.now) ⊎ (has_replacement row.owner_id t ≡ false)
    → let (r, t') = rotate_platform_refresh_token sha256 v token t in
      (r ≡ err reuse_detected)
      × All (λ (r : RefreshToken). is_live_of row.owner_id r ≡ false) t'.rows
unfolding rotate_platform_refresh_token
grace-ends sha256 token time v row t found dead over =
    let shut : (is_in_grace v.now row.revoked_at && has_replacement row.owner_id t) ≡ false =
      elim over [ inl late ↦ rw dead (ground (arith, late)) | inr alone ↦ ground (arith, alone) ] in
    let old : is_revoked row.revoked_at ≡ true = rw dead refl in
    rw (rotate_platform_refresh_token, found)
      (rw (old, shut) (refl, revoked-All row.owner_id v.now t.rows))

-- A token that was revoked less than 15 seconds ago is let through, if its admin has a live one.
grace-lasts :
    (sha256 : ℕ → ℕ) (token time : ℕ) (v : Visit) (row : RefreshToken) (t : Tokens)
    → find_by_hash (sha256 token) t ≡ some row
    → row.revoked_at ≡ some time
    → v.now < time + 15000
    → has_replacement row.owner_id t ≡ true
    → rotate_platform_refresh_token sha256 v token t
      ≡ (ok (record { new_token = none; owner_id = row.owner_id }), t)
unfolding rotate_platform_refresh_token
grace-lasts sha256 token time v row t found dead soon has =
    let within : is_in_grace v.now row.revoked_at ≡ true = rw dead (ground (arith, soon)) in
    let old : is_revoked row.revoked_at ≡ true = rw dead refl in
    rw (rotate_platform_refresh_token, found) (rw (old, within, has) refl)

-- What an exchange leaves: the old row, revoked, and a live one.
abbrev Exchanged : ℕ → ℕ → ℕ → Tokens → Type 0
Exchanged hash owner now t =
    (row : RefreshToken) × (find_by_hash hash t ≡ some row)
    × (row.revoked_at ≡ some now)
    × (row.owner_id ≡ owner)
    × (has_replacement owner t ≡ true)

exchange-Exchanged :
    (sha256 : ℕ → ℕ) (v : Visit) (hash : ℕ) (row : RefreshToken) (x : Rotated) (t : Tokens)
    → find_by_hash hash t ≡ some row
    → (exchange sha256 7 v row t).0 ≡ ok x
    → Exchanged hash x.owner_id v.now (exchange sha256 7 v row t).1
exchange-Exchanged sha256 v hash row x t found done = elim (Bool-cases (ltb row.expires_at v.now)) [
  | inl late ↦ absurd (ground (arith, late, done))
  | inr valid ↦
      let dead : RefreshToken = record row { revoked_at = some v.now } in
      let found' : find_by_hash hash (revoke v.now row.id t) ≡ some dead =
        revoke_where-found v.now hash (λ r. r.id == row.id) row t found
        ∙ ground (arith, ==_iff row.id row.id) in
      elim (Option-cases (find_by_hash (sha256 v.opaque_token) (revoke v.now row.id t))) [
        | inr (other, taken) ↦ absurd (ground (arith, valid, taken, done))
        | inl free ↦
            let apart =
              new_hash (sha256 v.opaque_token) hash dead (revoke v.now row.id t) free found' in
            let owned : row.owner_id ≡ x.owner_id = ground (arith, valid, free, done) in
            rw (← owned) (
              rw (exchange, valid, generate, free)
                (
                  dead,
                  rw apart found',
                  refl,
                  refl,
                  ground (arith, ==_iff row.owner_id row.owner_id),
                ))
      ]
]

-- Only an exchange answers with a new token.
platform-Exchanged :
    (sha256 : ℕ → ℕ) (v : Visit) (token new : ℕ) (x : Rotated) (t : Tokens)
    → (rotate_platform_refresh_token sha256 v token t).0 ≡ ok x
    → x.new_token ≡ some new
    → Exchanged (sha256 token) x.owner_id v.now (rotate_platform_refresh_token sha256 v token t).1
unfolding rotate_platform_refresh_token
platform-Exchanged sha256 v token new x t done fresh =
    elim (Option-cases (find_by_hash (sha256 token) t)) [
      | inl unknown ↦ absurd (ground (arith, unknown, done))
      | inr (row, found) ↦ elim (Bool-cases (is_revoked row.revoked_at)) [
        | inr live ↦
            rw (rotate_platform_refresh_token, found, live)
              (exchange-Exchanged sha256 v (sha256 token) row x t found
                (rw (rotate_platform_refresh_token, found, live) at done))
        | inl old ↦
            elim (Bool-cases (is_in_grace v.now row.revoked_at && has_replacement row.owner_id t)) [
              | inl let_in ↦ absurd (ground (arith, found, old, let_in, done, fresh))
              | inr out ↦ absurd (ground (arith, found, old, out, done))
            ]
      ]
    ]

-- A token of an admin that was exchanged for another and is presented once more, with no other call in
-- between: within 15 seconds of the exchange it is let through with no new token, and changes nothing;
-- from then on it is refused, and every session of the admin is ended.
pub rotate_platform-again :
    (sha256 : ℕ → ℕ) (v v' : Visit) (token new : ℕ) (x : Rotated) (t : Tokens)
    → (rotate_platform_refresh_token sha256 v token t).0 ≡ ok x
    → x.new_token ≡ some new
    → let t' = (rotate_platform_refresh_token sha256 v token t).1 in
      let z = rotate_platform_refresh_token sha256 v' token t' in
      (v'.now < v.now + 15000 → z ≡ (ok (record { new_token = none; owner_id = x.owner_id }), t'))
      × (v.now + 15000 ≤ v'.now
          → (z.0 ≡ err reuse_detected)
            × All (λ (r : RefreshToken). is_live_of x.owner_id r ≡ false) z.1.rows)
rotate_platform-again sha256 v v' token new x t done fresh =
    let t' = (rotate_platform_refresh_token sha256 v token t).1 in
    let (row, found, dead, owned, has) = platform-Exchanged sha256 v token new x t done fresh in
    (
      λ soon.
          rw (← owned) (grace-lasts sha256 token v.now v' row t' found dead soon (rw owned has)),
      λ late. rw (← owned) (grace-ends sha256 token v.now v' row t' found dead (inl late)),
    )
