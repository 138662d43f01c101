-- ===== src/Tokens/Once.antt =====
-- A refresh token is exchanged once.
use saas_frontend.Base.{
  ℕ, ◌≡◌, refl, sym, subst, ◌⊎◌, ◌∙◌, inl, inr, false, Option, some, List, [], ◌∷◌, Result, ok, err,
  arith, ◌==◌, ==_iff, ltb, All, Option-cases, Bool-cases,
}
use saas_frontend.Tokens.Defs.{
  RefreshToken, Tokens, Visit, Error, reuse_detected, find_by_hash, is_revoked, revoke, is_live_of,
  generate_refresh_token, Rotated, rotated, exchange, rotate_refresh_token, revoke_refresh_token,
}
use saas_frontend.Tokens.Dead.{
  IsDead, revoke_where-found, revoked-All, generate-IsDead, rotate-IsDead, revoke-IsDead,
}

module _ (sha256 : ℕ → ℕ) where
  -- How a rotation ends: refused, or with the token that was given for it dead.
  abbrev Ends : ℕ → Result Error Rotated × Tokens → Type 0
  Ends hash z =
      ((e : Error) × (z.0 ≡ err e)) ⊎ ((x : Rotated) × (z.0 ≡ ok x) × IsDead x.owner_id hash z.1)

  rotated-Ends :
      (owner hash : ℕ) (z : Result Error ℕ × Tokens)
      → IsDead owner hash z.1
      → Ends hash (rotated owner z)
  rotated-Ends owner hash (ok token, t) d = inr (_, refl, d)
  rotated-Ends owner hash (err e, t) d = inl (e, refl)

  exchange-Ends :
      (hash days : ℕ) (v : Visit) (row : RefreshToken) (t : Tokens)
      → find_by_hash hash t ≡ some row
      → Ends hash (exchange sha256 days v row t)
  exchange-Ends hash days v row t found = elim (Bool-cases (ltb row.expires_at v.now)) [
    | inl late ↦ rw (exchange, late) (inl (_, refl))
    | inr valid ↦
        let gone : IsDead row.owner_id hash (revoke v.now row.id t) = record {
          row = record row { revoked_at = some v.now };
          found =
              revoke_where-found v.now hash (λ r. r.id == row.id) row t found
              ∙ ground (arith, ==_iff row.id row.id);
          owned = refl;
          dead = refl;
        } in
        rw (exchange, valid)
          (rotated-Ends row.owner_id hash _
            (generate-IsDead sha256 row.owner_id hash days v row.owner_id _ gone))
  ]

  rotate-Ends :
      (v : Visit) (token : ℕ) (t : Tokens)
      → Ends (sha256 token) (rotate_refresh_token sha256 v token t)
  unfolding rotate_refresh_token
  rotate-Ends v token t = elim (Option-cases (find_by_hash (sha256 token) t)) [
    | inl unknown ↦ rw (rotate_refresh_token, unknown) (inl (_, refl))
    | inr (row, found) ↦ elim (Bool-cases (is_revoked row.revoked_at)) [
      | inl old ↦ rw (rotate_refresh_token, found, old) (inl (_, refl))
      | inr live ↦
          rw (rotate_refresh_token, found, live) (exchange-Ends (sha256 token) 30 v row t found)
    ]
  ]

  -- A dead token that is presented kills every live one of its owner.
  reuse :
      (owner : ℕ) (v : Visit) (token : ℕ) (t : Tokens)
      → IsDead owner (sha256 token) t
      → let (r, t') = rotate_refresh_token sha256 v token t in
        (r ≡ err reuse_detected) × All (λ row. is_live_of owner row ≡ false) t'.rows
  unfolding rotate_refresh_token
  reuse owner v token t d =
      rw (rotate_refresh_token, d.found, d.dead, d.owned) (refl, revoked-All owner v.now t.rows)

-- The calls on a table of tokens.
pub data Op : Type 0 where
  rotates : Visit → ℕ → Op
  generates : Visit → ℕ → Op
  revokes : ℕ → Option ℕ → Op

abbrev pub step : (ℕ → ℕ) → Op → Tokens → Tokens
step sha256 (rotates v token) t = (rotate_refresh_token sha256 v token t).1
step sha256 (generates v owner) t = (generate_refresh_token sha256 v owner t).1
step sha256 (revokes now token) t = revoke_refresh_token sha256 now token t

abbrev pub run : (ℕ → ℕ) → List Op → Tokens → Tokens
run sha256 [] t = t
run sha256 (op ∷ ops) t = run sha256 ops (step sha256 op t)

run-IsDead :
    (sha256 : ℕ → ℕ) (owner hash : ℕ) (ops : List Op) (t : Tokens)
    → IsDead owner hash t
    → IsDead owner hash (run sha256 ops t)
unfolding generate_refresh_token
run-IsDead sha256 owner hash [] t d = d
run-IsDead sha256 owner hash (rotates v token ∷ ops) t d =
    run-IsDead sha256 owner hash ops _ (rotate-IsDead sha256 owner hash v token t d)
run-IsDead sha256 owner hash (generates v o ∷ ops) t d =
    run-IsDead sha256 owner hash ops _ (generate-IsDead sha256 owner hash 30 v o t d)
run-IsDead sha256 owner hash (revokes now token ∷ ops) t d =
    run-IsDead sha256 owner hash ops _ (revoke-IsDead sha256 owner hash now token t d)

-- A refresh token that was exchanged is never exchanged again: whatever calls that rotate, hand out
-- and revoke tokens come in between, one after another, who presents it is refused, and every session
-- of its owner is ended.
pub rotate-once :
    (sha256 : ℕ → ℕ) (v v' : Visit) (token : ℕ) (x : Rotated) (ops : List Op) (t : Tokens)
    → (rotate_refresh_token sha256 v token t).0 ≡ ok x
    → let t' = run sha256 ops (rotate_refresh_token sha256 v token t).1 in
      let (r, t'') = rotate_refresh_token sha256 v' token t' in
      (r ≡ err reuse_detected)
      × All (λ (row : RefreshToken). is_live_of x.owner_id row ≡ false) t''.rows
rotate-once sha256 v v' token x ops t done = elim (rotate-Ends sha256 v token t) [
  | inl (e, refused) ↦ absurd (cc (sym done ∙ refused))
  | inr (y, exchanged, d) ↦
      let same : y ≡ x = cc in
      reuse sha256 x.owner_id v' token _ (
        run-IsDead sha256 x.owner_id (sha256 token) ops _ (
          subst
            (λ (z : Rotated).
              IsDead z.owner_id (sha256 token) (rotate_refresh_token sha256 v token t).1)
            same d))
]
