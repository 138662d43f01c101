-- ===== src/Tokens/Defs.antt =====
-- The tables of refresh tokens, and the operations on them. The two tables have the same columns, so
-- they are one type; a user and an admin are an owner. A token is a number, its hash is what the
-- parameter `sha256` gives, and times are in milliseconds.
use saas_frontend.Base.{
  ℕ, ◌+◌, ◌*◌, Bool, true, false, ◌&&◌, not, Option, none, some, List, ◌∷◌, Result, ok, err, ◌==◌,
  ltb, if◌then◌else◌, find_one, update_where,
}
use saas_frontend.Base.Text.{Text}

-- A row of `refresh_tokens` or `platform_refresh_tokens`.
pub record RefreshToken : Type 0 where
  pub id : ℕ
  pub owner_id : ℕ
  pub token_hash : ℕ
  pub device_info : Option Text
  pub ip_address : Option Text
  pub expires_at : ℕ
  pub revoked_at : Option ℕ

pub record Tokens : Type 0 where
  pub rows : List RefreshToken
  pub next_id : ℕ

-- The clock, the random token that a call may hand out, and where the call comes from.
pub record Visit : Type 0 where
  pub now : ℕ
  pub opaque_token : ℕ
  pub device_info : Option Text
  pub ip_address : Option Text

-- `token_hash` is unique: `duplicate_hash` is the refusal of a second row.
pub data Error : Type 0 where
  invalid_refresh_token reuse_detected refresh_token_expired duplicate_hash : Error

abbrev pub find_by_hash : ℕ → Tokens → Option RefreshToken
find_by_hash hash t = find_one (λ r. r.token_hash == hash) t.rows

abbrev pub is_revoked : Option ℕ → Bool
is_revoked none = false
is_revoked (some time) = true

abbrev pub revoke_where : ℕ → (RefreshToken → Bool) → Tokens → Tokens
revoke_where now p t = record t {
  rows = update_where p (λ r. record r { revoked_at = some now }) t.rows;
}

abbrev pub revoke : ℕ → ℕ → Tokens → Tokens
revoke now id t = revoke_where now (λ r. r.id == id) t

abbrev pub is_live_of : ℕ → RefreshToken → Bool
is_live_of owner r = (r.owner_id == owner) && not (is_revoked r.revoked_at)

abbrev pub revoke_family : ℕ → ℕ → Tokens → Tokens
revoke_family now owner t = revoke_where now (is_live_of owner) t

abbrev pub a_day : ℕ
a_day = 86400000

abbrev pub generate : (ℕ → ℕ) → ℕ → Visit → ℕ → Tokens → Result Error ℕ × Tokens
generate sha256 days v owner t =
    let hash = sha256 v.opaque_token in
    elim (find_by_hash hash t) [
      | some row ↦ (err duplicate_hash, t)
      | none ↦ (
        ok v.opaque_token,
        record t {
          rows =
              record {
                id = t.next_id;
                owner_id = owner;
                token_hash = hash;
                device_info = v.device_info;
                ip_address = v.ip_address;
                expires_at = v.now + days * a_day;
                revoked_at = none;
              }
              ∷ t.rows;
          next_id = t.next_id + 1;
        },
      )
    ]

-- `generateRefreshToken` and `generatePlatformRefreshToken`
unfoldable pub generate_refresh_token : (ℕ → ℕ) → Visit → ℕ → Tokens → Result Error ℕ × Tokens
generate_refresh_token sha256 v owner t = generate sha256 30 v owner t

unfoldable pub generate_platform_refresh_token :
    (ℕ → ℕ) → Visit → ℕ → Tokens → Result Error ℕ × Tokens
generate_platform_refresh_token sha256 v owner t = generate sha256 7 v owner t

-- The answer of a rotation: the new token, if one was made, and its owner.
pub record Rotated : Type 0 where
  pub new_token : Option ℕ
  pub owner_id : ℕ

abbrev pub rotated : ℕ → Result Error ℕ × Tokens → Result Error Rotated × Tokens
rotated owner (ok token, t) = (ok (record { new_token = some token; owner_id = owner }), t)
rotated owner (err e, t) = (err e, t)

-- A token that is not revoked: its own row is revoked before another is made.
abbrev pub exchange : (ℕ → ℕ) → ℕ → Visit → RefreshToken → Tokens → Result Error Rotated × Tokens
exchange sha256 days v row t =
    if ltb row.expires_at v.now
    then (err refresh_token_expired, t)
    else rotated row.owner_id (generate sha256 days v row.owner_id (revoke v.now row.id t))

-- `rotateRefreshToken`
unfoldable pub rotate_refresh_token : (ℕ → ℕ) → Visit → ℕ → Tokens → Result Error Rotated × Tokens
rotate_refresh_token sha256 v token t = elim (find_by_hash (sha256 token) t) [
  | none ↦ (err invalid_refresh_token, t)
  | some row ↦
      if is_revoked row.revoked_at
      then (err reuse_detected, revoke_family v.now row.owner_id t)
      else exchange sha256 30 v row t
]

-- A token that was revoked less than 15 seconds ago is let through if its admin has a live one.
abbrev pub has_replacement : ℕ → Tokens → Bool
has_replacement owner t = elim (find_one (is_live_of owner) t.rows) [ none ↦ false | some r ↦ true ]

abbrev pub is_in_grace : ℕ → Option ℕ → Bool
is_in_grace now none = false
is_in_grace now (some time) = ltb now (time + 15000)

-- `rotatePlatformRefreshToken`
unfoldable pub rotate_platform_refresh_token :
    (ℕ → ℕ) → Visit → ℕ → Tokens → Result Error Rotated × Tokens
rotate_platform_refresh_token sha256 v token t = elim (find_by_hash (sha256 token) t) [
  | none ↦ (err invalid_refresh_token, t)
  | some row ↦
      if is_revoked row.revoked_at
      then (if is_in_grace v.now row.revoked_at && has_replacement row.owner_id t
          then (ok (record { new_token = none; owner_id = row.owner_id }), t)
          else (err reuse_detected, revoke_family v.now row.owner_id t))
      else exchange sha256 7 v row t
]

abbrev pub revoke_if_live : ℕ → Option RefreshToken → Tokens → Tokens
revoke_if_live now none t = t
revoke_if_live now (some row) t = if is_revoked row.revoked_at then t else revoke now row.id t

-- `revokeRefreshToken`: nothing happens without a token. `revokePlatformRefreshToken` would do the same
-- on its table, and is called from nowhere.
unfoldable pub revoke_refresh_token : (ℕ → ℕ) → ℕ → Option ℕ → Tokens → Tokens
revoke_refresh_token sha256 now none t = t
revoke_refresh_token sha256 now (some token) t =
    revoke_if_live now (find_by_hash (sha256 token) t) t
