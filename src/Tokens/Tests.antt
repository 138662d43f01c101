-- ===== src/Tokens/Tests.antt =====
-- A user with one session, an admin with two, and instances of the theorems.
use saas_frontend.Base.{ℕ, ◌+◌, ◌≡◌, ◌<◌, ◌≤◌, refl, false, none, some, List, [], ◌∷◌, ok, err, All}
use saas_frontend.Tokens.Defs.{
  RefreshToken, Tokens, Visit, reuse_detected, is_live_of, rotate_refresh_token,
  rotate_platform_refresh_token,
}
use saas_frontend.Tokens.Once.{Op, rotates, generates, revokes, run, rotate-once}
use saas_frontend.Tokens.Grace.{rotate_platform-again}

-- A hash that tells tokens apart.
abbrev hash : ℕ → ℕ
hash n = n + 7

abbrev session : ℕ → ℕ → RefreshToken
session id token = record {
  id = id;
  owner_id = 1;
  token_hash = hash token;
  device_info = none;
  ip_address = none;
  expires_at = 900000;
  revoked_at = none;
}

abbrev tokens : Tokens
tokens = record { rows = session 2 50 ∷ session 1 40 ∷ []; next_id = 3 }

abbrev late : Tokens
late = record {
  rows = session 2 50 ∷ record (session 1 40) { revoked_at = some 1000 } ∷ [];
  next_id = 3;
}

abbrev visit : ℕ → ℕ → Visit
visit now token = record { now = now; opaque_token = token; device_info = none; ip_address = none }

-- A second session is opened, and the new token is exchanged in its turn.
abbrev ops : List Op
ops = generates (visit 1000 70) 1 ∷ rotates (visit 2000 80) 60 ∷ revokes 3000 (some 70) ∷ []

rotate-once_example :
    let t' = run hash ops (rotate_refresh_token hash (visit 500 60) 40 tokens).1 in
    let (r, t'') = rotate_refresh_token hash (visit 4000 90) 40 t' in
    (r ≡ err reuse_detected) × All (λ (row : RefreshToken). is_live_of 1 row ≡ false) t''.rows
unfolding rotate_refresh_token
rotate-once_example =
    rotate-once hash (visit 500 60) (visit 4000 90) 40
      (record { new_token = some 60; owner_id = 1 }) ops tokens refl

rotate_platform-again_example :
    let t' = (rotate_platform_refresh_token hash (visit 500 60) 40 tokens).1 in
    let z = rotate_platform_refresh_token hash (visit 9000 90) 40 t' in
    (9000 < 15500 → z ≡ (ok (record { new_token = none; owner_id = 1 }), t'))
    × (15500 ≤ 9000
        → (z.0 ≡ err reuse_detected) × All (λ (r : RefreshToken). is_live_of 1 r ≡ false) z.1.rows)
unfolding rotate_platform_refresh_token
rotate_platform-again_example =
    rotate_platform-again hash (visit 500 60) (visit 9000 90) 40 60
      (record { new_token = some 60; owner_id = 1 }) tokens refl refl
