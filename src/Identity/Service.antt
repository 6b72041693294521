-- ===== src/Identity/Service.antt =====
-- domain/identity/service.go, over the users and the reset tokens. Logging and the methods that
-- only read are left out; `draw` is what the random reader of a call gives.
use mall.Base.{ℕ, ◌+◌, ◌*◌, String, Bool, not, Option, some, [], if◌then◌else◌}
use mall.Kernel.{
  KernelId, Time, Result, ok, err, Error, Action, ◌>>=◌, ◌>>◌, pure, raise_if, from_result,
  from_outcome, from_save, Repository, modify_stored, create_stored, is_not_found, new_domain_error,
  new_domain_error_with_cause, already_exists, unauthenticated, permission_denied, invalid_argument,
  internal,
}
use mall.Identity.User.{
  User, EmailRules, new_password, new_user, suspend, activate, change_password, verify_password,
  is_suspended, PasswordResetToken, new_password_reset_token, is_expired,
}

pub record IdentityService (S T : Type 0) : Type 0 where
  pub find_by_id : KernelId → S → Result User
  pub find_by_email : String → S → Result User
  pub save : User → S → Option Error × S
  pub save_token : PasswordResetToken → T → Option Error × T
  pub find_by_hash : String → T → Result PasswordResetToken
  pub mark_used : KernelId → T → Option Error × T
  -- the libraries: bcrypt, SHA-256 in hexadecimal, the texts of emails
  pub hashed : String → Result String
  pub compare : String → String → Bool
  pub hash_token : String → String
  pub rules : EmailRules

pub record IdentityWorld (S T : Type 0) : Type 0 where
  pub users : S
  pub resets : T

module _ {S T : Type 0} (svc : IdentityService S T) where
  abbrev World : Type 0
  World = IdentityWorld S T

  abbrev by_id : Repository S User KernelId
  by_id = record { find = svc.find_by_id; save = svc.save }

  abbrev in_users : {A : Type 0} → Action S A → Action World A
  in_users m w = let (r, s) = m w.users in (r, record w { users = s })

  abbrev in_resets : {A : Type 0} → Action T A → Action World A
  in_resets m w = let (r, t) = m w.resets in (r, record w { resets = t })

  -- From the look-up on: an error other than that there is none is returned.
  abbrev unless_registered : Result User → Action S User → Action S User
  unless_registered (ok existing) go s =
      (err (new_domain_error already_exists "email already registered"), s)
  unless_registered (err e) go s = if not (is_not_found e) then (err e, s) else go s

  unfoldable pub register : KernelId → String → String → String → Time → Time → Action S User
  register id email name plaintext created updated s =
      unless_registered (svc.find_by_email email s)
        (do
          password ← from_result (new_password svc.hashed plaintext)
          create_stored by_id (new_user svc.rules id email name (some password) [] created updated))
        s

  -- A login changes nothing.
  unfoldable pub login : String → String → Action S User
  login email plaintext s =
      (do
        user ← from_result (svc.find_by_email email s)
        raise_if (not (verify_password svc.compare user plaintext))
            (new_domain_error unauthenticated "invalid credentials")
        raise_if (is_suspended user.status)
            (new_domain_error permission_denied "account is suspended")
        pure user)
        s

  unfoldable pub suspend_user : KernelId → Time → Action S User
  suspend_user id now = modify_stored by_id id (suspend now)

  unfoldable pub activate_user : KernelId → Time → Action S User
  activate_user id now = modify_stored by_id id (activate now)

  -- The token and its hash.
  abbrev reset_token_of : Result String → Result (String × String)
  reset_token_of (err e) = err (new_domain_error_with_cause internal "generate reset token" e)
  reset_token_of (ok raw) = ok (raw, svc.hash_token raw)

  unfoldable pub generate_reset_token : Result String → Result (String × String)
  generate_reset_token draw = reset_token_of draw

  -- An unknown email gives the empty text and no error.
  abbrev reset_for :
      Result User → Result String → Result KernelId → (ℕ → Time) → Action World String
  reset_for (err e) draw next_id clock w = (ok "", w)
  reset_for (ok user) draw next_id clock w =
      (do
        pair ← from_result (generate_reset_token draw)
        id ← from_result next_id
        in_resets (
            from_save (
              svc.save_token (
                new_password_reset_token id user.id pair.1 (clock 0 + 3600 * 1000000000) (clock 1)
                  (clock 2))))
        pure pair.0)
        w

  unfoldable pub request_password_reset :
      String → Result String → Result KernelId → (ℕ → Time) → Action World String
  request_password_reset email draw next_id clock w =
      reset_for (svc.find_by_email email w.users) draw next_id clock w

  abbrev token_found : Result PasswordResetToken → Result PasswordResetToken
  token_found (ok t) = ok t
  token_found (err e) = err (new_domain_error invalid_argument "invalid or expired reset token")

  -- The user is saved before the token is marked.
  unfoldable pub reset_password : String → String → Time → Time → Action World (Unit {0})
  reset_password raw_token plaintext now touched w =
      (do
        token ← from_result (token_found (svc.find_by_hash (svc.hash_token raw_token) w.resets))
        raise_if token.used (new_domain_error invalid_argument "reset token already used")
        raise_if (is_expired now token)
            (new_domain_error invalid_argument "reset token has expired")
        user ← from_result (svc.find_by_id token.user_id w.users)
        password ← from_result (new_password svc.hashed plaintext)
        changed ← from_outcome (change_password (some password) touched user)
        in_users (from_save (svc.save changed))
        in_resets (from_save (svc.mark_used token.id)))
        w
