-- ===== src/Identity/Tests.antt =====
-- The account theorems at one user, who asks for a reset and uses its token twice.
use text.Mathlib.TextEquality.{eq_iff}
use mall.Base.{
  ◌≡◌, ◌≢◌, refl, ap, true, false, none, [], ◌∷◌, pos, arith, str_eq, String, if◌then◌else◌,
}
use mall.Kernel.{
  Error, Result, ok, err, new_aggregate_root, new_entity, new_domain_error, not_found,
}
use mall.Identity.User.{
  User, PasswordResetToken, active, customer, is_expired, new_password, change_password,
}
use mall.Identity.Service.{IdentityService, IdentityWorld, reset_password}
use mall.Identity.Accounts.{
  KeepsMarks, FindsByEmail, HasLowerEmail, already_used, reset_password_once,
}

abbrev missing : Error
missing = new_domain_error not_found "not found"

-- The lower case of the one text that the tests have with a capital.
abbrev lower : String → String
lower s = if str_eq s "Ann@mall.dev" then "ann@mall.dev" else s

-- One user and one token are stored.
abbrev stored_user : String → User → Result User
stored_user email u = if str_eq u.email email then ok u else err missing

abbrev stored_token : String → PasswordResetToken → Result PasswordResetToken
stored_token h t = if str_eq t.token_hash h then ok t else err missing

abbrev accounts : IdentityService User PasswordResetToken
accounts = record {
  find_by_id = λ id u. ok u;
  find_by_email = stored_user;
  save = λ u s. (none, u);
  save_token = λ t s. (none, t);
  find_by_hash = stored_token;
  mark_used = λ id t. (none, record t { used = true });
  hashed = λ s. ok s;
  compare = λ h s. str_eq h s;
  hash_token = λ s. s;
  rules = record { match_string = λ s. true; to_lower = lower };
}

abbrev ann : User
ann = record {
  root = new_aggregate_root (pos 5) 10 11;
  email = "ann@mall.dev";
  name = "Ann";
  password = record { hash = "tea and milk" };
  status = active;
  roles = customer ∷ [];
}

abbrev token : PasswordResetToken
token = record {
  entity = new_entity (pos 6) 20 21;
  user_id = pos 5;
  token_hash = "a1b2";
  expires_at = 90;
  used = false;
}

abbrev before_reset : IdentityWorld User PasswordResetToken
before_reset = record { users = ann; resets = token }

abbrev after_reset : IdentityWorld User PasswordResetToken
after_reset = (reset_password accounts "a1b2" "milk and tea" 30 31 before_reset).1

was_reset : reset_password accounts "a1b2" "milk and tea" 30 31 before_reset ≡ (ok tt, after_reset)
unfolding reset_password is_expired new_password change_password
was_reset = refl

accounts-KeepsMarks : KeepsMarks accounts
accounts-KeepsMarks = record {
  find_marked = λ h r t found marked. (record r { used = true }, ground (arith, found), refl);
}

reset_password_once_example :
    reset_password accounts "a1b2" "coffee, black" 40 41 after_reset
    ≡ (err already_used, after_reset)
reset_password_once_example =
    reset_password_once accounts accounts-KeepsMarks "a1b2" "milk and tea" "coffee, black" 30 31 40
      41 before_reset after_reset was_reset

accounts-FindsByEmail : FindsByEmail accounts
accounts-FindsByEmail e s u found = ground (arith, found, eq_iff s.email e)

only_lower : (e : String) (u : User) → stored_user e ann ≡ ok u → HasLowerEmail accounts u
only_lower e u found = ground (arith, found)

not_lower : lower "Ann@mall.dev" ≢ "Ann@mall.dev"
not_lower h = absurd (ground (arith, h, ap (λ s. str_eq s "Ann@mall.dev") h))
