-- ===== src/Identity/Accounts.antt =====
-- What the service of domain/identity/service.go promises, and what it leaves open.
use mall.Base.{String, ◌≡◌, ◌≢◌, refl, ap, sym, ◌∙◌, none, arith, true, inl, inr}
use mall.Kernel.{Time, ok, err, Error, Result-cases, new_domain_error, invalid_argument}
use mall.Identity.User.{User, PasswordResetToken, new_password, change_password}
use mall.Identity.Service.{IdentityService, IdentityWorld, login, reset_password}

abbrev pub already_used : Error
already_used = new_domain_error invalid_argument "reset token already used"

module _ {S T : Type 0} (svc : IdentityService S T) where
  -- What is relied on of the stored reset tokens: one that was marked as used is found again,
  -- marked.
  pub record KeepsMarks : Type 0 where
    pub find_marked :
        (h : String) (r : T) (t : PasswordResetToken)
        → svc.find_by_hash h r ≡ ok t
        → (svc.mark_used t.id r).0 ≡ none
        → (t' : PasswordResetToken) × (svc.find_by_hash h (svc.mark_used t.id r).1 ≡ ok t')
          × (t'.used ≡ true)

  reset_password_used :
      (raw text : String) (now touched : Time) (w : IdentityWorld S T) (t : PasswordResetToken)
      → svc.find_by_hash (svc.hash_token raw) w.resets ≡ ok t
      → t.used ≡ true
      → reset_password svc raw text now touched w ≡ (err already_used, w)
  unfolding reset_password
  reset_password_used raw text now touched w t found used = ground (arith, found, used)

  reset_password_ok :
      (raw text : String) (now touched : Time) (w w' : IdentityWorld S T) (t : PasswordResetToken)
      → svc.find_by_hash (svc.hash_token raw) w.resets ≡ ok t
      → reset_password svc raw text now touched w ≡ (ok tt, w')
      → ((svc.mark_used t.id w.resets).0 ≡ none) × (w'.resets ≡ (svc.mark_used t.id w.resets).1)
  unfolding reset_password change_password
  reset_password_ok raw text now touched w w' t found done =
      elim (Result-cases (svc.find_by_id t.user_id w.users)) [
        | inr (e, unknown) ↦ absurd (ground (arith, found, done, unknown))
        | inl (u, known) ↦ elim (Result-cases (new_password svc.hashed text)) [
          | inr (e, refused) ↦ absurd (ground (arith, found, done, known, refused))
          | inl (p, made) ↦
              (ground (arith, found, done, known, made), ground (arith, found, done, known, made))
        ]
      ]

  -- Over reset tokens that stay marked once they are marked: where a token has reset a password, a
  -- further reset with it, at any time and with any password, returns an error and changes nothing.
  pub reset_password_once :
      KeepsMarks
      → (raw text again : String) (now touched later touched' : Time) (w w' : IdentityWorld S T)
      → reset_password svc raw text now touched w ≡ (ok tt, w')
      → reset_password svc raw again later touched' w' ≡ (err already_used, w')
  unfolding reset_password
  reset_password_once keeps raw text again now touched later touched' w w' done =
      elim (Result-cases (svc.find_by_hash (svc.hash_token raw) w.resets)) [
        | inr (e, missing) ↦ absurd (ground (arith, done, missing))
        | inl (t, found) ↦
            let (marked, resets) = reset_password_ok raw text now touched w w' t found done in
            let (t', again_found, used) =
              keeps.find_marked (svc.hash_token raw) w.resets t found marked in
            reset_password_used raw again later touched' w' t' (rw (resets, again_found) refl) used
      ]

  -- A user is found by the email it has.
  abbrev pub FindsByEmail : Type 0
  FindsByEmail = (e : String) (s : S) (u : User) → svc.find_by_email e s ≡ ok u → u.email ≡ e

  -- As every user that `register` makes has it.
  abbrev pub HasLowerEmail : User → Type 0
  HasLowerEmail u = svc.rules.to_lower u.email ≡ u.email

  -- The service stores emails in lower case and looks them up as they are given: where every user
  -- that is found has its email in lower case, and is found by it, a login with an email that is
  -- not in lower case fails, whoever registered with it and whatever the password.
  pub login_not_lower :
      FindsByEmail
      → (email plaintext : String) (s : S)
      → ((e : String) (u : User) → svc.find_by_email e s ≡ ok u → HasLowerEmail u)
      → svc.rules.to_lower email ≢ email
      → (e : Error) × (login svc email plaintext s ≡ (err e, s))
  unfolding login
  login_not_lower finds email plaintext s lower other =
      elim (Result-cases (svc.find_by_email email s)) [
        | inr (e, missing) ↦ (e, ground (arith, missing))
        | inl (u, found) ↦ absurd (
            other (
              ap svc.rules.to_lower (sym (finds email s u found))
              ∙ lower email u found
              ∙ finds email s u found))
      ]
