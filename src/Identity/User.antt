-- ===== src/Identity/User.antt =====
-- domain/identity/user.go and password_reset.go. bcrypt is a parameter, and so are the regular
-- expression of an email and the lower case of a text.
use Prim.Native.String.{len}
use mall.Base.{
  String, Bool, true, false, ltb, Option, none, some, List, [], ◌∷◌, if◌then◌else◌, is_empty, not,
}
use mall.Kernel.{
  KernelId, Time, AggregateRoot, new_aggregate_root, add_event, touch_root, Entity, new_entity,
  Result, ok, err, Outcome, invalid, new_domain_error, new_domain_error_with_cause,
  invalid_argument, internal,
}

pub data UserStatus : Type 0 where
  active suspended : UserStatus

pub data UserRole : Type 0 where
  customer admin : UserRole

abbrev pub is_suspended : UserStatus → Bool
is_suspended active = false
is_suspended suspended = true

abbrev role_eq : UserRole → UserRole → Bool
role_eq customer customer = true
role_eq admin admin = true
role_eq customer admin = false
role_eq admin customer = false

pub record Password : Type 0 where
  pub hash : String

-- `hashed` is what bcrypt makes of the text.
abbrev password_of : Result String → Result Password
password_of (ok h) = ok (record { hash = h })
password_of (err e) = err (new_domain_error_with_cause internal "password hashing failed" e)

-- Lengths are in bytes.
unfoldable pub new_password : (String → Result String) → String → Result Password
new_password hashed plaintext =
    if ltb (len plaintext) 8
    then err (new_domain_error invalid_argument "password must be at least 8 characters")
    else if ltb 128 (len plaintext)
    then err (new_domain_error invalid_argument "password must not exceed 128 characters")
    else password_of (hashed plaintext)

pub data UserEvent : Type 0 where
  user_registered : KernelId → String → UserEvent
  user_suspended user_activated : KernelId → UserStatus → UserStatus → UserEvent
  user_updated user_password_changed : KernelId → UserEvent

pub record User : Type 0 where
  pub root : AggregateRoot UserEvent
  pub open root use *
  pub email : String
  pub name : String
  pub password : Password
  pub status : UserStatus
  pub roles : List UserRole

-- The regular expression and the lower case of an email.
pub record EmailRules : Type 0 where
  pub match_string : String → Bool
  pub to_lower : String → String

abbrev with_event : Time → UserEvent → User → User
with_event now e u = record u { root = add_event e (touch_root now u.root) }

abbrev or_customer : List UserRole → List UserRole
or_customer [] = customer ∷ []
or_customer (r ∷ rs) = r ∷ rs

unfoldable pub new_user :
    EmailRules
    → KernelId
    → String
    → String
    → Option Password
    → List UserRole
    → Time
    → Time
    → Result User
new_user rules id email name password roles created updated =
    if is_empty email
    then err (new_domain_error invalid_argument "email must not be empty")
    else if not (rules.match_string (rules.to_lower email))
    then err (new_domain_error invalid_argument "invalid email format")
    else if is_empty name
    then err (new_domain_error invalid_argument "name must not be empty")
    else elim password [
      | none ↦ err (new_domain_error invalid_argument "password must not be nil")
      | some p ↦ ok (record {
        root =
            add_event (user_registered id (rules.to_lower email))
              (new_aggregate_root id created updated);
        email = rules.to_lower email;
        name = name;
        password = p;
        status = active;
        roles = or_customer roles;
      })
    ]

unfoldable pub suspend : Time → User → Outcome User
suspend now u = if is_suspended u.status then (u, invalid "user is already suspended") else (
  with_event now (user_suspended u.id u.status suspended) (record u { status = suspended }),
  none,
)

unfoldable pub activate : Time → User → Outcome User
activate now u =
    if not (is_suspended u.status)
    then (u, invalid "user is already active")
    else (with_event now (user_activated u.id u.status active) (record u { status = active }), none)

unfoldable pub change_name : String → Time → User → Outcome User
change_name name now u =
    if is_empty name
    then (u, invalid "name must not be empty")
    else (with_event now (user_updated u.id) (record u { name = name }), none)

unfoldable pub change_password : Option Password → Time → User → Outcome User
change_password none now u = (u, invalid "password must not be nil")
change_password (some p) now u =
    (with_event now (user_password_changed u.id) (record u { password = p }), none)

-- `HasRole`'s loop.
abbrev role_among : UserRole → List UserRole → Bool
role_among role [] = false
role_among role (r ∷ rs) = if role_eq r role then true else role_among role rs

unfoldable pub has_role : UserRole → User → Bool
has_role role u = role_among role u.roles

-- `bcrypt.CompareHashAndPassword(hash, plaintext) == nil`
unfoldable pub verify_password : (String → String → Bool) → User → String → Bool
verify_password compare u plaintext = compare u.password.hash plaintext

pub record PasswordResetToken : Type 0 where
  pub entity : Entity
  pub open entity use *
  pub user_id : KernelId
  pub token_hash : String
  pub expires_at : Time
  pub used : Bool

unfoldable pub new_password_reset_token :
    KernelId → KernelId → String → Time → Time → Time → PasswordResetToken
new_password_reset_token id user_id token_hash expires_at created updated = record {
  entity = new_entity id created updated;
  user_id = user_id;
  token_hash = token_hash;
  expires_at = expires_at;
  used = false;
}

unfoldable pub is_expired : Time → PasswordResetToken → Bool
is_expired now t = ltb t.expires_at now
