-- ===== src/Server.antt =====
-- Logging in: pisshoff-server/src/state.rs, and `try_login` and the handlers of authentication of
-- pisshoff-server/src/server.rs. The numbers of the crate fastrand and the configured probability
-- are values of a type of floating-point numbers, which is a parameter with its order. A handler
-- takes the number that it draws, if it draws one.
pub mod Logins
pub mod Channels
pub mod Lives
mod Tests
use pisshoff.Base.{
  Bool, true, false, ◌&&◌, ◌||◌, List, [], ◌∷◌, Option, none, some, Bytes, bytes, beq, first,
  if◌then◌else◌,
}
use pisshoff.Std.Utf8.{from_utf8_lossy}
use pisshoff.Audit.{login_attempt, LoginAttemptEvent, username_password, public_key}
use pisshoff.Connection.{ConnectionState, push}

pub record UsernamePasswordTuple : Type 0 where
  pub username : Bytes
  pub password : Bytes

-- The set of the pairs, as a list. All connections share it.
abbrev pub StoredPasswords : Type 0
StoredPasswords = List UsernamePasswordTuple

-- `StoredPasswords::seen`
unfoldable pub seen : Bytes → Bytes → StoredPasswords → Bool
seen user password [] = false
seen user password (t ∷ ts) =
    let later = seen user password ts in (beq t.username user && beq t.password password) || later

-- `StoredPasswords::store`, which returns whether the pair is new.
unfoldable pub store : Bytes → Bytes → StoredPasswords → Bool × StoredPasswords
store user password ts =
    if seen user password ts
    then (false, ts)
    else (true, record { username = user; password = password } ∷ ts)

pub data Auth : Type 0 where
  accept : Auth
  reject : Auth
  unsupported_method : Auth
  partial : List (Bytes × Bool) → Auth

abbrev keyboard_interactive_prompt : List (Bytes × Bool)
keyboard_interactive_prompt = (bytes "Password: ", false) ∷ []

module _ {F64 : Type 0} (at_most : F64 → F64 → Bool) where
  -- What `Config` and `State` hold of it.
  pub record Server : Type 0 where
    pub access_probability : F64
    pub previously_accepted_passwords : StoredPasswords

  abbrev logged : Bytes → Bytes → ConnectionState → ConnectionState
  logged user password c =
      push (login_attempt (username_password user password)) (record c { username = some user })

  unfoldable pub try_login :
      F64 → Server → ConnectionState → Bytes → Bytes → Bool × Server × ConnectionState
  unfolding seen store
  try_login draw server c user password =
      if seen user password server.previously_accepted_passwords
      then (true, server, logged user password c)
      else if at_most draw server.access_probability
      then (
        true,
        record server {
          previously_accepted_passwords =
              (store user password server.previously_accepted_passwords).1;
        },
        logged user password c,
      )
      else (false, server, logged user password c)

  answered : Bool × Server × ConnectionState → Auth × Server × ConnectionState
  answered (accepted, server, c) = (if accepted then accept else reject, server, c)

  unfoldable pub auth_none : Server → ConnectionState → Bytes → Auth × Server × ConnectionState
  auth_none server c user = (unsupported_method, server, c)

  unfoldable pub auth_password :
      F64 → Server → ConnectionState → Bytes → Bytes → Auth × Server × ConnectionState
  unfolding answered
  auth_password draw server c user password = answered (try_login draw server c user password)

  unfoldable pub auth_publickey :
      Server → ConnectionState → Bytes → Bytes → Bytes → Auth × Server × ConnectionState
  auth_publickey server c user kind fingerprint =
      (reject, server, push (login_attempt (public_key kind fingerprint)) c)

  -- The answers of the client, if there are any: the first is taken for the password.
  unfoldable pub auth_keyboard_interactive :
      F64 → Server → ConnectionState → Bytes → Option (List Bytes) → Auth × Server × ConnectionState
  unfolding answered
  auth_keyboard_interactive draw server c user (some (answer ∷ answers)) =
      answered (try_login draw server c user (from_utf8_lossy answer))
  auth_keyboard_interactive draw server c user (some []) =
      (partial keyboard_interactive_prompt, server, c)
  auth_keyboard_interactive draw server c user none =
      (partial keyboard_interactive_prompt, server, c)
