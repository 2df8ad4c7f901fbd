-- ===== src/Server/Logins.antt =====
-- Who is let in.
use pisshoff.Base.{
  Bool, true, List, [], ◌∷◌, Option, none, some, Bytes, beq_refl, ◌≡◌, ◌↔◌, ◌⊎◌, inl, inr, refl,
  arith, Bool-cases,
}
use pisshoff.Std.Utf8.{from_utf8_lossy}
use pisshoff.Audit.{login_attempt, username_password}
use pisshoff.Connection.{ConnectionState, push}
use pisshoff.Server.{
  StoredPasswords, seen, store, accept, Server, try_login, auth_none, auth_password, auth_publickey,
  auth_keyboard_interactive,
}

seen-store_self : (u p : Bytes) (ts : StoredPasswords) → seen u p (store u p ts).1 ≡ true
unfolding store seen
seen-store_self u p ts = elim (Bool-cases (seen u p ts)) [
  | inl known ↦ rw known known
  | inr unknown ↦ rw unknown (ground (arith, beq_refl u, beq_refl p))
]

seen-store :
    (u p v q : Bytes) (ts : StoredPasswords) → seen u p ts ≡ true → seen u p (store v q ts).1 ≡ true
unfolding store seen
seen-store u p v q ts h = elim (Bool-cases (seen v q ts)) [
  | inl known ↦ rw known h
  | inr unknown ↦ rw unknown (ground arith)
]

module _ {F64 : Type 0} (at_most : F64 → F64 → Bool) where
  -- The server that was there knows the pair.
  abbrev pub Knows : Bytes → Bytes → Server at_most → Type 0
  Knows u p server = seen u p server.previously_accepted_passwords ≡ true

  -- A pair is accepted exactly where it is known or the number that is drawn is at most the
  -- configured probability, and then it is known afterwards.
  pub try_login-accepts :
      (draw : F64) (server : Server at_most) (c : ConnectionState) (u p : Bytes)
      → (((try_login at_most draw server c u p).0 ≡ true)
          ↔ (Knows u p server ⊎ (at_most draw server.access_probability ≡ true)))
        × ((try_login at_most draw server c u p).0 ≡ true
            → Knows u p (try_login at_most draw server c u p).1)
  unfolding try_login
  try_login-accepts draw server c u p =
      ground (arith, seen-store_self u p server.previously_accepted_passwords)

  -- What any connection of the server can do to it by one request for authentication.
  pub data Step : Server at_most → Server at_most → Type 0 where
    none_step :
        (server : Server at_most) (c : ConnectionState) (u : Bytes)
        → Step server (auth_none at_most server c u).1
    password_step :
        (draw : F64) (server : Server at_most) (c : ConnectionState) (u p : Bytes)
        → Step server (auth_password at_most draw server c u p).1
    publickey_step :
        (server : Server at_most) (c : ConnectionState) (u kind fingerprint : Bytes)
        → Step server (auth_publickey at_most server c u kind fingerprint).1
    keyboard_step :
        (draw : F64) (server : Server at_most) (c : ConnectionState) (u : Bytes)
        (answers : Option (List Bytes))
        → Step server (auth_keyboard_interactive at_most draw server c u answers).1

  -- Any number of requests of any connections, in any order.
  pub data Steps (server : Server at_most) : Server at_most → Type 0 where
    done : Steps server server
    next : {a b : Server at_most} → Steps server a → Step a b → Steps server b

  try_login-keeps :
      (draw : F64) (server : Server at_most) (c : ConnectionState) (u p v q : Bytes)
      → Knows u p server
      → Knows u p (try_login at_most draw server c v q).1
  unfolding try_login
  try_login-keeps draw server c u p v q h =
      ground (arith, seen-store u p v q server.previously_accepted_passwords h)

  Step-Knows : (u p : Bytes) {a b : Server at_most} → Step a b → Knows u p a → Knows u p b
  unfolding auth_none auth_password auth_publickey auth_keyboard_interactive
  Step-Knows u p (none_step server c v) h = h
  Step-Knows u p (password_step draw server c v q) h = try_login-keeps draw server c u p v q h
  Step-Knows u p (publickey_step server c v kind fingerprint) h = h
  Step-Knows u p (keyboard_step draw server c v none) h = h
  Step-Knows u p (keyboard_step draw server c v (some [])) h = h
  Step-Knows u p (keyboard_step draw server c v (some (answer ∷ answers))) h =
      try_login-keeps draw server c u p v (from_utf8_lossy answer) h

  Steps-Knows : (u p : Bytes) {a b : Server at_most} → Steps a b → Knows u p a → Knows u p b
  Steps-Knows u p done h = h
  Steps-Knows u p (next steps step) h = Step-Knows u p step (Steps-Knows u p steps h)

  password-known :
      (draw : F64) (server : Server at_most) (c : ConnectionState) (u p : Bytes)
      → Knows u p server
      → ((auth_password at_most draw server c u p).0 ≡ accept)
        × ((auth_password at_most draw server c u p).1 ≡ server)
  unfolding auth_password try_login
  password-known draw server c u p h = rw h (refl, refl)

  -- Once a user and a password have been accepted, by whatever connection, they are accepted for
  -- ever: after any requests for authentication of any connections, whatever number is drawn, and this changes nothing
  -- of the server.
  pub accepted-for_ever :
      (draw draw' : F64) (server server' : Server at_most) (c c' : ConnectionState) (u p : Bytes)
      → (try_login at_most draw server c u p).0 ≡ true
      → Steps (try_login at_most draw server c u p).1 server'
      → ((auth_password at_most draw' server' c' u p).0 ≡ accept)
        × ((auth_password at_most draw' server' c' u p).1 ≡ server')
  accepted-for_ever draw draw' server server' c c' u p h steps =
      password-known draw' server' c' u p
        (Steps-Knows u p steps ((try_login-accepts draw server c u p).1 h))

  pub attempt :
      (draw : F64) (server : Server at_most) (c : ConnectionState) (u p : Bytes)
      → (try_login at_most draw server c u p).2
        ≡ push (login_attempt (username_password u p)) (record c { username = some u })
  unfolding try_login
  attempt draw server c u p = elim (Bool-cases (seen u p server.previously_accepted_passwords)) [
    | inl known ↦ rw known refl
    | inr unknown ↦ elim (Bool-cases (at_most draw server.access_probability)) [
      | inl lucky ↦ rw (unknown, lucky) refl
      | inr unlucky ↦ rw (unknown, unlucky) refl
    ]
  ]

  -- Every user and password that a client tries is logged, whether it is accepted or not, and is the
  -- user of the connection from then on: as a password, and as the first answer to the prompt.
  pub attempt-logged :
      (draw : F64) (server : Server at_most) (c : ConnectionState) (u p : Bytes)
      (others : List Bytes)
      → let logged = λ (q : Bytes).
        push (login_attempt (username_password u q)) (record c { username = some u }) in
        ((auth_password at_most draw server c u p).2 ≡ logged p)
        × ((auth_keyboard_interactive at_most draw server c u (some (p ∷ others))).2
            ≡ logged (from_utf8_lossy p))
  unfolding auth_password auth_keyboard_interactive
  attempt-logged draw server c u p others =
      (attempt draw server c u p, attempt draw server c u (from_utf8_lossy p))
