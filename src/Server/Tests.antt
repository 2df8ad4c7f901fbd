-- ===== src/Server/Tests.antt =====
-- Instances of the theorems on logging in, with natural numbers in place of the floating-point ones.
use pisshoff.Base.{true, bytes, [], none, ◌≡◌, ◌↔◌, ◌⊎◌, refl, leb}
use pisshoff.Connection.{ConnectionState}
use pisshoff.Server.{Server, try_login, accept, auth_password}
use pisshoff.Server.Logins.{Knows, done, next, password_step, try_login-accepts, accepted-for_ever}

abbrev connection : ConnectionState
connection = record {
  audit_log = record {
    connection_id = 1;
    ts = 0;
    peer_address = none;
    host = bytes "host";
    environment_variables = [];
    events = [];
    start = λ n. n;
  };
  username = none;
  file_system = none;
  environment = [];
}

abbrev server : Server leb
server = record { access_probability = 2; previously_accepted_passwords = [] }

accepts : (try_login leb 1 server connection (bytes "root") (bytes "toor")).0 ≡ true
unfolding try_login
accepts = refl

abbrev later : Server leb
later = (try_login leb 1 server connection (bytes "root") (bytes "toor")).1

abbrev much_later : Server leb
much_later = (auth_password leb 9 later connection (bytes "root") (bytes "1234")).1

try_login-accepts_example :
    (((try_login leb 1 server connection (bytes "root") (bytes "toor")).0 ≡ true)
      ↔ (Knows leb (bytes "root") (bytes "toor") server ⊎ (leb 1 2 ≡ true)))
    × ((try_login leb 1 server connection (bytes "root") (bytes "toor")).0 ≡ true
        → Knows leb (bytes "root") (bytes "toor") later)
try_login-accepts_example = try_login-accepts leb 1 server connection (bytes "root") (bytes "toor")

accepted-for_ever_example :
    ((auth_password leb 9 much_later connection (bytes "root") (bytes "toor")).0 ≡ accept)
    × ((auth_password leb 9 much_later connection (bytes "root") (bytes "toor")).1 ≡ much_later)
accepted-for_ever_example =
    accepted-for_ever leb 1 9 server much_later connection connection (bytes "root") (bytes "toor")
      accepts (next done (password_step 9 later connection (bytes "root") (bytes "1234")))
