-- ===== src/Auth/Examples.antt =====
-- Ann logs in, refreshes her token, and presents the old one again: the theorems on authentication at
-- this run.
use andruha_identity_service.Prelude.{
  ℕ, ◌+◌, String, ◌≡◌, refl, true, Option, none, some, [], ◌∷◌, str_eq, ◌==◌, if◌then◌else◌,
}
use andruha_identity_service.Errors.{ok}
use andruha_identity_service.UnitOfWork.{World, committed}
use andruha_identity_service.Clock.{DateTime, pos, max_instant, Bytes}
use andruha_identity_service.Table.{first}
use andruha_identity_service.Accounts.{User, user, active, validate_user}
use andruha_identity_service.Session.{RefreshToken, revoke}
use andruha_identity_service.Idempotency.Record.{
  IdempotencyIdentity, StoredResult, CompletedIdempotencyResult, ExecutionResult, get_completed,
  try_add_completed,
}
use andruha_identity_service.Idempotency.Durable
use andruha_identity_service.Coordinator.Execute.{Coordination}
use andruha_identity_service.SessionStore.{SessionRow, AuthDatabase, has_hash, session_of_token}
use andruha_identity_service.Auth.Tokens.{TokenPair, Issuer, Hasher}
use andruha_identity_service.Auth.Exchange.{
  Protector, rejected_result, success_result, refresh_operation,
}
use andruha_identity_service.Auth.Refresh.{RefreshCommand, check_replay, refresh}
use andruha_identity_service.Auth.Login.{LoginCommand, open_session, login}
use andruha_identity_service.Auth.System.{here, next, opening, writing_accounts}
use andruha_identity_service.Auth.Once.{RevokedIn, exchange_once}
use andruha_identity_service.Auth.LoggingIn.{LoggedIn, login-LoggedIn}
use andruha_identity_service.Auth.Delivery.{Delivered, coordinated, refresh-Delivered}

abbrev at : ℕ → DateTime
at t = record { aware = true; instant = t }

abbrev digest : String → Bytes
digest text = record { size = 32; value = if str_eq text "a" then 1 else 2 }

abbrev ann : User
ann = record {
  id = 3;
  created_at = at 10;
  updated_at = none;
  email = "ann@example.org";
  password_hash = "H";
  role = user;
  status = active;
}

abbrev issuer : Issuer
issuer = record {
  access = λ id role now. ok "jwt";
  random_token = λ n. if n == 1 then "a" else "b";
  digest = digest;
  texts = record { email_str = λ e. some e; casefold = λ e. e; strip = λ e. e };
}

abbrev hasher : Hasher
hasher = record {
  hash = λ password. ok "H";
  verify = λ password hash. ok (str_eq password "secret");
}

abbrev pair : String → TokenPair
pair token = record { access_token = "jwt"; refresh_token = token; token_type = "bearer" }

abbrev protector : Protector
protector = record {
  dump_pair = λ x. x.refresh_token;
  load_pair = λ text. ok (pair text);
  protect = λ text aad. ok text;
  restore = λ text aad. ok text;
  replay_aad = λ i h t n. "aad";
  uuid_text = λ n. "4";
  parse_uuid = λ text. ok 4;
}

abbrev world : World AuthDatabase
world = record {
  clock = λ n. at (99 + n);
  commit = λ n. committed;
  rollback = λ n. ok tt;
  others = λ n db. db;
}

abbrev start : AuthDatabase
start = record { users = ann ∷ []; sessions = []; tokens = [] }

abbrev row : ℕ → Option DateTime → SessionRow
row until revoked = record {
  id = 1;
  created_at = at 100;
  user_id = 3;
  idle_expires_at = at until;
  revoked_at = revoked;
}

abbrev token : (id time : ℕ) → String → Option DateTime → RefreshToken
token id time text used = record {
  id = id;
  created_at = at time;
  session_id = 1;
  token_hash = digest text;
  used_at = used;
}

abbrev opened : AuthDatabase
opened = record {
  users = ann ∷ [];
  sessions = row 150 none ∷ [];
  tokens = token 2 100 "a" none ∷ [];
}

abbrev exchanged : AuthDatabase
exchanged = record {
  users = ann ∷ [];
  sessions = row 170 none ∷ [];
  tokens = token 4 120 "b" none ∷ token 2 100 "a" (some (at 120)) ∷ [];
}

abbrev ended : AuthDatabase
ended = record exchanged { sessions = row 170 (some (at 130)) ∷ [] }

abbrev key : ℕ → IdempotencyIdentity
key n = record {
  subject_id = "public-refresh";
  operation = "auth.refresh";
  key_hash = record { size = 32; value = n };
}

abbrev success : StoredResult
success = success_result protector "b" (token 4 120 "b" none)

opens :
    open_session world issuer hasher (pos 50) (λ n. 1) (λ n. 2) 1 3 "H" start
    ≡ ok (pair "a", opened)
unfolding open_session validate_user max_instant
opens = refl

exchanges :
    refresh_operation issuer protector (pos 50) (key 1) (digest "h") (at 120) 2 4 "a" opened
    ≡ ok (success, exchanged)
unfolding refresh_operation session_of_token validate_user max_instant
exchanges = refl

rejects :
    refresh_operation issuer protector (pos 50) (key 2) (digest "h") (at 130) 3 5 "a" exchanged
    ≡ ok (rejected_result, ended)
unfolding refresh_operation session_of_token validate_user revoke
rejects = refl

exchange_once_example :
    (rejected_result ≡ rejected_result)
    × (t : RefreshToken) × (first (has_hash (digest "a")) exchanged.tokens ≡ some t)
    × RevokedIn ended t.session_id
exchange_once_example =
    exchange_once issuer protector protector (pos 50) (pos 50) (key 1) (key 2) (digest "h")
      (digest "h") (at 120) (at 130) 2 3 4 5 "a" start opened exchanged exchanged ended success
      rejected_result refl
      (next here (opening world hasher (pos 50) (λ n. 1) (λ n. 2) 1 3 "H" (pair "a") opened opens))
      exchanges refl (next here (writing_accounts (ann ∷ []))) rejects

abbrev credentials : LoginCommand
credentials = record { email = "ann@example.org"; password = "secret" }

logs_in :
    login world issuer hasher
      (pos 50)
      (λ n. 1)
      (λ n. 2)
      credentials
      (record { state = start; tick = 0 })
    ≡ (ok (pair "a"), record { state = opened; tick = 2 })
unfolding login validate_user max_instant
logs_in = refl

login-LoggedIn_example :
    LoggedIn world issuer hasher
      (pos 50)
      (λ n. 1)
      (λ n. 2)
      credentials
      (record { state = start; tick = 0 })
      (pair "a")
      (record { state = opened; tick = 2 })
login-LoggedIn_example =
    login-LoggedIn world issuer hasher (pos 50) (λ n. 1) (λ n. 2) credentials
      (record { state = start; tick = 0 }) (pair "a") (record { state = opened; tick = 2 }) logs_in

abbrev durable : Durable.World AuthDatabase
durable = record {
  clock = λ n. at (120 + n);
  record_id = λ n. n;
  commit = λ n. committed;
  rollback = λ n. ok tt;
  others = λ n s. s;
}

abbrev command : RefreshCommand
command = record { key_hash = record { size = 32; value = 1 }; refresh_token = "a" }

abbrev before : Coordination ℕ AuthDatabase
before = record {
  hot = 0;
  run = record { store = record { records = []; state = opened }; tick = 0 };
  notes = [];
}

refreshes :
    (refresh durable issuer protector
      (pos 50)
      (pos 1000)
      (λ h. h)
      command
      none
      7
      30
      0
      (at 120)
      2
      4
      before).0
    ≡ ok (pair "b")
unfolding refresh get_completed session_of_token validate_user try_add_completed check_replay
    max_instant
refreshes = refl

refresh-Delivered_example :
    (r : ExecutionResult) × (stored : CompletedIdempotencyResult) × ((coordinated durable issuer
        protector
        (pos 50)
        (pos 1000)
        (λ h. h)
        command
        none
        7
        30
        0
        (at 120)
        2
        4
        before).0
      ≡ ok r)
    × (r.completed ≡ some stored)
    × Delivered durable issuer protector
        (pos 50)
        (pos 1000)
        (λ h. h)
        command
        stored
        (pair "b")
        (coordinated durable issuer protector
          (pos 50)
          (pos 1000)
          (λ h. h)
          command
          none
          7
          30
          0
          (at 120)
          2
          4
          before).1.run
refresh-Delivered_example =
    refresh-Delivered durable issuer protector (pos 50) (pos 1000) (λ h. h) command none 7 30 0
      (at 120) 2 4 before (pair "b") refreshes
