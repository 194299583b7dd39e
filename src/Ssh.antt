-- ===== src/Ssh.antt =====
-- The pool of SSH connections: modules/cvo/internal/ssh/manager.go, of which modules/capbm/internal/ssh
-- has a copy; that of modules/cvo/pkg/ssh takes the file of known hosts from the manager alone. The
-- protocol of golang.org/x/crypto/ssh, the file of known hosts and the clock are the fields of a
-- platform over a world. The locks are left out: one operation runs after the other.
pub mod Keys
pub mod Pool
pub mod Refinement
mod Samples
use cluster_api_provider_bar.Prelude.Maps.{lookup, insert, delete}
use cluster_api_provider_bar.Prelude.{
  ℕ, zero, suc, ◌-◌, String, Text, Bool, true, false, not, Option, none, some, List, [], ◌∷◌, ◌++◌,
  ◌==◌, text_eq, if◌then◌else◌, is_empty, ltb, length, Result, ok, err,
}

pub data SshError : Type 0 where
  known_hosts_failed connect_failed : SshError

pub record Credentials : Type 0 where
  pub username : Text
  pub password : Text
  pub known_hosts_file : Text

pub record SshConnection (Client : Type 0) : Type 0 where
  pub client : Client
  pub host : Text
  pub port : ℕ
  pub last_used : ℕ

pub record SshManager (Client : Type 0) : Type 0 where
  pub connections : List (Text × SshConnection Client)
  pub idle_timeout : ℕ
  pub known_hosts_file : Text

pub record Platform (Client W : Type 0) : Type 0 where
  -- `%d`
  pub decimal : ℕ → Text
  pub now : W → ℕ
  -- Whether a request to keep the connection alive is answered.
  pub keepalive : Client → W → Bool × W
  pub load_known_hosts : Text → W → Bool × W
  -- With the file of known hosts, or without a check of the host's key if it is empty.
  pub dial :
      (host : Text) (port : ℕ) → Credentials → (known_hosts : Text) → W → Result SshError Client × W
  pub close_client : Client → W → W

-- Five minutes for no timeout, in seconds.
unfoldable pub new_ssh_manager : {Client : Type 0} → ℕ → SshManager Client
new_ssh_manager zero = record { connections = []; idle_timeout = 300; known_hosts_file = [] }
new_ssh_manager (suc n) = record { connections = []; idle_timeout = suc n; known_hosts_file = [] }

unfoldable pub with_known_hosts : {Client : Type 0} → Text → SshManager Client → SshManager Client
with_known_hosts path m = record m { known_hosts_file = path }

unfoldable pub connection_count : {Client : Type 0} → SshManager Client → ℕ
connection_count m = length m.connections

module _ {Client W : Type 0} (p : Platform Client W) where
  open p use {decimal, now, keepalive, load_known_hosts, dial, close_client}

  -- `fmt.Sprintf("%s:%d", host, port)`
  unfoldable pub key : Text → ℕ → Text
  key host port = host ++ b':' ∷ decimal port

  abbrev pub Outcome : Type 0
  Outcome = Result SshError (SshConnection Client) × SshManager Client × W

  abbrev pub known_hosts : SshManager Client → Credentials → Text
  known_hosts m creds =
      if is_empty creds.known_hosts_file then m.known_hosts_file else creds.known_hosts_file

  -- A new connection replaces the one in the pool.
  unfoldable pub dial_new : SshManager Client → (host : Text) (port : ℕ) → Credentials → W → Outcome
  dial_new m host port creds w =
      let (r, w') = dial host port creds (known_hosts m creds) w in
      elim r [
        | err e ↦ (err connect_failed, m, w')
        | ok client ↦
            let conn : SshConnection Client = record {
              client = client;
              host = host;
              port = port;
              last_used = now w';
            } in
            (ok conn, record m { connections = insert (key host port) conn m.connections }, w')
      ]

  -- The file of known hosts is read before the host is dialled.
  unfoldable pub check_and_dial :
      SshManager Client → (host : Text) (port : ℕ) → Credentials → W → Outcome
  check_and_dial m host port creds w =
      if is_empty (known_hosts m creds)
      then dial_new m host port creds w
      else let (loaded, w') = load_known_hosts (known_hosts m creds) w in
        if not loaded then (err known_hosts_failed, m, w') else dial_new m host port creds w'

  abbrev pub used_at : ℕ → SshConnection Client → SshConnection Client
  used_at t conn = record conn { last_used = t }

  -- A connection of the pool that is not idle and answers is used again.
  unfoldable pub connect : SshManager Client → (host : Text) (port : ℕ) → Credentials → W → Outcome
  connect m host port creds w = elim (lookup (key host port) m.connections) [
    | none ↦ check_and_dial m host port creds w
    | some conn ↦
        if not (ltb (now w - conn.last_used) m.idle_timeout)
        then check_and_dial m host port creds w
        else let (alive, w') = keepalive conn.client w in
          if not alive then check_and_dial m host port creds w' else (
            ok (used_at (now w') conn),
            record m { connections = insert (key host port) (used_at (now w') conn) m.connections },
            w',
          )
  ]

  -- Of no connection, nothing.
  -- `none` stands for a connection that is nil or has no client, at which the code returns at once.
  unfoldable pub close :
      SshManager Client → Option (SshConnection Client) → W → SshManager Client × W
  close m none w = (m, w)
  close m (some conn) w = (
    record m { connections = delete (key conn.host conn.port) m.connections },
    close_client conn.client w,
  )

  abbrev pub is_idle : SshManager Client → ℕ → SshConnection Client → Bool
  is_idle m t conn = ltb m.idle_timeout (t - conn.last_used)

  unfoldable pub drop_idle :
      SshManager Client
      → List (Text × SshConnection Client)
      → W
      → List (Text × SshConnection Client) × W
  drop_idle m [] w = ([], w)
  drop_idle m ((k, conn) ∷ entries) w =
      let (kept, w') = drop_idle m entries w in
      let (kept', w'') = drop_idle m entries (close_client conn.client w) in
      if is_idle m (now w) conn then (kept', w'') else ((k, conn) ∷ kept, w')

  unfoldable pub cleanup : SshManager Client → W → SshManager Client × W
  cleanup m w =
      let (kept, w') = drop_idle m m.connections w in (record m { connections = kept }, w')
