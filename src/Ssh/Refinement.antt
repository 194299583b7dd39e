-- ===== src/Ssh/Refinement.antt =====
-- The pool implements a map from hosts and ports to connections.
use cluster_api_provider_bar.Prelude.Maps.{
  lookup, insert, delete, lookup-insert, lookup-insert_other, lookup-delete, lookup-delete_other,
}
use cluster_api_provider_bar.Prelude.{
  ℕ, ◌≡◌, ◌⊎◌, refl, sym, ap, ◌∙◌, subst, Text, Bool, true, false, not, ◌&&◌, ◌-◌, Option, none,
  some, ◌==◌, ==_iff, text_eq, nat_eq, if◌then◌else◌, arith, inl, inr, Bool-cases, is_empty, ltb,
  Result, ok, err,
}
use cluster_api_provider_bar.Ssh.{
  SshError, Credentials, SshConnection, SshManager, Platform, connect_failed, known_hosts_failed,
  key, Outcome, known_hosts, dial_new, check_and_dial, used_at, connect, close, cleanup,
}
use cluster_api_provider_bar.Ssh.Keys.{IsDecimal, key_injective}
use cluster_api_provider_bar.Ssh.Pool.{
  IsWf, insert-IsWf, delete-IsWf, cleanup-IsWf, kept_at, lookup-drop_idle,
}

-- The abstract pool.
abbrev pub Pool : Type 0 → Type 0
Pool Client = Text → ℕ → Option (SshConnection Client)

module _ {Client : Type 0} where
  abbrev pub put_at : SshConnection Client → Pool Client → Pool Client
  put_at conn pool host port =
      if conn.host == host && conn.port == port then some conn else pool host port

  abbrev pub drop_at : SshConnection Client → Pool Client → Pool Client
  drop_at conn pool host port =
      if conn.host == host && conn.port == port then none else pool host port

module _ {Client W : Type 0} (p : Platform Client W) where
  open p use {decimal, dial, keepalive, load_known_hosts, now}

  abbrev pub view : SshManager Client → Pool Client
  view m host port = lookup (key p host port) m.connections

  keys_differ :
      IsDecimal decimal
      → (conn : SshConnection Client) (host : Text) (port : ℕ)
      → (conn.host == host && conn.port == port) ≡ false
      → (key p conn.host conn.port == key p host port) ≡ false
  keys_differ dec conn host port h =
      elim (Bool-cases (key p conn.host conn.port == key p host port)) [
        | inr differ ↦ differ
        | inl same ↦
            let (hosts, ports) =
              key_injective p dec conn.host host conn.port port
                ((==_iff (key p conn.host conn.port) (key p host port)).0 same) in
            ground (arith, h, (==_iff conn.host host).1 hosts, (==_iff conn.port port).1 ports)
      ]

  same_key :
      (conn : SshConnection Client) (host : Text) (port : ℕ)
      → (conn.host == host && conn.port == port) ≡ true
      → key p conn.host conn.port ≡ key p host port
  same_key conn host port h =
      let hosts : conn.host ≡ host = (==_iff conn.host host).0 (ground (arith, h)) in
      let ports : conn.port ≡ port = (==_iff conn.port port).0 (ground (arith, h)) in
      ap (λ t. key p t conn.port) hosts ∙ ap (λ n. key p host n) ports

  view_inserted :
      IsDecimal decimal
      → (m : SshManager Client) (conn : SshConnection Client) (host : Text) (port : ℕ)
      → lookup (key p host port) (insert (key p conn.host conn.port) conn m.connections)
        ≡ put_at conn (view m) host port
  view_inserted dec m conn host port = elim (Bool-cases (conn.host == host && conn.port == port)) [
    | inl both ↦ rw (both) (
        ap (λ k. lookup k (insert (key p conn.host conn.port) conn m.connections))
          (sym (same_key conn host port both))
        ∙ lookup-insert (key p conn.host conn.port) conn m.connections)
    | inr differ ↦ rw (differ) (
        lookup-insert_other (key p conn.host conn.port) (key p host port) conn m.connections
          (keys_differ dec conn host port differ))
  ]

  view_deleted :
      IsDecimal decimal
      → (m : SshManager Client) (conn : SshConnection Client) (host : Text) (port : ℕ)
      → lookup (key p host port) (delete (key p conn.host conn.port) m.connections)
        ≡ drop_at conn (view m) host port
  view_deleted dec m conn host port = elim (Bool-cases (conn.host == host && conn.port == port)) [
    | inl both ↦ rw (both) (
        ap (λ k. lookup k (delete (key p conn.host conn.port) m.connections))
          (sym (same_key conn host port both))
        ∙ lookup-delete (key p conn.host conn.port) m.connections)
    | inr differ ↦ rw (differ) (
        lookup-delete_other (key p conn.host conn.port) (key p host port) m.connections
          (keys_differ dec conn host port differ))
  ]

  -- The outcomes of `Connect` that the abstract pool allows: an error that leaves it unchanged, or a
  -- connection to the host and port that now stands there, all others unchanged.
  abbrev pub Connects : SshManager Client → Text → ℕ → Outcome p → Type 0
  Connects m host port out =
      IsWf p out.1
      × (((e : SshError) × (out.0 ≡ err e) × ((h : Text) (q : ℕ) → view out.1 h q ≡ view m h q))
          ⊎ ((conn : SshConnection Client) × (out.0 ≡ ok conn)
              × (conn.host ≡ host)
              × (conn.port ≡ port)
              × ((h : Text) (q : ℕ) → view out.1 h q ≡ put_at conn (view m) h q)))

  fails-Connects :
      (m : SshManager Client) (host : Text) (port : ℕ) (e : SshError) (w : W)
      → IsWf p m
      → Connects m host port (err e, m, w)
  fails-Connects m host port e w wf = (wf, inl (e, refl, λ h q. refl))

  -- The connection under its own key.
  puts-Connects :
      IsDecimal decimal
      → (m : SshManager Client) (conn : SshConnection Client) (w : W) → IsWf p m
      → Connects m conn.host conn.port (
        ok conn,
        record m { connections = insert (key p conn.host conn.port) conn m.connections },
        w,
      )
  puts-Connects dec m conn w wf =
      (insert-IsWf p m conn wf, inr (conn, refl, refl, refl, view_inserted dec m conn))

  dial_new-Connects :
      IsDecimal decimal
      → (m : SshManager Client) (host : Text) (port : ℕ) (creds : Credentials) (w : W) → IsWf p m
      → Connects m host port (dial_new p m host port creds w)
  unfolding dial_new
  dial_new-Connects dec m host port creds w wf =
      dialled (dial host port creds (known_hosts p m creds) w).0
    where
      w' : W
      w' = (dial host port creds (known_hosts p m creds) w).1

      dialled :
          (r : Result SshError Client)
          → Connects m host port (elim r [
            | err e ↦ (err connect_failed, m, w')
            | ok client ↦
                let conn : SshConnection Client = record {
                  client = client;
                  host = host;
                  port = port;
                  last_used = now w';
                } in
                (
                  ok conn,
                  record m { connections = insert (key p host port) conn m.connections },
                  w',
                )
          ])
      dialled (err e) = fails-Connects m host port connect_failed w' wf
      dialled (ok client) =
          puts-Connects dec m
            (record { client = client; host = host; port = port; last_used = now w' }) w' wf

  abbrev stored : SshManager Client → Text → ℕ → SshConnection Client → W → Outcome p
  stored m host port conn w =
      (ok conn, record m { connections = insert (key p host port) conn m.connections }, w)

  under-Connects :
      IsDecimal decimal
      → (m : SshManager Client) (host : Text) (port : ℕ) (conn : SshConnection Client) (w : W)
      → IsWf p m
      → conn.host ≡ host
      → conn.port ≡ port
      → Connects m host port (stored m host port conn w)
  under-Connects dec m host port conn w wf hosts ports =
      subst (λ h. Connects m h port (stored m h port conn w)) hosts
        (subst (λ q. Connects m conn.host q (stored m conn.host q conn w)) ports
          (puts-Connects dec m conn w wf))

  if-Connects :
      (m : SshManager Client) (host : Text) (port : ℕ) (b : Bool) (x y : Outcome p)
      → Connects m host port x
      → Connects m host port y
      → Connects m host port (if b then x else y)
  if-Connects m host port true x y cx cy = cx
  if-Connects m host port false x y cx cy = cy

  check_and_dial-Connects :
      IsDecimal decimal
      → (m : SshManager Client) (host : Text) (port : ℕ) (creds : Credentials) (w : W) → IsWf p m
      → Connects m host port (check_and_dial p m host port creds w)
  unfolding check_and_dial
  check_and_dial-Connects dec m host port creds w wf =
      let (loaded, w') = load_known_hosts (known_hosts p m creds) w in
      if-Connects m host port (is_empty (known_hosts p m creds)) (dial_new p m host port creds w)
        (if not loaded then (err known_hosts_failed, m, w') else dial_new p m host port creds w')
        (dial_new-Connects dec m host port creds w wf)
        (if-Connects m host port (not loaded) (err known_hosts_failed, m, w')
          (dial_new p m host port creds w') (fails-Connects m host port known_hosts_failed w' wf)
          (dial_new-Connects dec m host port creds w' wf))

  -- `Connect` keeps the invariant of the pool, and its outcomes are those of the abstract pool: an error
  -- leaves every host and port with the connection it had; otherwise the connection is one to the host
  -- and port that were asked for, stands under them in the pool, and all others are unchanged. Decimals
  -- are to be without colons and to tell numbers apart.
  pub connect-Connects :
      IsDecimal decimal
      → (m : SshManager Client) (host : Text) (port : ℕ) (creds : Credentials) (w : W) → IsWf p m
      → Connects m host port (connect p m host port creds w)
  unfolding connect
  connect-Connects dec m host port creds w wf = found (lookup (key p host port) m.connections) refl
    where
      found :
          (o : Option (SshConnection Client))
          → lookup (key p host port) m.connections ≡ o
          → Connects m host port (connect p m host port creds w)
      found none e = rw (e, connect) (check_and_dial-Connects dec m host port creds w wf)
      found (some conn) e =
          let (alive, w') = keepalive conn.client w in
          let (hosts, ports) =
            key_injective p dec host conn.host port conn.port (wf.0 (key p host port) conn e) in
          let again : SshConnection Client = used_at p (now w') conn in
          rw (e, connect)
            (if-Connects m host port (not (ltb (now w - conn.last_used) m.idle_timeout))
              (check_and_dial p m host port creds w)
              (if not alive
                then check_and_dial p m host port creds w'
                else stored m host port again w')
              (check_and_dial-Connects dec m host port creds w wf)
              (if-Connects m host port (not alive) (check_and_dial p m host port creds w')
                (stored m host port again w') (check_and_dial-Connects dec m host port creds w' wf)
                (under-Connects dec m host port again w' wf (sym hosts) (sym ports))))

  -- `Close` and `Cleanup` keep the invariant of the pool; closing a connection takes what stands under
  -- its host and port out of the abstract pool and nothing else, and a cleanup keeps under every host
  -- and port what stood there, unless that was idle at some time on the way. Decimals are to be without
  -- colons and to tell numbers apart.
  pub close-cleanup-IsWf :
      IsDecimal decimal
      → (m : SshManager Client) (conn : SshConnection Client) (host : Text) (port : ℕ) (w : W)
      → IsWf p m
      → IsWf p (close p m (some conn) w).0
        × (view (close p m (some conn) w).0 host port ≡ drop_at conn (view m) host port)
        × IsWf p (cleanup p m w).0
        × (w' : W) × (view (cleanup p m w).0 host port ≡ kept_at p m w' (view m host port))
  unfolding close cleanup
  close-cleanup-IsWf dec m conn host port w wf =
      let (w', kept) = lookup-drop_idle p m (key p host port) m.connections w wf.1 in
      (
        delete-IsWf p m (key p conn.host conn.port) wf,
        view_deleted dec m conn host port,
        cleanup-IsWf p m w wf,
        w',
        kept,
      )
