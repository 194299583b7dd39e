-- ===== src/Ssh/Samples.antt =====
-- A pool whose hosts all answer, with numbers written as strokes.
use cluster_api_provider_bar.Prelude.Maps.{lookup, insert}
use cluster_api_provider_bar.Prelude.{
  ℕ, zero, suc, ◌≡◌, refl, Text, codes, contains, nat_eq, text_beq, true, false, some, [], arith,
  replicate, drop, ap, ok,
}
use cluster_api_provider_bar.Ssh.{
  Credentials, SshConnection, SshManager, Platform, key, dial_new, check_and_dial, connect, close,
  cleanup, new_ssh_manager,
}
use cluster_api_provider_bar.Ssh.Keys.{IsDecimal}
use cluster_api_provider_bar.Ssh.Pool.{IsWf, kept_at}
use cluster_api_provider_bar.Ssh.Refinement.{
  drop_at, view, Connects, connect-Connects, close-cleanup-IsWf,
}

abbrev strokes : ℕ → Text
strokes n = replicate n b'1'

-- The clients are numbered by the world, which is the time as well.
abbrev network : Platform ℕ ℕ
network = record {
  decimal = strokes;
  now = λ w. w;
  keepalive = λ client w. (true, w);
  load_known_hosts = λ path w. (true, w);
  dial = λ host port creds file w. (ok w, suc w);
  close_client = λ client w. w;
}

strokes-IsDecimal : IsDecimal strokes
strokes-IsDecimal = (plain, distinct)
  where
    plain : (n : ℕ) → contains (strokes n) b':' ≡ false
    plain zero = refl
    plain (suc n) = ground (arith, plain n)

    distinct : (n m : ℕ) → strokes n ≡ strokes m → n ≡ m
    distinct zero zero h = refl
    distinct zero (suc m) h = ground (arith, h)
    distinct (suc n) zero h = ground (arith, h)
    distinct (suc n) (suc m) h = ap suc (distinct n m (ap (λ (t : Text). drop 1 t) h))

abbrev creds : Credentials
creds = record { username = codes "root"; password = []; known_hosts_file = [] }

abbrev fresh : SshManager ℕ
fresh = new_ssh_manager 0

fresh-IsWf : IsWf network fresh
unfolding new_ssh_manager lookup
fresh-IsWf = (λ k conn h. ground (arith, h), tt)

-- The second time the connection is used again.
reused :
    (connect network (connect network fresh (codes "a") 1 creds 7).1 (codes "a") 1 creds 9).0
    ≡ ok (record { client = 7; host = codes "a"; port = 1; last_used = 9 })
unfolding text_beq new_ssh_manager lookup insert key dial_new check_and_dial connect
reused = refl

abbrev conn : SshConnection ℕ
conn = record { client = 7; host = codes "a"; port = 1; last_used = 8 }

abbrev pooled : SshManager ℕ
pooled = (connect network fresh (codes "a") 1 creds 7).1

pooled-IsWf : IsWf network pooled
pooled-IsWf = (connect-Connects network strokes-IsDecimal fresh (codes "a") 1 creds 7 fresh-IsWf).0

connect-Connects_example :
    Connects network pooled (codes "a") 1 (connect network pooled (codes "a") 1 creds 9)
connect-Connects_example =
    connect-Connects network strokes-IsDecimal pooled (codes "a") 1 creds 9 pooled-IsWf

close-cleanup-IsWf_example :
    IsWf network (close network pooled (some conn) 9).0
    × (view network (close network pooled (some conn) 9).0 (codes "a") 1
        ≡ drop_at conn (view network pooled) (codes "a") 1)
    × IsWf network (cleanup network pooled 9).0
    × (w' : ℕ) × (view network (cleanup network pooled 9).0 (codes "a") 1
        ≡ kept_at network pooled w' (view network pooled (codes "a") 1))
close-cleanup-IsWf_example =
    close-cleanup-IsWf network strokes-IsDecimal pooled conn (codes "a") 1 9 pooled-IsWf
