-- ===== src/Ssh/Mosh/Witnesses.antt =====
-- The theorem on quoting at a text, and some command lines, keys and answers.
use websh.Base.{◌≡◌, refl, true, false, [], ◌∷◌, ◌++◌, Bytes, codes}
use websh.Base.Result.{Fault, ok}
use websh.Ssh.Args.{parsed, bad, parse_args}
use websh.Ssh.Mosh.{mosh_server_command, parse_mosh_connect, forward_keys}

abbrev env : Bytes → Bytes
env name = codes "ws"

args_parsed :
    (parse_args env (
        codes "-np"
        ∷ codes "2022"
        ∷ codes "-i"
        ∷ codes "key"
        ∷ codes "me@[::1]"
        ∷ codes "ls"
        ∷ codes "-l"
        ∷ [])
      ≡ parsed (record {
        wisp = codes "ws";
        user = codes "me";
        host = codes "::1";
        port = 2022;
        identities = codes "key" ∷ [];
        no_stdin = true;
        command = codes "ls -l";
      }))
    × (parse_args env (codes "-p0" ∷ codes "host" ∷ [])
        ≡ bad (Fault.with_text "bad port %q" (codes "0")))
unfolding parse_args
args_parsed = (refl, refl)

server_started :
    (mosh_server_command 256 0 (codes "LANG=it's" ∷ [])
      ≡ codes "mosh-server new -c 256 -s -l 'LANG=it'" ++ (b'\\' ∷ codes "''s'"))
    × (parse_mosh_connect
          (λ l. codes "MOSH" ∷ codes "CONNECT" ∷ codes "60001" ∷ l ∷ [])
          (codes "key")
        ≡ ok (60001, codes "key"))
unfolding mosh_server_command parse_mosh_connect
server_started = (refl, refl)

-- A tilde that is doubled, one before another key, and the escape.
keys_forwarded :
    (forward_keys (record { line_start = true; tilde = false }) (codes "~~a\n~b\n~.c")).send
    ≡ codes "~a\n~b\n"
unfolding forward_keys
keys_forwarded = refl
