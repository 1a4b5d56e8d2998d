-- ===== src/Pty/Witnesses.antt =====
-- The theorems on shell/pty at concrete inputs, and some runs.
use websh.Base.{◌≡◌, refl, true, false, none, some, [], ◌∷◌, ◌++◌, codes}
use websh.Pty.Escape.{fresh, filter}
use websh.Pty.Escape.Chunks.{then_filter, filter-append, doubled, filter-doubled}
use websh.Base.Result.{err, plain}
use websh.Pty.Protocol.{Library}
use websh.Pty.Connection.{Around, Connection, new_connection, opened, keys, events, connect_round}
use websh.Pty.Connection.Passes.{binaries, concat}
use websh.Pty.Connection.Order.{Reach, start, round, Reach-sent}

filter-append_example :
    filter fresh (codes "~" ++ codes "~x") ≡ then_filter (filter fresh (codes "~")) (codes "~x")
filter-append_example = filter-append fresh (codes "~") (codes "~x")

filter-doubled_example :
    let r = filter (record { mid_line = false; tilde = false }) (doubled false (codes "~.")) in
    (r.out ≡ codes "~.") × (r.quit ≡ false)
filter-doubled_example = filter-doubled false (codes "~.")

-- A library that reads no control messages.
abbrev library : Library
library = record {
  unmarshal = λ s. none;
  parse_url = λ s. err (plain "no address");
  resolve = λ b t. t;
  with_sid = λ q s. q;
  url_text = λ u. u.rest;
}

abbrev waiting : Around
waiting = record { ready = false; size = some (80, 24) }

abbrev connected : Around
connected = record { ready = true; size = some (80, 24) }

-- Keys, the opening of the socket, and more keys.
abbrev first : Connection
first = connect_round library waiting (keys (codes "l")) new_connection

abbrev second_round : Connection
second_round = connect_round library connected (events (opened ∷ [])) first

abbrev third : Connection
third = connect_round library connected (keys (codes "s~")) second_round

third_round : Reach library third ((codes "l" ++ []) ++ codes "s~")
unfolding connect_round
third_round =
    round second_round (codes "l") connected (keys (codes "s~"))
      (round first (codes "l") connected (events (opened ∷ []))
        (round new_connection [] waiting (keys (codes "l")) start refl (λ o. o)) refl (λ o. refl))
      refl (λ o. refl)

Reach-sent_example :
    (binaries third.sent ++ concat third.pending
      ≡ (filter fresh ((codes "l" ++ []) ++ codes "s~")).out)
    × (third.is_open ≡ true
        → binaries third.sent ≡ (filter fresh ((codes "l" ++ []) ++ codes "s~")).out)
Reach-sent_example = Reach-sent library third ((codes "l" ++ []) ++ codes "s~") third_round

sent : binaries third.sent ≡ codes "ls~"
unfolding connect_round
sent = refl
