-- ===== src/Progressive/Witnesses.antt =====
-- The theorems on the filter at concrete inputs, and some runs.
use websh.Base.{◌≡◌, refl, true, none, some, List, [], ◌∷◌, ◌++◌, Bytes, codes, arith}
use websh.Base.Result.{plain}
use websh.Progressive.Filter.{Library, Filter, Chunk, take_input, read_filter}
use websh.Progressive.Conserved.{Removes}
use websh.Progressive.Reads.{given, flat, new_filter, start, next, Session-Removes}
use websh.Progressive.Sequences.{event_seq, take_input-event_seq}

-- A library whose base64 is the text itself, and for which every text is an event.
abbrev library : Library
library = record { decode64 = λ s. some s; is_event = λ s. true }

-- A key, an event that is cut in two, a wake, another key, and the end.
abbrev source : List Chunk
source =
    record { got = b'a' ∷ 0x1b ∷ codes "]7337;ev"; err = none }
    ∷ record { got = codes "ent;p;{}" ++ (7 ∷ b'b' ∷ []); err = some (plain "EOF") }
    ∷ []

abbrev first : Filter
first = (read_filter library 8 new_filter source).filter

abbrev left : List Chunk
left = (read_filter library 8 new_filter source).source

abbrev outcome : Bytes
outcome = given (read_filter library 8 new_filter source).reply

Session-Removes_example :
    (read : Bytes) × (o : Bytes) × (h : Bytes) × (flat source
      ≡ read ++ flat (read_filter library 8 first left).source)
    × Removes read o h
    × ((([] ++ outcome) ++ given (read_filter library 8 first left).reply)
          ++ ((read_filter library 8 first left).filter.out
              ++ (read_filter library 8 first left).filter.held)
        ≡ o ++ h)
Session-Removes_example =
    Session-Removes library source (read_filter library 8 first left).source
      (([] ++ outcome) ++ given (read_filter library 8 first left).reply)
      (read_filter library 8 first left).filter
      (next 8 left ([] ++ outcome) first (next 8 source [] new_filter start))

-- The two keys come out, and the event is in the channel.
keys_and_event :
    (outcome ≡ codes "a")
    × (given (read_filter library 8 first left).reply ≡ codes "b")
    × ((read_filter library 8 first left).filter.channel
        ≡ record { id = codes "p"; json = codes "{}" } ∷ [])
unfolding read_filter
keys_and_event = (refl, refl, refl)

take_input-event_seq_example :
    take_input library [] (codes "ls" ++ event_seq (λ s. s) (codes "p1") (codes "{}")) ≡ record {
      out = codes "ls";
      held = [];
      channel = record { id = codes "p1"; json = codes "{}" } ∷ [];
    }
take_input-event_seq_example =
    take_input-event_seq library (λ s. s) [] (codes "ls") (codes "p1") (codes "{}")
      (refl, (refl, refl)) (refl, (refl, refl)) (refl, (refl, refl)) (refl, (refl, refl))
      (refl, (refl, refl)) (refl, (refl, refl)) refl refl (omega arith)
