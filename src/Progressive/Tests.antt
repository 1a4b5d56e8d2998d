-- ===== src/Progressive/Tests.antt =====
-- What a program finds in the terminal's replies, and data in chunks.
use websh.Base.{◌≡◌, refl, Option, none, some, [], ◌∷◌, ◌++◌, Bytes, codes}
use websh.Progressive.Probe.{Caps, cut_da1, scan_caps}

abbrev no_caps : Bytes → Option Caps
no_caps body = none

-- DA1 with a key in front and one behind; a reply without its end; kitty's answer.
replies_found :
    (cut_da1 (b'k' ∷ 0x1b ∷ codes "[?62;4cx") ≡ some (codes "62" ∷ codes "4" ∷ [], codes "kx"))
    × (scan_caps no_caps (0x1b ∷ codes "_Gi=31;OK") ≡ none)
    × (scan_caps no_caps (0x1b ∷ codes "_Gi=31;OK" ++ (7 ∷ 0x1b ∷ codes "[?6c"))
        ≡ some (
          some (record {
            host = [];
            trust = codes "local";
            features = codes "kitty-graphics" ∷ [];
            path = [];
            others = [];
          }),
          [],
        ))
unfolding cut_da1 scan_caps
replies_found = (refl, refl, refl)
