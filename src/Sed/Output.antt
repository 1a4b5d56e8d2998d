-- ===== src/Sed/Output.antt =====
-- shell/sed/sed.go: `output`, which remembers a missing final newline.
pub mod Text
use websh.Base.{Bool, true, false, not, [], ◌∷◌, if◌then◌else◌, Bytes}
use websh.Sed.Host.{Host}

-- What the writer holds, and whether a write has failed.
pub record Output : Type 0 where
  pub w : Bytes
  pub missing_nl : Bool
  pub failed : Bool

-- `_, o.err = io.WriteString(o.w, s)`
unfoldable pub put : Host → Output → Bytes → Output
put h o s = let r = h.put o.w s in record o { w = r.0; failed = not r.1 }

-- `o.write(s)`
unfoldable pub write : Host → Output → Bytes → Output
unfolding put
write h o s =
    if o.failed
    then o
    else if o.missing_nl
    then (let o' = put h (record o { missing_nl = false }) (b'\n' ∷ []) in
        if o'.failed then o' else put h o' s)
    else put h o s

-- `o.line(s, nl)`
unfoldable pub line : Host → Output → Bytes → Bool → Output
unfolding write
line h o s nl =
    let o' = write h o s in if nl then write h o' (b'\n' ∷ []) else record o' { missing_nl = true }
