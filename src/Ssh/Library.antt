-- ===== src/Ssh/Library.antt =====
-- What shell/ssh calls and does not implement: golang.org/x/crypto/ssh, the hash and the encoding
-- of hashed host names, and Go's Unicode tables.
use websh.Base.{Bool, Option, List, Bytes}

-- `gossh.PublicKey`: `Type()` and `Marshal()`.
pub record Key : Type 0 where
  pub kind : Bytes
  pub blob : Bytes

-- What `gossh.ParseKnownHosts` reads from a line: the marker, the patterns, and the key.
pub record KeyLine : Type 0 where
  pub marker : Bytes
  pub hosts : List Bytes
  pub key : Key

-- `strings.TrimSpace`, `strings.ToLower`, `strings.ToUpper` and `strings.EqualFold`;
-- `gossh.ParseKnownHosts`, `none` where it fails; `knownhosts.Normalize` and `knownhosts.Line`;
-- base64, `none` where it does not decode; HMAC-SHA1 of a salt and a text.
pub record Library : Type 0 where
  pub trim_space : Bytes → Bytes
  pub to_lower : Bytes → Bytes
  pub to_upper : Bytes → Bytes
  pub equal_fold : Bytes → Bytes → Bool
  pub parse_line : Bytes → Option KeyLine
  pub normalize : Bytes → Bytes
  pub line_of : Bytes → Key → Bytes
  pub decode64 : Bytes → Option Bytes
  pub hmac : Bytes → Bytes → Bytes
