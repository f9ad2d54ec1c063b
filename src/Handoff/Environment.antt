-- ===== src/Handoff/Environment.antt =====
-- `environment_scope` of mcp/gxp_core/handoff_store.py: the fingerprint of a database destination.
use look_lowcode.Prelude.{
  String, Bool, false, ◌&&◌, Option, none, some, [], ◌∷◌, ℤ, pos, negsuc, leb,
}
use look_lowcode.Json.{Runtime, Value, null, int, str, obj, Fields}
use look_lowcode.Condition.Build.{get}
use look_lowcode.Condition.Text.{strip}
use look_lowcode.Outcome.{raised, done, ◌>>=◌, ◌>>◌, require}
use look_lowcode.Handoff.Host.{environment, Attempt, Host, has_text}
use look_lowcode.Handoff.Finite.{canonical_sha256}
use look_lowcode.Handoff.Snapshots.{fields}

abbrev is_port : ℤ → Bool
is_port (pos n) = leb 1 n && leb n 65535
is_port (negsuc n) = false

abbrev port_of : Option ℤ → Attempt ℤ
port_of none = raised environment
port_of (some n) = do require (is_port n) environment; done n

abbrev stripped : Runtime → Value → String
stripped py (str s) = strip py.is_space s
stripped py _ = ""

-- `config` is the fields of a dictionary or the attributes of an object, and `int_of` is `int` of a value,
-- where `none` is a ValueError or a TypeError.
unfoldable pub environment_scope : Host → (Value → Option ℤ) → Fields → Attempt String
environment_scope host int_of config = do
  require
      (has_text host.runtime (get "host" null config)
        && has_text host.runtime (get "database" null config))
      environment
  port ← port_of (int_of (get "port" null config))
  canonical_sha256 host (
      obj (
        fields (
          ("host", str (host.runtime.lower (stripped host.runtime (get "host" null config))))
          ∷ ("port", int port)
          ∷ ("database", str (stripped host.runtime (get "database" null config)))
          ∷ [])))
