-- ===== src/Handoff/Targets.antt =====
-- `normalize_targets` of mcp/gxp_core/handoff_store.py.
use Prim.Native.String.{count}
use look_lowcode.Prelude.{String, Bool, not, ◌&&◌, List, [], ◌∷◌, leb, any, ◌==◌}
use look_lowcode.Json.{Value, null, str, arr, obj, Items, nil, cons}
use look_lowcode.Condition.Build.{get}
use look_lowcode.Outcome.{raised, done, ◌>>=◌, ◌>>◌, require}
use look_lowcode.Handoff.Host.{targets, Attempt, size, exactly}

pub record Target : Type 0 where
  pub group_key : String
  pub node_key : String

abbrev pub same_target : Target → Target → Bool
same_target a b = a.group_key == b.group_key && a.node_key == b.node_key

abbrev pub seen_in : Target → List Target → Bool
seen_in t seen = any (same_target t) seen

-- The text of a value of 1 to 200 characters.
abbrev pub bounded_text : Value → Attempt String
bounded_text (str s) = do require (not (s == "") && leb (count s) 200) targets; done s
bounded_text _ = raised targets

unfoldable pub target_of : Value → Attempt Target
target_of (obj fs) = do
  require (exactly ("group_key" ∷ "node_key" ∷ []) fs) targets
  group ← bounded_text (get "group_key" null fs)
  node ← bounded_text (get "node_key" null fs)
  done (record { group_key = group; node_key = node })
target_of _ = raised targets

-- The loop over the items; `seen` holds what it has taken.
unfoldable pub take_targets : List Target → Items → Attempt (List Target)
unfolding target_of
take_targets seen nil = done []
take_targets seen (cons v rest) = do
  t ← target_of v
  require (not (seen_in t seen)) targets
  ts ← take_targets (t ∷ seen) rest
  done (t ∷ ts)

unfoldable pub normalize_targets : Value → Attempt (List Target)
unfolding take_targets
normalize_targets (arr xs) = do
  require (leb 1 (size xs) && leb (size xs) 10) targets
  take_targets [] xs
normalize_targets _ = raised targets
