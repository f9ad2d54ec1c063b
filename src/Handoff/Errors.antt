-- ===== src/Handoff/Errors.antt =====
-- What `HandoffStore.read` of mcp/gxp_core/handoff_store.py raises, and what a listing makes of it.
use look_lowcode.Prelude.{
  String, Bool, true, false, not, ◌&&◌, ◌||◌, Option, none, some, leb, inl, inr, ◌⊎◌, ◌≡◌, refl,
  ◌∙◌, ap,
}
use look_lowcode.Dict.{lookup}
use look_lowcode.Json.{Value, null, bool, int, float, str, arr, obj}
use look_lowcode.Condition.Text.{truthy}
use look_lowcode.Outcome.{raised, done, ◌>>=◌, ◌>>◌, require}
use look_lowcode.Handoff.Host.{
  Failure, limit, identifier, checksum, value_error, unicode_error, Attempt, Host, is_id,
}
use look_lowcode.Handoff.Store.{
  Stored, Files, max_bytes, payload_size, caught, decoded, read_envelope, read_stored,
  valid_checksum, read,
}
use look_lowcode.Handoff.Page.{Lookup, unreadable, is_handoff_error, found_in, look}

-- An error of the store's own kind, or one of the two that `read` neither raises itself nor catches.
abbrev Passing : Failure → Type 0
Passing e = (is_handoff_error e ≡ true) ⊎ ((e ≡ value_error) ⊎ (e ≡ unicode_error))

-- What raises nothing else.
abbrev Guarded : {A : Type 0} → Attempt A → Type 0
Guarded {A} m = (e : Failure) → m ≡ raised e → Passing e

caught-Guarded : {A : Type 0} (m : Attempt A) → Guarded (caught m)
unfolding caught
caught-Guarded (done a) e h = cc
caught-Guarded (raised value_error) e h = inr (inl cc)
caught-Guarded (raised unicode_error) e h = inr (inr cc)
caught-Guarded (raised f) e h = inl cc

require-Guarded :
    {A : Type 0} (test : Bool) (f : Failure) (m : Attempt A)
    → is_handoff_error f ≡ true
    → Guarded m
    → Guarded (require test f >> m)
require-Guarded true f m own g e h = g e h
require-Guarded false f m own g e h = inl cc

read_stored-Guarded :
    (host : Host) (token : String) (expected : Value) (found : Option Stored)
    → Guarded (read_stored host token expected found)
unfolding read_stored
read_stored-Guarded host token expected none e h = inl cc
read_stored-Guarded host token expected (some file) e h =
    require-Guarded (not file.linked && leb (payload_size file.payload) max_bytes) limit _ refl
      (caught-Guarded (decoded host file.payload >>= read_envelope host token expected)) e h

pub read-Guarded :
    (host : Host) (files : Files) (token expected : Value)
    → Guarded (read host files token expected)
unfolding read
read-Guarded host files (str token) expected e h =
    require-Guarded (is_id token) identifier _ refl
      (require-Guarded (not (truthy expected) || valid_checksum expected) checksum _ refl
        (read_stored-Guarded host token expected (lookup token files)))
      e h
read-Guarded host files null expected e h = inl cc
read-Guarded host files (bool _) expected e h = inl cc
read-Guarded host files (int _) expected e h = inl cc
read-Guarded host files (float _) expected e h = inl cc
read-Guarded host files (arr _) expected e h = inl cc
read-Guarded host files (obj _) expected e h = inl cc

-- If `read` of an id raises, either it raises an error of the store's own kind, and a listing that looks at
-- that file finds it unreadable and does not raise; or it raises a plain ValueError or a UnicodeEncodeError,
-- and the listing raises the same. A TypeError or a KeyError it never raises.
pub look-raised :
    (host : Host) (files : Files) (q : Lookup) (name : String) (e : Failure)
    → read host files (str name) (str "") ≡ raised e
    → (is_handoff_error e ≡ true) × (look host files q name ≡ done unreadable)
      ⊎ ((e ≡ value_error) ⊎ (e ≡ unicode_error)) × (look host files q name ≡ raised e)
unfolding look
look-raised host files q name e h = elim (read-Guarded host files (str name) (str "") e h) [
  | inl own ↦ inl (own, ap (found_in host q) h ∙ rw own refl)
  | inr (inl plain) ↦ inr (inl plain, ap (found_in host q) h ∙ rw plain refl)
  | inr (inr code) ↦ inr (inr code, ap (found_in host q) h ∙ rw code refl)
]
