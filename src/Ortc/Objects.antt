-- ===== src/Ortc/Objects.antt =====
-- Reading and building the JSON objects that src/ortc.cpp negotiates with.
use libmediasoupclient.Prelude.{◌==◌, if◌then◌else◌, Option-cases, inl, inr}
use libmediasoupclient.Json.Access.{lookup-insert}
use libmediasoupclient.Prelude.{String, List, [], ◌∷◌, Option, none, some, ◌≡◌, arith}
use libmediasoupclient.Prelude.Result.{Result, ok, err, json_error, undefined, ◌>>=◌}
use libmediasoupclient.Json.{Json, object, Items, Fields, end, lookup, insert}
use libmediasoupclient.Ortc.Checks.{get_string, items_of}

-- `j[k]` of a constant value: undefined at a key that is missing.
abbrev pub at : String → Json → Result Json
at k (object fs) = elim (lookup k fs) [ none ↦ err undefined | some v ↦ ok v ]
at k _ = err json_error

-- `j[k].get<std::string>()` of a constant value.
abbrev pub string_at : String → Json → Result String
string_at k j = do v ← at k j; get_string (some v)

-- The range of `for (const auto& x : j[k])`.
abbrev pub items_at : String → Json → Result Items
items_at k j = do v ← at k j; ok (items_of (some v))

-- `j.contains(k)` and `j.find(k)`.
abbrev pub find : String → Json → Option Json
find k (object fs) = lookup k fs
find k _ = none

-- An object from an initializer list.
abbrev pub build : List (String × Json) → Fields
build [] = end
build ((k, v) ∷ rest) = insert k v (build rest)

-- `if (source.contains(k)) target[k] = source[k];`
abbrev pub copy_if_present : String → Json → Fields → Fields
copy_if_present k source target = elim (find k source) [
  | none ↦ target
  | some v ↦ insert k v target
]

abbrev pub or_else : Option Json → Option Json → Option Json
or_else none b = b
or_else (some a) b = some a

pub lookup-copy_if_present :
    (i k : String) (source : Json) (target : Fields)
    → lookup i (copy_if_present k source target)
      ≡ (if k == i then or_else (find k source) (lookup i target) else lookup i target)
lookup-copy_if_present i k source target = elim (Option-cases (find k source)) [
  | inl missing ↦ rw (missing, copy_if_present) (ground arith)
  | inr (v, found) ↦ rw (found, copy_if_present) (lookup-insert i k v target)
]
