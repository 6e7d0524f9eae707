-- ===== src/Json/Access.antt =====
-- The fields of an object: lookup, insertion and removal as std::map does them, and their laws.
use Prim.Native.String.{compare}
use libmediasoupclient.Prelude.{
  String, ◌≡◌, refl, Option, none, some, arith, ◌==◌, eq_iff, if◌then◌else◌, Option-cases, inl, inr,
}
use text.Mathlib.Text.{is_lt}
use libmediasoupclient.Json.Value.{Json, Fields, end, field}

unfoldable pub lookup : String → Fields → Option Json
lookup k end = none
lookup k (field j v fs) = if j == k then some v else lookup k fs

-- Insertion of a new key, in the order of the keys.
place : String → Json → Fields → Fields
place k v end = field k v end
place k v (field j w fs) =
    if is_lt (compare k j) then field k v (field j w fs) else field j w (place k v fs)

-- Assignment to a key that is there.
update : String → Json → Fields → Fields
update k v end = end
update k v (field j w fs) = if j == k then field j v fs else field j w (update k v fs)

-- `j[k] = v`
unfoldable pub insert : String → Json → Fields → Fields
unfolding lookup place update
insert k v fs = elim (lookup k fs) [ none ↦ place k v fs | some _ ↦ update k v fs ]

-- `j.erase(k)`
unfoldable pub remove : String → Fields → Fields
remove k end = end
remove k (field j w fs) = let rest = remove k fs in if j == k then rest else field j w rest

lookup-place :
    (i k : String) (v : Json) (fs : Fields)
    → lookup k fs ≡ none
    → lookup i (place k v fs) ≡ (if k == i then some v else lookup i fs)
unfolding lookup place
lookup-place i k v end h = refl
lookup-place i k v (field j w fs) h =
    ground (arith, eq_iff j k, eq_iff j i, eq_iff k i, lookup-place i k v fs)

lookup-update :
    (i k : String) (v w : Json) (fs : Fields)
    → lookup k fs ≡ some w
    → lookup i (update k v fs) ≡ (if k == i then some v else lookup i fs)
unfolding lookup update
lookup-update i k v w end h = ground arith
lookup-update i k v w (field j x fs) h =
    ground (arith, eq_iff j k, eq_iff j i, eq_iff k i, lookup-update i k v w fs)

pub lookup-insert :
    (i k : String) (v : Json) (fs : Fields)
    → lookup i (insert k v fs) ≡ (if k == i then some v else lookup i fs)
unfolding insert
lookup-insert i k v fs = elim (Option-cases (lookup k fs)) [
  | inl missing ↦ rw (missing, insert) (lookup-place i k v fs missing)
  | inr (w, found) ↦ rw (found, insert) (lookup-update i k v w fs found)
]

pub lookup-remove :
    (i k : String) (fs : Fields) → lookup i (remove k fs) ≡ (if k == i then none else lookup i fs)
unfolding lookup remove
lookup-remove i k end = ground arith
lookup-remove i k (field j w fs) =
    ground (arith, eq_iff j k, eq_iff j i, eq_iff k i, lookup-remove i k fs)

update-present : (k : String) (v : Json) (fs : Fields) → lookup k fs ≡ some v → update k v fs ≡ fs
unfolding lookup update
update-present k v end h = refl
update-present k v (field j w fs) h = ground (arith, eq_iff j k, update-present k v fs)

-- Assigning the value that is there changes nothing.
pub insert-present :
    (k : String) (v : Json) (fs : Fields) → lookup k fs ≡ some v → insert k v fs ≡ fs
unfolding insert
insert-present k v fs h = rw (h, insert) (update-present k v fs h)

pub remove-absent : (k : String) (fs : Fields) → lookup k fs ≡ none → remove k fs ≡ fs
unfolding lookup remove
remove-absent k end h = refl
remove-absent k (field j w fs) h = ground (arith, eq_iff j k, remove-absent k fs)
