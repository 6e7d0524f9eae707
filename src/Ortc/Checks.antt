-- ===== src/Ortc/Checks.antt =====
-- The idioms that the validators of src/ortc.cpp are made of, and their laws. An iterator
-- `it = fs.find(k)` is the `Option` of its lookup; `none` is `fs.end()`.
use libmediasoupclient.Prelude.{
  subst, String, ◌≡◌, refl, Bool, true, false, Option, none, some, arith, ◌==◌, if◌then◌else◌,
}
use libmediasoupclient.Prelude.Result.{
  Result, ok, err, json_error, undefined, ◌>>=◌, >>=-eq-ok, ok-injective,
}
use libmediasoupclient.Json.{
  Json, Items, nil, cons, Fields, end, boolean, string, array, object, lookup, insert,
}
use libmediasoupclient.Json.Access.{lookup-insert}

-- `it != fs.end() && test(*it)`
abbrev pub holds : (Json → Bool) → Option Json → Bool
holds test none = false
holds test (some j) = test j

-- `!(it != fs.end() && !test(*it))`
abbrev pub absent_or : (Json → Bool) → Option Json → Bool
absent_or test none = true
absent_or test (some j) = test j

-- `it != fs.end()`
abbrev pub present : Option Json → Bool
present none = false
present (some j) = true

pub holds-absent_or :
    (test : Json → Bool) (it : Option Json) → holds test it ≡ true → absent_or test it ≡ true
holds-absent_or test none h = refl
holds-absent_or test (some j) h = h

pub holds-present :
    (test : Json → Bool) (it : Option Json) → holds test it ≡ true → present it ≡ true
holds-present test none h = h
holds-present test (some j) h = refl

-- `is_string() && !get<std::string>().empty()`
abbrev pub is_nonempty_string : Json → Bool
is_nonempty_string (string s) = if s == "" then false else true
is_nonempty_string _ = false

-- `it->get<std::string>()`
abbrev pub get_string : Option Json → Result String
get_string none = err undefined
get_string (some (string s)) = ok s
get_string (some _) = err json_error

-- `*it == true`
abbrev pub is_true : Option Json → Bool
is_true (some (boolean b)) = b
is_true _ = false

-- The items of the array, or the fields of the object, that an iterator points to.
abbrev pub items_of : Option Json → Items
items_of (some (array xs)) = xs
items_of _ = nil

abbrev pub fields_of : Option Json → Fields
fields_of (some (object fs)) = fs
fields_of _ = end

-- A predicate on the fields of a value that is an object, and on the items of one that is an array.
abbrev pub IsObject : (Fields → Type 0) → Json → Type 0
IsObject P (object fs) = P fs
IsObject P _ = ⊥

pub IsObject-ok :
    (P : Fields → Type 0) (fs : Fields) {w : Json} → ok (object fs) ≡ ok w → P fs → IsObject P w
IsObject-ok P fs h p = subst (IsObject P) (ok-injective h) p

abbrev pub IsArray : (Items → Type 0) → Json → Type 0
IsArray P (array xs) = P xs
IsArray P _ = ⊥

-- `if (!given) fs[k] = v;`
unfoldable pub put_unless : Bool → String → Json → Fields → Fields
put_unless given k v fs = if given then fs else insert k v fs

-- At literal keys the outer test computes, so that a write of another key disappears.
pub lookup-put_unless :
    (i : String) (given : Bool) (k : String) (v : Json) (fs : Fields)
    → lookup i (put_unless given k v fs)
      ≡ (if k == i then (if given then lookup i fs else some v) else lookup i fs)
unfolding put_unless
lookup-put_unless i true k v fs = ground arith
lookup-put_unless i false k v fs = lookup-insert i k v fs

pub put_unless-true : (k : String) (v : Json) (fs : Fields) → put_unless true k v fs ≡ fs
unfolding put_unless
put_unless-true k v fs = refl

abbrev pub append : Items → Items → Items
append nil ys = ys
append (cons x xs) ys = cons x (append xs ys)

-- `for (auto& x : xs) f(x);` where `f` may throw.
unfoldable pub each : (Json → Result Json) → Items → Result Items
each f nil = ok nil
each f (cons x xs) = do y ← f x; ys ← each f xs; ok (cons y ys)

abbrev pub AllItems : (Json → Type 0) → Items → Type 0
AllItems P nil = Unit
AllItems P (cons x xs) = P x × AllItems P xs

module _ (f : Json → Result Json) (P : Json → Type 0) where
  -- What `f` establishes of one item, the loop establishes of all.
  pub each_sound :
      ((x y : Json) → f x ≡ ok y → P y) → (xs ys : Items) → each f xs ≡ ok ys → AllItems P ys
  unfolding each
  each_sound step nil ys h = ground arith
  each_sound step (cons x xs) ys h =
      let (y, first, later) = >>=-eq-ok (f x) (λ y. do zs ← each f xs; ok (cons y zs)) h in
      let (zs, rest, last) = >>=-eq-ok (each f xs) (λ zs. ok (cons y zs)) later in
      let done : AllItems P (cons y zs) = (step x y first, each_sound step xs zs rest) in
      let same : cons y zs ≡ ys = cc last in subst (AllItems P) same done

  pub each_stable :
      ((x : Json) → P x → f x ≡ ok x) → (xs : Items) → AllItems P xs → each f xs ≡ ok xs
  unfolding each
  each_stable step nil h = refl
  each_stable step (cons x xs) (p, h) = rw (step x p) (rw (each_stable step xs h))

-- Two arrays of one length, item by item.
abbrev pub AllPairs : (Json → Json → Type 0) → Items → Items → Type 0
AllPairs R nil nil = Unit
AllPairs R (cons x xs) (cons y ys) = R x y × AllPairs R xs ys
AllPairs R _ _ = ⊥

pub each_pairs :
    (f : Json → Result Json) (R : Json → Json → Type 0)
    → ((x y : Json) → f x ≡ ok y → R x y)
    → (xs ys : Items) → each f xs ≡ ok ys
    → AllPairs R xs ys
unfolding each
each_pairs f R step nil ys h = subst (AllPairs R nil) (ok-injective h) tt
each_pairs f R step (cons x xs) ys h =
    let (y, first, later) = >>=-eq-ok (f x) (λ y. do zs ← each f xs; ok (cons y zs)) h in
    let (zs, rest, last) = >>=-eq-ok (each f xs) (λ zs. ok (cons y zs)) later in
    subst (AllPairs R (cons x xs)) (ok-injective last)
      (step x y first, each_pairs f R step xs zs rest)
