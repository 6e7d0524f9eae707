-- ===== src/Index.antt =====
-- Maps from texts to numbers: `std::map<std::string, size_t>` of src/sdp/RemoteSdp.cpp, and the maps
-- from ids to objects of src/Transport.cpp, where a number stands for the pointer to an object.
use libmediasoupclient.Prelude.{
  ℕ, String, List, [], ◌∷◌, Option, none, some, ◌≡◌, refl, arith, ◌==◌, eq_iff, if◌then◌else◌,
}

abbrev pub Index : Type 0
Index = List (String × ℕ)

unfoldable pub find_index : String → Index → Option ℕ
find_index mid [] = none
find_index mid ((k, i) ∷ rest) = if k == mid then some i else find_index mid rest

-- `midToIndex[mid] = i`
unfoldable pub put_index : String → ℕ → Index → Index
put_index mid i [] = (mid, i) ∷ []
put_index mid i ((k, j) ∷ rest) = if k == mid then (k, i) ∷ rest else (k, j) ∷ put_index mid i rest

-- `midToIndex.erase(mid)`
unfoldable pub erase_index : String → Index → Index
erase_index mid [] = []
erase_index mid ((k, j) ∷ rest) =
    let later = erase_index mid rest in if k == mid then later else (k, j) ∷ later

-- The value of `midToIndex[mid]`, and the map as it leaves it: a key that is missing is put in.
unfoldable pub index_of : String → Index → ℕ × Index
index_of mid index = elim (find_index mid index) [
  | none ↦ (0, put_index mid 0 index)
  | some i ↦ (i, index)
]

pub find_index-put_index :
    (a b : String) (i : ℕ) (index : Index)
    → find_index a (put_index b i index) ≡ (if b == a then some i else find_index a index)
unfolding find_index put_index
find_index-put_index a b i [] = refl
find_index-put_index a b i ((k, j) ∷ rest) =
    ground (arith, eq_iff k b, eq_iff k a, eq_iff b a, find_index-put_index a b i rest)

pub find_index-erase_index :
    (a b : String) (index : Index)
    → find_index a (erase_index b index) ≡ (if b == a then none else find_index a index)
unfolding find_index erase_index
find_index-erase_index a b [] = ground arith
find_index-erase_index a b ((k, j) ∷ rest) =
    ground (arith, eq_iff k b, eq_iff k a, eq_iff b a, find_index-erase_index a b rest)

pub index_of-known :
    (mid : String) (i : ℕ) (index : Index)
    → find_index mid index ≡ some i
    → index_of mid index ≡ (i, index)
unfolding index_of
index_of-known mid i index h = rw (h, index_of) refl
