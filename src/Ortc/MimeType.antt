-- ===== src/Ortc/MimeType.antt =====
-- The regular expression "^(audio|video)/(.+)" of src/ortc.cpp, case-insensitive, matched against
-- the whole text, and that of RTX codecs.
use Prim.Native.Char.{code}
use libmediasoupclient.Prelude.{
  ℕ, ◌+◌, String, ◌≡◌, refl, Bool, true, false, not, ◌&&◌, ◌||◌, Option, none, some, List, [], ◌∷◌,
  map, leb, eqb, ◌==◌, if◌then◌else◌,
}

-- The code points of a text.
abbrev pub codes : String → List ℕ
codes String.[] = []
codes (String.◌∷◌ c s) = code c ∷ codes s

-- `tolower` of the "C" locale.
unfoldable pub to_lower : ℕ → ℕ
to_lower c = if leb b'A' c && leb c b'Z' then c + 32 else c

-- A text, ignoring case, against one in lower case.
abbrev pub same_codes : List ℕ → List ℕ → Bool
same_codes [] [] = true
same_codes (x ∷ xs) (y ∷ ys) = eqb x y && same_codes xs ys
same_codes _ _ = false

unfoldable pub matches_lower : String → String → Bool
unfolding to_lower
matches_lower s t = same_codes (map to_lower (codes s)) (codes t)

-- The text before the first slash, and the text after it if there is one.
unfoldable pub before_slash : String → String
before_slash String.[] = String.[]
before_slash (String.◌∷◌ c s) =
    let rest = before_slash s in if eqb (code c) b'/' then String.[] else String.◌∷◌ c rest

unfoldable pub after_slash : String → Option String
after_slash String.[] = none
after_slash (String.◌∷◌ c s) =
    let rest = after_slash s in if eqb (code c) b'/' then some s else rest

-- `.` of ECMAScript matches all but the line terminators.
unfoldable pub all_dots : String → Bool
all_dots String.[] = true
all_dots (String.◌∷◌ c s) = not (eqb (code c) 10 || eqb (code c) 13) && all_dots s

-- `.+`
unfoldable pub some_dots : Option String → Bool
unfolding all_dots
some_dots none = false
some_dots (some s) = if s == "" then false else all_dots s

unfoldable pub is_media : String → Bool
unfolding matches_lower
is_media s = matches_lower s "audio" || matches_lower s "video"

-- `mimeTypeMatch[1].str()`, or `none` where the match is empty.
unfoldable pub mime_kind : String → Option String
unfolding is_media before_slash after_slash some_dots
mime_kind s =
    if is_media (before_slash s) && some_dots (after_slash s) then some (before_slash s) else none

mime_kind_tests :
    (mime_kind "audio/opus" ≡ some "audio")
    × (mime_kind "Video/VP8" ≡ some "Video")
    × (mime_kind "text/plain" ≡ none)
    × (mime_kind "audio/" ≡ none)
unfolding mime_kind
mime_kind_tests = (refl, refl, refl, refl)
