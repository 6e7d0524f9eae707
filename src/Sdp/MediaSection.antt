-- ===== src/Sdp/MediaSection.antt =====
-- The media section of src/sdp/MediaSection.cpp, once it is constructed.
use libmediasoupclient.Prelude.{
  false, subst, inl, inr, Bool-cases, String, Bool, true, ◌≡◌, refl, ◌==◌, if◌then◌else◌,
}
use libmediasoupclient.Prelude.Result.{Result, ok, ◌>>=◌, >>=-eq-ok, ok-injective}
use libmediasoupclient.Json.{
  Json, integer, pos, string, object, Fields, end, lookup, insert, remove,
}
use libmediasoupclient.Json.Access.{lookup-insert, lookup-remove}
use libmediasoupclient.Json.Number.{json_eq}
use libmediasoupclient.Ortc.Objects.{at, string_at}

-- The two classes that derive from MediaSection.
pub data Side : Type 0 where
  answer offer : Side

pub record MediaSection : Type 0 where
  pub side : Side
  pub media_object : Fields

-- GetMid
unfoldable pub get_mid : MediaSection → Result String
get_mid m = string_at "mid" (object m.media_object)

-- IsClosed
unfoldable pub is_closed : MediaSection → Result Bool
is_closed m = do port ← at "port" (object m.media_object); ok (json_eq port (integer (pos 0)))

-- GetObject
abbrev pub get_object : MediaSection → Fields
get_object m = m.media_object

-- SetIceParameters
pub set_ice_parameters : Json → MediaSection → Result MediaSection
set_ice_parameters ice_parameters m = do
  username_fragment ← at "usernameFragment" ice_parameters
  password ← at "password" ice_parameters
  ok (record {
    side = m.side;
    media_object = insert "icePwd" password (insert "iceUfrag" username_fragment m.media_object);
  })

-- The part that Disable and Close share.
unfoldable pub remove_media : Fields → Fields
remove_media fs =
    remove "rids" (remove "simulcast" (remove "ssrcGroups" (remove "ssrcs" (remove "ext" fs))))

-- Disable
unfoldable pub disable : MediaSection → MediaSection
unfolding remove_media
disable m = record {
  side = m.side;
  media_object = remove_media (insert "direction" (string "inactive") m.media_object);
}

-- Close
unfoldable pub close : MediaSection → MediaSection
unfolding remove_media
close m = record {
  side = m.side;
  media_object = remove "extmapAllowMixed" (
      remove_media
        (insert "port" (integer (pos 0)) (insert "direction" (string "inactive") m.media_object)));
}

abbrev pub set_setup : String → Fields → Fields
set_setup role fs =
    if role == "client"
    then insert "setup" (string "active") fs
    else if role == "server"
    then insert "setup" (string "passive") fs
    else if role == "auto"
    then insert "setup" (string "actpass") fs
    else fs

-- SetDtlsRole of the two classes.
abbrev set_setup_of : Side → String → Fields → Fields
set_setup_of answer role fs = set_setup role fs
set_setup_of offer role fs = insert "setup" (string "actpass") fs

pub set_dtls_role : String → MediaSection → MediaSection
set_dtls_role role m = record {
  side = m.side;
  media_object = set_setup_of m.side role m.media_object;
}

at-eq : (k : String) (a b : Fields) → lookup k a ≡ lookup k b → at k (object a) ≡ at k (object b)
at-eq k a b h = rw (h, at) refl

pub get_mid-close : (m : MediaSection) → get_mid (close m) ≡ get_mid m
unfolding get_mid close remove_media
get_mid-close m =
    rw (at-eq "mid" (close m).media_object m.media_object (simp (lookup-insert, lookup-remove)))
      refl

pub get_mid-disable : (m : MediaSection) → get_mid (disable m) ≡ get_mid m
unfolding get_mid disable remove_media
get_mid-disable m =
    rw (at-eq "mid" (disable m).media_object m.media_object (simp (lookup-insert, lookup-remove)))
      refl

closed_port : Fields
closed_port = insert "port" (integer (pos 0)) end

pub is_closed-close : (m : MediaSection) → is_closed (close m) ≡ ok true
unfolding is_closed close remove_media closed_port json_eq insert lookup
is_closed-close m =
    rw (at-eq "port" (close m).media_object closed_port (simp (lookup-insert, lookup-remove))) refl

pub is_closed-disable : (m : MediaSection) → is_closed (disable m) ≡ is_closed m
unfolding is_closed disable remove_media
is_closed-disable m =
    rw (at-eq "port" (disable m).media_object m.media_object (simp (lookup-insert, lookup-remove)))
      refl

-- Two states of a section with one MID, both closed or both open.
pub record HasSameMid (m m' : MediaSection) : Type 0 where
  pub mid : get_mid m' ≡ get_mid m
  pub closed : is_closed m' ≡ is_closed m

same_fields-HasSameMid :
    (m m' : MediaSection)
    → lookup "mid" m'.media_object ≡ lookup "mid" m.media_object
    → lookup "port" m'.media_object ≡ lookup "port" m.media_object
    → HasSameMid m m'
unfolding get_mid is_closed
same_fields-HasSameMid m m' mid port = record {
  mid = rw (at-eq "mid" m'.media_object m.media_object mid) refl;
  closed = rw (at-eq "port" m'.media_object m.media_object port) refl;
}

pub set_ice_parameters-HasSameMid :
    (ice : Json) (m m' : MediaSection) → set_ice_parameters ice m ≡ ok m' → HasSameMid m m'
unfolding set_ice_parameters
set_ice_parameters-HasSameMid ice m m' h =
    let (username_fragment, _, h₁) = >>=-eq-ok (at "usernameFragment" ice) _ h in
    let (password, _, h₂) = >>=-eq-ok (at "password" ice) _ h₁ in
    subst (HasSameMid m) (ok-injective h₂)
      (same_fields-HasSameMid m _ (simp lookup-insert) (simp lookup-insert))

lookup-set_setup :
    (k role : String) (fs : Fields)
    → ("setup" == k) ≡ false
    → lookup k (set_setup role fs) ≡ lookup k fs
lookup-set_setup k role fs h = elim (Bool-cases (role == "client")) [
  | inl client ↦ rw (set_setup, client, lookup-insert, h) refl
  | inr not_client ↦ elim (Bool-cases (role == "server")) [
    | inl server ↦ rw (set_setup, not_client, server, lookup-insert, h) refl
    | inr not_server ↦ elim (Bool-cases (role == "auto")) [
      | inl auto ↦ rw (set_setup, not_client, not_server, auto, lookup-insert, h) refl
      | inr other ↦ rw (set_setup, not_client, not_server, other) refl
    ]
  ]
]

lookup-set_setup_of :
    (side : Side) (k role : String) (fs : Fields)
    → ("setup" == k) ≡ false
    → lookup k (set_setup_of side role fs) ≡ lookup k fs
lookup-set_setup_of answer k role fs h = lookup-set_setup k role fs h
lookup-set_setup_of offer k role fs h = rw (lookup-insert, h) refl

pub set_dtls_role-HasSameMid :
    (role : String) (m : MediaSection) → HasSameMid m (set_dtls_role role m)
unfolding set_dtls_role
set_dtls_role-HasSameMid role m =
    same_fields-HasSameMid m (set_dtls_role role m)
      (lookup-set_setup_of m.side "mid" role m.media_object refl)
      (lookup-set_setup_of m.side "port" role m.media_object refl)
