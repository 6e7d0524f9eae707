-- ===== src/Sdp/RemoteSdp.antt =====
-- src/sdp/RemoteSdp.cpp: the remote session description and its media sections.
pub mod Closing
pub mod Consistent
pub mod Next
pub mod Offers
pub mod Reachable
pub mod Replace
pub mod Answers
mod Tests
pub mod Update
use Prim.Native.String
use libmediasoupclient.Prelude.{
  ℕ, zero, suc, ◌+◌, ◌%◌, ◌^◌, String, Bool, true, false, List, [], ◌∷◌, ◌++◌, map, Option, none,
  some, ◌≡◌, ◌||◌, ◌==◌, if◌then◌else◌,
}
use libmediasoupclient.Prelude.Lists.{length, get_elem?, set}
use libmediasoupclient.Prelude.Result.{Result, ok, err, undefined, ◌>>=◌}
use libmediasoupclient.Json.{Json, null, string, object, Fields, insert}
use libmediasoupclient.Ortc.Checks.{present}
use libmediasoupclient.Ortc.Objects.{find}
use libmediasoupclient.Sdp.MediaSection.{
  MediaSection, get_mid, is_closed, get_object, set_ice_parameters, set_dtls_role, disable, close,
}
use libmediasoupclient.Index.{Index, index_of, put_index, erase_index}

-- The parts of the SDP object that change.
pub record SdpObject : Type 0 where
  pub session_version : ℕ
  pub ice_lite : Bool
  pub media : List Fields
  pub bundle_mids : String

pub record RemoteSdp : Type 0 where
  pub ice_parameters : Json
  pub dtls_parameters : Fields
  pub media_sections : List MediaSection
  pub mid_to_index : Index
  pub first_mid : String
  pub sdp_object : SdpObject

-- The constructor.
unfoldable pub new_remote_sdp : Json → Fields → RemoteSdp
new_remote_sdp ice_parameters dtls_parameters = record {
  ice_parameters = ice_parameters;
  dtls_parameters = dtls_parameters;
  media_sections = [];
  mid_to_index = [];
  first_mid = "";
  sdp_object = record {
    session_version = 0;
    ice_lite = present (find "iceLite" ice_parameters);
    media = [];
    bundle_mids = "";
  };
}

-- The loop of RegenerateBundleMids, with the text so far.
unfoldable pub bundle_from : String → List MediaSection → Result String
bundle_from mids [] = ok mids
bundle_from mids (m ∷ rest) = do
  closed ← is_closed m
  mid ← if closed then ok "" else get_mid m
  let extended = if mids == "" then mid else String.◌++◌ mids (String.◌++◌ " " mid)
  bundle_from (if closed then mids else extended) rest

-- RegenerateBundleMids
unfoldable pub regenerate_bundle_mids : RemoteSdp → Result RemoteSdp
regenerate_bundle_mids s = do
  mids ← bundle_from "" s.media_sections
  ok (record {
    ice_parameters = s.ice_parameters;
    dtls_parameters = s.dtls_parameters;
    media_sections = s.media_sections;
    mid_to_index = s.mid_to_index;
    first_mid = s.first_mid;
    sdp_object = record {
      session_version = s.sdp_object.session_version;
      ice_lite = s.sdp_object.ice_lite;
      media = s.sdp_object.media;
      bundle_mids = mids;
    };
  })

-- The sections, their index and the first MID, with the SDP object's media.
unfoldable pub with_sections :
    List MediaSection → Index → String → List Fields → RemoteSdp → RemoteSdp
with_sections sections index first media s = record {
  ice_parameters = s.ice_parameters;
  dtls_parameters = s.dtls_parameters;
  media_sections = sections;
  mid_to_index = index;
  first_mid = first;
  sdp_object = record {
    session_version = s.sdp_object.session_version;
    ice_lite = s.sdp_object.ice_lite;
    media = media;
    bundle_mids = s.sdp_object.bundle_mids;
  };
}

-- AddMediaSection
unfoldable pub add_media_section : MediaSection → RemoteSdp → Result RemoteSdp
add_media_section m s = do
  mid ← get_mid m
  regenerate_bundle_mids (
      with_sections (s.media_sections ++ m ∷ [])
        (put_index mid (length s.media_sections) s.mid_to_index)
        (if s.first_mid == "" then mid else s.first_mid) (s.sdp_object.media ++ get_object m ∷ [])
        s)

-- The section at an index; a vector leaves a read behind its end undefined.
abbrev pub section_at : ℕ → List MediaSection → Result MediaSection
section_at i sections = elim (get_elem? sections i) [ none ↦ err undefined | some m ↦ ok m ]

-- ReplaceMediaSection, with the MID of the section to replace.
pub replace_media_section : MediaSection → String → RemoteSdp → Result RemoteSdp
replace_media_section m reuse_mid s = do
  let (idx, index) = index_of reuse_mid s.mid_to_index
  old ← section_at idx s.media_sections
  old_mid ← get_mid old
  mid ← get_mid m
  regenerate_bundle_mids (
      with_sections (set s.media_sections idx m) (put_index mid idx (erase_index old_mid index))
        s.first_mid (set s.sdp_object.media idx (get_object m)) s)

-- CreateAnswer, with the section that it constructs.
pub create_answer : MediaSection → String → RemoteSdp → Result RemoteSdp
create_answer m reuse_mid s =
    if reuse_mid == "" then add_media_section m s else replace_media_section m reuse_mid s

-- CloseMediaSection
pub close_media_section : String → RemoteSdp → Result RemoteSdp
close_media_section mid s = do
  let (idx, index) = index_of mid s.mid_to_index
  old ← section_at idx s.media_sections
  let m = if mid == s.first_mid then disable old else close old
  regenerate_bundle_mids (
      with_sections (set s.media_sections idx m) index s.first_mid
        (set s.sdp_object.media idx (get_object m)) s)

-- DisableMediaSection
pub disable_media_section : String → RemoteSdp → Result RemoteSdp
disable_media_section mid s = do
  let (idx, index) = index_of mid s.mid_to_index
  old ← section_at idx s.media_sections
  ok (with_sections (set s.media_sections idx (disable old)) index s.first_mid s.sdp_object.media s)

-- The loop of GetNextMediaSectionIdx, from an index: the first closed section and its MID, or the
-- end.
pub next_from : ℕ → List MediaSection → Result (ℕ × String)
next_from idx [] = ok (idx, "")
next_from idx (m ∷ rest) = do
  closed ← is_closed m
  let later = next_from (idx + 1) rest
  if closed then (do mid ← get_mid m; ok (idx, mid)) else later

-- GetNextMediaSectionIdx
pub get_next_media_section_idx : RemoteSdp → Result (ℕ × String)
get_next_media_section_idx s = next_from 0 s.media_sections

-- One of the loops over the media sections that change each of them.
pub change_sections :
    (MediaSection → Result MediaSection) → List MediaSection → Result (List MediaSection)
change_sections change [] = ok []
change_sections change (m ∷ rest) = do
  m' ← change m
  rest' ← change_sections change rest
  ok (m' ∷ rest')

-- `sdpObject["media"][idx] = object` for each index in turn.
pub overwrite : List Fields → List Fields → List Fields
overwrite [] media = media
overwrite (x ∷ xs) [] = x ∷ overwrite xs []
overwrite (x ∷ xs) (y ∷ media) = x ∷ overwrite xs media

abbrev with_parameters : Json → Fields → Bool → List MediaSection → RemoteSdp → RemoteSdp
with_parameters ice dtls ice_lite sections s = record {
  ice_parameters = ice;
  dtls_parameters = dtls;
  media_sections = sections;
  mid_to_index = s.mid_to_index;
  first_mid = s.first_mid;
  sdp_object = record {
    session_version = s.sdp_object.session_version;
    ice_lite = s.sdp_object.ice_lite || ice_lite;
    media = overwrite (map get_object sections) s.sdp_object.media;
    bundle_mids = s.sdp_object.bundle_mids;
  };
}

-- UpdateIceParameters
pub update_ice_parameters : Json → RemoteSdp → Result RemoteSdp
update_ice_parameters ice_parameters s = do
  sections ← change_sections (set_ice_parameters ice_parameters) s.media_sections
  ok (
      with_parameters ice_parameters s.dtls_parameters (present (find "iceLite" ice_parameters))
        sections s)

-- UpdateDtlsRole
pub update_dtls_role : String → RemoteSdp → Result RemoteSdp
update_dtls_role role s = do
  sections ← change_sections (λ m. ok (set_dtls_role role m)) s.media_sections
  ok (
      with_parameters s.ice_parameters (insert "role" (string role) s.dtls_parameters)
        (present (find "iceLite" s.ice_parameters)) sections s)

-- GetSdp, up to the text that is written of the SDP object: the version is a `uint32_t`.
pub get_sdp : RemoteSdp → RemoteSdp
get_sdp s = record {
  ice_parameters = s.ice_parameters;
  dtls_parameters = s.dtls_parameters;
  media_sections = s.media_sections;
  mid_to_index = s.mid_to_index;
  first_mid = s.first_mid;
  sdp_object = record {
    session_version = (s.sdp_object.session_version + 1) % 2 ^ 32;
    ice_lite = s.sdp_object.ice_lite;
    media = s.sdp_object.media;
    bundle_mids = s.sdp_object.bundle_mids;
  };
}
