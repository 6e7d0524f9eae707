-- ===== src/Sdp/RemoteSdp/Tests.antt =====
-- A run of the remote session description of src/sdp/RemoteSdp.cpp: two sections are added, and the
-- second one is closed.
use libmediasoupclient.Prelude.{String, true, [], ◌∷◌, some, ◌≡◌, ◌==◌, refl}
use libmediasoupclient.Prelude.Lists.{get_elem?}
use libmediasoupclient.Prelude.Result.{ok, value_or}
use libmediasoupclient.Json.{Json, string, unsigned, object, end, lookup, insert, remove}
use libmediasoupclient.Json.Number.{json_eq}
use libmediasoupclient.Ortc.Objects.{build}
use libmediasoupclient.Sdp.MediaSection.{MediaSection, answer, get_mid, is_closed, close}
use libmediasoupclient.Index.{find_index, put_index, index_of}
use libmediasoupclient.Sdp.RemoteSdp.{
  RemoteSdp, new_remote_sdp, with_sections, bundle_from, regenerate_bundle_mids, add_media_section,
  close_media_section, next_from, get_next_media_section_idx,
}
use libmediasoupclient.Sdp.RemoteSdp.Closing.{ClosedAt, close-ClosedAt}
use libmediasoupclient.Sdp.RemoteSdp.Next.{FirstClosed, next-FirstClosed, next-reuse}
use libmediasoupclient.Sdp.RemoteSdp.Reachable.{
  Reachable, new, next, offered, closed, Reachable-IsConsistent,
}

abbrev section : String → MediaSection
section mid = record {
  side = answer;
  media_object = build (("mid", string mid) ∷ ("port", unsigned 7) ∷ []);
}

abbrev ice : Json
ice = object end

start : RemoteSdp
start = new_remote_sdp ice end

one : RemoteSdp
unfolding start new_remote_sdp add_media_section with_sections regenerate_bundle_mids bundle_from
    get_mid is_closed put_index json_eq lookup insert
one = value_or start (add_media_section (section "0") start)

two : RemoteSdp
unfolding start new_remote_sdp one add_media_section with_sections regenerate_bundle_mids
    bundle_from get_mid is_closed put_index json_eq lookup insert
two = value_or start (add_media_section (section "1") one)

one_closed : RemoteSdp
unfolding start new_remote_sdp one two close_media_section index_of find_index close with_sections
    regenerate_bundle_mids bundle_from get_mid is_closed put_index json_eq lookup insert remove
one_closed = value_or start (close_media_section "1" two)

two-Reachable : Reachable two
unfolding one two start new_remote_sdp add_media_section with_sections regenerate_bundle_mids
    bundle_from get_mid is_closed find_index put_index json_eq lookup insert
two-Reachable =
    next (next (new ice end) (offered (section "0") "0" one refl refl refl))
      (offered (section "1") "1" two refl refl refl)

closing : close_media_section "1" two ≡ ok one_closed
unfolding one two one_closed start new_remote_sdp close_media_section index_of find_index close
    with_sections regenerate_bundle_mids bundle_from get_mid is_closed put_index json_eq lookup
    insert remove
closing = refl

known : find_index "1" two.mid_to_index ≡ some 1
unfolding one two start new_remote_sdp find_index put_index lookup insert
known = refl

one_closed-Reachable : Reachable one_closed
one_closed-Reachable = next two-Reachable (closed "1" 1 one_closed known closing)

choosing : get_next_media_section_idx one_closed ≡ ok (1, "1")
unfolding one two one_closed start new_remote_sdp get_next_media_section_idx next_from
    close_media_section index_of find_index close with_sections regenerate_bundle_mids bundle_from
    get_mid is_closed put_index json_eq lookup insert remove
choosing = refl

close-ClosedAt_example : ClosedAt ("1" == two.first_mid) 1 (section "1") two one_closed
unfolding one two start new_remote_sdp
close-ClosedAt_example = close-ClosedAt "1" 1 (section "1") two one_closed known refl closing

next-FirstClosed_example : FirstClosed one_closed.media_sections 1 "1"
next-FirstClosed_example = next-FirstClosed one_closed 1 "1" choosing

next-reuse_example :
    (find_index "1" one_closed.mid_to_index ≡ some 1)
    × ((m : MediaSection) × (get_elem? one_closed.media_sections 1 ≡ some m)
        × (is_closed m ≡ ok true))
next-reuse_example =
    next-reuse one_closed 1 "1" (Reachable-IsConsistent one_closed-Reachable) choosing refl
