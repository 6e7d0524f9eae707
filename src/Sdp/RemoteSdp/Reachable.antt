-- ===== src/Sdp/RemoteSdp/Reachable.antt =====
-- The states that a remote session description of src/sdp/RemoteSdp.cpp goes through, as the
-- handlers of src/Handler.cpp call its operations.
use libmediasoupclient.Prelude.{
  ℕ, String, false, none, some, ◌≡◌, ◌==◌, arith, eq_iff, inl, inr, Bool-cases,
}
use libmediasoupclient.Prelude.Result.{ok}
use libmediasoupclient.Json.{Json, Fields}
use libmediasoupclient.Sdp.MediaSection.{MediaSection, get_mid}
use libmediasoupclient.Index.{find_index, erase_index, find_index-erase_index}
use libmediasoupclient.Sdp.RemoteSdp.{
  RemoteSdp, new_remote_sdp, add_media_section, create_answer, close_media_section,
  update_ice_parameters, update_dtls_role, get_next_media_section_idx, get_sdp,
}
use libmediasoupclient.Sdp.RemoteSdp.Consistent.{
  IsConsistent, new-IsConsistent, add-IsConsistent, close-IsConsistent,
}
use libmediasoupclient.Sdp.RemoteSdp.Next.{next-reuse}
use libmediasoupclient.Sdp.RemoteSdp.Replace.{replace-IsConsistent}
use libmediasoupclient.Sdp.RemoteSdp.Update.{update_ice-IsConsistent, update_dtls-IsConsistent}

-- One of the calls that the handlers make, for a new section with a MID that no other section has,
-- which is not empty in an answer; the handlers suppose that of MIDs, and do not check it. The MID to
-- reuse is the one that GetNextMediaSectionIdx gave, and only sections that are there are closed.
-- DisableMediaSection, which nothing calls, is no step: it does not write the section to the SDP
-- object.
pub data Step (s : RemoteSdp) : RemoteSdp → Type 0 where
  answered :
      (m : MediaSection) (mid reuse_mid : String) (idx : ℕ) (t : RemoteSdp)
      → get_next_media_section_idx s ≡ ok (idx, reuse_mid)
      → get_mid m ≡ ok mid
      → (mid == "") ≡ false
      → find_index mid (erase_index reuse_mid s.mid_to_index) ≡ none
      → create_answer m reuse_mid s ≡ ok t
      → Step s t
  offered :
      (m : MediaSection) (mid : String) (t : RemoteSdp)
      → get_mid m ≡ ok mid
      → find_index mid s.mid_to_index ≡ none
      → add_media_section m s ≡ ok t
      → Step s t
  closed :
      (mid : String) (i : ℕ) (t : RemoteSdp)
      → find_index mid s.mid_to_index ≡ some i
      → close_media_section mid s ≡ ok t
      → Step s t
  restarted : (ice : Json) (t : RemoteSdp) → update_ice_parameters ice s ≡ ok t → Step s t
  given_role : (role : String) (t : RemoteSdp) → update_dtls_role role s ≡ ok t → Step s t
  written : Step s (get_sdp s)

pub data Reachable : RemoteSdp → Type 0 where
  new : (ice : Json) (dtls : Fields) → Reachable (new_remote_sdp ice dtls)
  next : {s t : RemoteSdp} → Reachable s → Step s t → Reachable t

answer-IsConsistent :
    (m : MediaSection) (mid reuse_mid : String) (idx : ℕ) (s t : RemoteSdp)
    → IsConsistent s
    → get_next_media_section_idx s ≡ ok (idx, reuse_mid)
    → get_mid m ≡ ok mid
    → (mid == "") ≡ false
    → find_index mid (erase_index reuse_mid s.mid_to_index) ≡ none
    → create_answer m reuse_mid s ≡ ok t
    → IsConsistent t
unfolding create_answer
answer-IsConsistent m mid reuse_mid idx s t old chosen is_mid given is_new h =
    elim (Bool-cases (reuse_mid == "")) [
      | inl empty ↦
          let differs : (reuse_mid == mid) ≡ false =
            ground
              (arith, eq_iff reuse_mid "", eq_iff reuse_mid mid, eq_iff mid "", given, empty) in
          add-IsConsistent m mid s t old is_mid
            (rw (find_index-erase_index mid reuse_mid s.mid_to_index, differs) at is_new)
            (rw empty at h)
      | inr reused ↦
          replace-IsConsistent m mid reuse_mid idx s t old is_mid
            (next-reuse s idx reuse_mid old chosen reused).0 is_new (rw reused at h)
    ]

-- Each step leaves a consistent description.
pub Step-IsConsistent : {s t : RemoteSdp} → IsConsistent s → Step s t → IsConsistent t
unfolding get_sdp
Step-IsConsistent {s} old (answered m mid reuse_mid idx t chosen is_mid given is_new h) =
    answer-IsConsistent m mid reuse_mid idx s t old chosen is_mid given is_new h
Step-IsConsistent {s} old (offered m mid t is_mid is_new h) =
    add-IsConsistent m mid s t old is_mid is_new h
Step-IsConsistent {s} old (closed mid i t known h) = close-IsConsistent mid i s t old known h
Step-IsConsistent {s} old (restarted ice t h) = update_ice-IsConsistent ice s t old h
Step-IsConsistent {s} old (given_role role t h) = update_dtls-IsConsistent role s t old h
Step-IsConsistent old written = record {
  in_sync = old.in_sync;
  bundled = old.bundled;
  is_index = old.is_index;
}

pub Reachable-IsConsistent : {s : RemoteSdp} → Reachable s → IsConsistent s
Reachable-IsConsistent (new ice dtls) = new-IsConsistent ice dtls
Reachable-IsConsistent (next before step) = Step-IsConsistent (Reachable-IsConsistent before) step
