-- ===== src/Ortc/Sending/Control.antt =====
-- Which congestion control getSendingRemoteRtpParameters of src/ortc.cpp finds, and which RTCP
-- feedback it drops for it.
use libmediasoupclient.Prelude.{
  String, Bool, true, false, ◌≡◌, ◌==◌, ◌||◌, refl, subst, inl, inr, Bool-cases,
}
use libmediasoupclient.Prelude.Result.{ok, >>=-eq-ok, ok-injective}
use libmediasoupclient.Json.{Json, Items, nil, cons}
use libmediasoupclient.Ortc.Objects.{string_at}
use libmediasoupclient.Ortc.Sending.{
  has_uri, congestion, Congestion, is_dropped, transport_cc_uri, abs_send_time_uri,
}

-- Whether a list of header extensions has one with the URI.
pub data UriIn (uri : String) : Items → Bool → Type 0 where
  absent : UriIn uri nil false
  found :
      {ext : Json} {rest : Items} (u : String)
      → string_at "uri" ext ≡ ok u
      → (u == uri) ≡ true
      → UriIn uri (cons ext rest) true
  next :
      {ext : Json} {rest : Items} {answer : Bool} (u : String)
      → string_at "uri" ext ≡ ok u
      → (u == uri) ≡ false
      → UriIn uri rest answer
      → UriIn uri (cons ext rest) answer

has_uri-UriIn :
    (uri : String) (exts : Items) (answer : Bool)
    → has_uri uri exts ≡ ok answer
    → UriIn uri exts answer
unfolding has_uri
has_uri-UriIn uri nil answer h = subst (UriIn uri nil) (ok-injective h) absent
has_uri-UriIn uri (cons ext rest) answer h =
    let (u, is_u, h₁) = >>=-eq-ok (string_at "uri" ext) _ h in
    elim (Bool-cases (u == uri)) [
      | inl same ↦
          subst (UriIn uri (cons ext rest)) (ok-injective (rw same at h₁)) (found u is_u same)
      | inr other ↦ next u is_u other (has_uri-UriIn uri rest answer (rw other at h₁))
    ]

-- What the header extensions make of the feedback types that are dropped: REMB with Transport-CC,
-- Transport-CC with the absolute send time alone, and both without either.
pub data Control (exts : Items) (dropped : String → Bool) : Type 0 where
  by_transport_cc :
      UriIn transport_cc_uri exts true
      → ((type : String) → dropped type ≡ (type == "goog-remb"))
      → Control exts dropped
  by_remb :
      UriIn transport_cc_uri exts false
      → UriIn abs_send_time_uri exts true
      → ((type : String) → dropped type ≡ (type == "transport-cc"))
      → Control exts dropped
  by_neither :
      UriIn transport_cc_uri exts false
      → UriIn abs_send_time_uri exts false
      → ((type : String) → dropped type ≡ (type == "transport-cc" || type == "goog-remb"))
      → Control exts dropped

pub congestion-Control :
    (exts : Items) (mode : Congestion) → congestion exts ≡ ok mode → Control exts (is_dropped mode)
unfolding congestion is_dropped
congestion-Control exts mode h =
    let (cc, is_cc, h₁) = >>=-eq-ok (has_uri transport_cc_uri exts) _ h in
    let has_cc = has_uri-UriIn transport_cc_uri exts cc is_cc in
    let drops : Congestion → Type 0 = λ m. Control exts (is_dropped m) in
    elim (Bool-cases cc) [
      | inl there ↦
          subst drops (ok-injective (rw there at h₁))
            (by_transport_cc (subst (UriIn transport_cc_uri exts) there has_cc) (λ type. refl))
      | inr missing ↦
          let no_cc = subst (UriIn transport_cc_uri exts) missing has_cc in
          let (ast, is_ast, h₂) = >>=-eq-ok (has_uri abs_send_time_uri exts) _ (rw missing at h₁) in
          let has_ast = has_uri-UriIn abs_send_time_uri exts ast is_ast in
          elim (Bool-cases ast) [
            | inl there ↦
                subst drops (ok-injective (rw there at h₂)) (
                  by_remb no_cc (subst (UriIn abs_send_time_uri exts) there has_ast) (λ type. refl))
            | inr absent_too ↦ subst drops (ok-injective (rw absent_too at h₂)) (
                by_neither no_cc (subst (UriIn abs_send_time_uri exts) absent_too has_ast)
                  (λ type. refl))
          ]
    ]
