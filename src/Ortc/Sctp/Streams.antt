-- ===== src/Ortc/Sctp/Streams.antt =====
-- What validateSctpStreamParameters of src/ortc.cpp accepts, and what it fills in.
use libmediasoupclient.Prelude.{Bool, true, false, not, ◌&&◌, ◌||◌, ◌≡◌, refl, arith, subst, sym}
use libmediasoupclient.Prelude.Result.{Result, ok, err, type_error}
use libmediasoupclient.Json.{
  Json, boolean, unsigned, string, object, Fields, is_string, is_boolean, is_number_integer, lookup,
}
use libmediasoupclient.Ortc.Checks.{
  holds, present, is_true, put_unless, lookup-put_unless, IsObject,
}
use libmediasoupclient.Ortc.Sctp.{validate_sctp_stream_parameters}

-- One of the two limits on retransmission is given.
abbrev pub is_limited : Fields → Bool
is_limited p = present (lookup "maxPacketLifeTime" p) || present (lookup "maxRetransmits" p)

-- `ordered` is given, and true.
abbrev pub is_ordered : Fields → Bool
is_ordered p = holds is_boolean (lookup "ordered" p) && is_true (lookup "ordered" p)

abbrev pub is_accepted : Fields → Bool
is_accepted p =
    holds is_number_integer (lookup "streamId" p)
    && not (present (lookup "maxPacketLifeTime" p) && present (lookup "maxRetransmits" p))
    && not (is_ordered p && is_limited p)

-- The fields of an accepted value, with what the validator adds.
abbrev filled : Fields → Fields
filled p =
    let given = holds is_boolean (lookup "ordered" p) in
    let life_time = holds is_number_integer (lookup "maxPacketLifeTime" p) in
    let retransmits = holds is_number_integer (lookup "maxRetransmits" p) in
    let with_ordered = put_unless given "ordered" (boolean true) p in
    let with_life_time = put_unless life_time "maxPacketLifeTime" (unsigned 0) with_ordered in
    let with_retransmits = put_unless retransmits "maxRetransmits" (unsigned 0) with_life_time in
    let unordered =
      put_unless (not (not given && is_limited p)) "ordered" (boolean false) with_retransmits in
    let with_label =
      put_unless (holds is_string (lookup "label" p)) "label" (string "") unordered in
    put_unless (holds is_string (lookup "protocol" p)) "protocol" (string "") with_label

abbrev pub is_ok : Result Json → Bool
is_ok (ok w) = true
is_ok (err e) = false

-- The parameters of an object are accepted exactly when streamId is an integer, at most one of
-- maxPacketLifeTime and maxRetransmits is there, and neither is beside a true `ordered`.
pub is_ok-validate :
    (p : Fields) → is_ok (validate_sctp_stream_parameters (object p)) ≡ is_accepted p
unfolding validate_sctp_stream_parameters
is_ok-validate p = simp lookup-put_unless (ground arith)

validate-filled :
    (p : Fields)
    → is_accepted p ≡ true
    → validate_sctp_stream_parameters (object p) ≡ ok (object (filled p))
unfolding validate_sctp_stream_parameters
validate-filled p h = simp lookup-put_unless (ground arith)

-- An accepted value is an object, and the result is its filled fields.
record Accepted (j w : Json) : Type 0 where
  params : Fields
  is_params : j ≡ object params
  accepted : is_accepted params ≡ true
  result : w ≡ object (filled params)

validate-Accepted : (j w : Json) → validate_sctp_stream_parameters j ≡ ok w → Accepted j w
unfolding validate_sctp_stream_parameters
validate-Accepted (object p) w h =
    let a : is_accepted p ≡ true = ground (arith, is_ok-validate p) in
    record {
      params = p;
      is_params = refl;
      accepted = a;
      result = ground (arith, validate-filled p a);
    }
validate-Accepted _ w h = absurd (ground arith)

pub record IsStreamParameters (w : Fields) : Type 0 where
  pub stream_id : holds is_number_integer (lookup "streamId" w) ≡ true
  pub ordered : holds is_boolean (lookup "ordered" w) ≡ true
  pub max_packet_life_time : holds is_number_integer (lookup "maxPacketLifeTime" w) ≡ true
  pub max_retransmits : holds is_number_integer (lookup "maxRetransmits" w) ≡ true
  pub label : holds is_string (lookup "label" w) ≡ true
  pub protocol : holds is_string (lookup "protocol" w) ≡ true

filled-IsStreamParameters : (p : Fields) → is_accepted p ≡ true → IsStreamParameters (filled p)
filled-IsStreamParameters p h = record {
  stream_id = simp lookup-put_unless (ground arith);
  ordered = simp lookup-put_unless (ground arith);
  max_packet_life_time = simp lookup-put_unless (ground arith);
  max_retransmits = simp lookup-put_unless (ground arith);
  label = simp lookup-put_unless (ground arith);
  protocol = simp lookup-put_unless (ground arith);
}

-- Whatever value is accepted, the result is an object that has all six fields, each of its type.
pub validate-IsStreamParameters :
    (j w : Json) → validate_sctp_stream_parameters j ≡ ok w → IsObject IsStreamParameters w
validate-IsStreamParameters j w h =
    let a = validate-Accepted j w h in
    subst (IsObject IsStreamParameters) (sym a.result)
      (filled-IsStreamParameters a.params a.accepted)

ordered-filled :
    (p : Fields)
    → is_accepted p ≡ true
    → is_true (lookup "ordered" (filled p))
      ≡ not (is_limited p) && (not (holds is_boolean (lookup "ordered" p)) || is_ordered p)
ordered-filled p h = simp lookup-put_unless (ground arith)

-- The result is ordered exactly when the accepted parameters have no limit on retransmission and
-- do not say that `ordered` is false.
pub validate_ordered :
    (p w : Fields)
    → validate_sctp_stream_parameters (object p) ≡ ok (object w)
    → is_true (lookup "ordered" w)
      ≡ not (is_limited p) && (not (holds is_boolean (lookup "ordered" p)) || is_ordered p)
validate_ordered p w h =
    let a : is_accepted p ≡ true = ground (arith, is_ok-validate p) in
    ground (arith, validate-filled p a, ordered-filled p a)

filled_again :
    (p : Fields)
    → is_accepted p ≡ true
    → validate_sctp_stream_parameters (object (filled p))
      ≡ err (type_error "cannot provide both maxPacketLifeTime and maxRetransmits")
unfolding validate_sctp_stream_parameters
filled_again p h = simp lookup-put_unless (ground arith)

-- What the validator returns it refuses when it is given it again: the result always has both
-- maxPacketLifeTime and maxRetransmits.
pub validate_again :
    (j w : Json)
    → validate_sctp_stream_parameters j ≡ ok w
    → validate_sctp_stream_parameters w
      ≡ err (type_error "cannot provide both maxPacketLifeTime and maxRetransmits")
validate_again j w h =
    let a = validate-Accepted j w h in rw a.result (filled_again a.params a.accepted)
