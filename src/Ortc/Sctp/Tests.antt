-- ===== src/Ortc/Sctp/Tests.antt =====
-- Runs of validateSctpStreamParameters of src/ortc.cpp.
use libmediasoupclient.Prelude.{false, not, [], ◌∷◌, ◌≡◌, ◌&&◌, ◌||◌, refl}
use libmediasoupclient.Prelude.Result.{ok, err, type_error}
use libmediasoupclient.Json.{boolean, is_boolean, string, unsigned, object, Fields, lookup, insert}
use libmediasoupclient.Ortc.Checks.{IsObject, holds, is_true, put_unless}
use libmediasoupclient.Ortc.Objects.{build}
use libmediasoupclient.Ortc.Sctp.{validate_sctp_stream_parameters}
use libmediasoupclient.Ortc.Sctp.Streams.{
  IsStreamParameters, is_ok, is_accepted, is_limited, is_ordered, is_ok-validate,
  validate-IsStreamParameters, validate_ordered, validate_again,
}

abbrev given : Fields
given = build (("streamId", unsigned 3) ∷ ("maxRetransmits", unsigned 2) ∷ [])

abbrev filled : Fields
filled = build (
    ("streamId", unsigned 3)
    ∷ ("ordered", boolean false)
    ∷ ("maxPacketLifeTime", unsigned 0)
    ∷ ("maxRetransmits", unsigned 2)
    ∷ ("label", string "")
    ∷ ("protocol", string "")
    ∷ [])

run : validate_sctp_stream_parameters (object given) ≡ ok (object filled)
unfolding validate_sctp_stream_parameters lookup insert put_unless
run = refl

is_ok-validate_example : is_ok (validate_sctp_stream_parameters (object given)) ≡ is_accepted given
is_ok-validate_example = is_ok-validate given

validate-IsStreamParameters_example : IsObject IsStreamParameters (object filled)
validate-IsStreamParameters_example = validate-IsStreamParameters (object given) (object filled) run

validate_ordered_example :
    is_true (lookup "ordered" filled)
    ≡ not (is_limited given)
      && (not (holds is_boolean (lookup "ordered" given)) || is_ordered given)
validate_ordered_example = validate_ordered given filled run

validate_again_example :
    validate_sctp_stream_parameters (object filled)
    ≡ err (type_error "cannot provide both maxPacketLifeTime and maxRetransmits")
validate_again_example = validate_again (object given) (object filled) run
