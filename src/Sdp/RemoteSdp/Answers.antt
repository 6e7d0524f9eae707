-- ===== src/Sdp/RemoteSdp/Answers.antt =====
-- CreateAnswer and SendSctpAssociation of src/sdp/RemoteSdp.cpp, with the sections that they make.
use libmediasoupclient.Prelude.{ℕ, String, Option, none}
use libmediasoupclient.Prelude.Result.{Result, ok, ◌>>=◌}
use libmediasoupclient.Json.{Json, null, object, Items}
use libmediasoupclient.Sdp.Answer.{AnswerArguments, answer_media_section}
use libmediasoupclient.Sdp.RemoteSdp.{RemoteSdp, add_media_section, create_answer}

-- What the description keeps from its construction and does not change.
pub record Fixed : Type 0 where
  pub ice_candidates : Items
  pub sctp_parameters : Json

abbrev pub answer_arguments : Fixed → RemoteSdp → Json → Json → Json → Option Json → AnswerArguments
answer_arguments fixed s offer_media_object offer_parameters answer_parameters options = record {
  ice_parameters = s.ice_parameters;
  ice_candidates = fixed.ice_candidates;
  dtls_parameters = object s.dtls_parameters;
  sctp_parameters = fixed.sctp_parameters;
  offer_media_object = offer_media_object;
  offer_rtp_parameters = offer_parameters;
  answer_rtp_parameters = answer_parameters;
  codec_options = options;
}

-- CreateAnswer from its arguments, with the codecs of the offer's parameters as it leaves them.
unfoldable pub create_answer_for :
    (ℕ → String)
    → Fixed
    → Json
    → String
    → Json
    → Json
    → Option Json
    → RemoteSdp
    → Result (RemoteSdp × Items)
create_answer_for float_text fixed offer_media_object reuse_mid offer_parameters answer_parameters
      options s =
    do
      made ←
          answer_media_section float_text
            (answer_arguments fixed s offer_media_object offer_parameters answer_parameters options)
      t ← create_answer made.0 reuse_mid s
      ok (t, made.1)

-- SendSctpAssociation
unfoldable pub send_sctp_association : (ℕ → String) → Fixed → Json → RemoteSdp → Result RemoteSdp
send_sctp_association float_text fixed offer_media_object s = do
  made ←
      answer_media_section float_text (answer_arguments fixed s offer_media_object null null none)
  add_media_section made.0 s
