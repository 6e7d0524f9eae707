-- ===== src/Lib.antt =====
-- A model of libmediasoupclient, the C++ client of the mediasoup SFU, and what holds of it.
--
-- A Device (src/Device.cpp) negotiates with a mediasoup router: the ORTC functions of src/ortc.cpp
-- validate what either side says of itself (RTP capabilities and parameters, SCTP, ICE and DTLS
-- parameters), and compute from it the extended capabilities, the capabilities for receiving, and
-- the parameters for sending. The device makes transports (src/Transport.cpp), which own producers
-- and consumers (src/Producer.cpp, src/Consumer.cpp, src/DataProducer.cpp, src/DataConsumer.cpp). The
-- handlers of src/Handler.cpp bring the parameters to a WebRTC peer connection as SDP; the SDP of the
-- remote side is the object of src/sdp/RemoteSdp.cpp, made of the media sections of
-- src/sdp/MediaSection.cpp.
--
-- Which file models what:
--   Prelude: tests, lists, and results of code that may throw. An exception is a value of
--     `Error`; `undefined` stands for a read that C++ leaves undefined, such as `operator[]` of a
--     constant JSON value at a missing key, and `json_error` for an exception of the JSON library.
--     Prelude/Action has code that may throw and has assigned members before.
--   Json: JSON values. An object has its fields in the order of their keys; a floating-point
--     number stands as the bits of its double. `lookup`, `insert` and `remove` are `find`, `j[k] =
--     v` and `erase`; get_uint8, get_int32 and json_eq are `get<uint8_t>`, `get<int32_t>` and `==`.
--   Index: maps from texts to numbers, for the index of media sections by MID, and for the maps of
--     a transport from ids to objects.
--   Ortc: src/ortc.cpp, in the order of the file. Ortc/RtpCapabilities, Ortc/RtpParameters,
--     Ortc/Sctp, Ortc/Ice, Ortc/Dtls and Ortc/CodecOptions have the validators, Ortc/Rtp what the
--     validators of codecs share, and Ortc/MimeType the regular expressions. Ortc/Matching has the
--     private helpers at the end of the file, Ortc/Extended getExtendedRtpCapabilities,
--     Ortc/Receiving and Ortc/Sending what is computed from the extended capabilities. A validator
--     that changes its argument in place returns the changed value.
--   Sdp: Sdp/MediaSection has the methods of src/sdp/MediaSection.cpp, Sdp/Offer and Sdp/Answer the
--     constructors of the two kinds of sections, and Sdp/Section what these share. Sdp/RemoteSdp is
--     the class of src/sdp/RemoteSdp.cpp, with one function for each method; in it a new section is
--     an argument, and Sdp/RemoteSdp/Offers and Sdp/RemoteSdp/Answers make it first.
--     Sdp/RemoteSdp/Reachable has the calls as steps between states. Sdp/Utils has three functions of
--     src/sdp/Utils.cpp, with split of include/Utils.hpp, and Sdp/Simulcast has addLegacySimulcast,
--     with join of the same file.
--   Device: src/Device.cpp. Device/Transports has CreateSendTransport and CreateRecvTransport with
--     the constructors of the transports.
--   Session: Session/Registry has the objects that a transport has made and its map of those that it
--     owns, a pointer being the position of its object; Close and TransportClosed are the same for
--     all four kinds of objects. Session/SendTransport and Session/RecvTransport are the classes of
--     src/Transport.cpp; their Life has the calls as steps between states. Session/Producing has the
--     other methods of src/Producer.cpp and src/Consumer.cpp, and the encodings that
--     SendHandler::SetMaxSpatialLayer of src/Handler.cpp edits.
--   DataChannel: the limits in SendTransport::ProduceData of src/Transport.cpp and the stream
--     parameters and ids of SendHandler::SendDataChannel of src/Handler.cpp.
--   ScalabilityMode: src/scalabilityMode.cpp, with its regular expression.
--
-- Parameters of the models: the functions of webrtc::H264 (the record H264 of Ortc/Matching), the
-- native RTP capabilities that come from an offer of WebRTC, what Send and Receive of the handlers
-- answer (Send with the encodings that it is given), what creating a data channel and negotiating the
-- first one do, what the listeners of the application answer, the tracks of WebRTC (the record Tracks of Session/Producing), the default of `ordered` of a data
-- channel, the text of a floating-point number, std::stoull, and the value of the flag that the
-- constructor of DataProducer does not set.
--
-- Bounds: every loop runs over a list or the fields of an object, so all functions are total
-- without fuel but one: decimal digits are written with fuel 20, which is enough for the numbers
-- of up to 64 bits that the code writes. `get<uint8_t>` is taken modulo 256, `get<int32_t>` wraps
-- at 32 bits, the SDP session version is a number modulo 2 ^ 32, and SCTP stream ids are modulo
-- 1024.
--
-- What is not modelled: the changes that a validator has already made to its argument when it
-- throws; the null that `operator[]` of a value that is not constant puts in at a missing key, if
-- nothing later sees it; the comparison of an integer with a floating-point number; RTCP feedback
-- of the extended capabilities that is no array; the size limit of SCTP messages, which nothing
-- reads; an exception of StopSending or StopReceiving. The maps of a transport have no order in the
-- code: here they have that of insertion, and no theorem depends on it. The constant fields
-- of the SDP object and its text, extractRtpCapabilities and applyCodecParameters of
-- src/sdp/Utils.cpp, the transceivers of the handlers, the peer connection, and the calls that a
-- transport only hands on to its handler are left out.
pub mod Prelude
pub mod Json
pub mod Ortc
pub mod Sdp
pub mod DataChannel
pub mod Device
pub mod Index
pub mod ScalabilityMode
pub mod Session
