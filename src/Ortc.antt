-- ===== src/Ortc.antt =====
-- src/ortc.cpp: validation and negotiation of RTP, SCTP, ICE and DTLS parameters.
pub mod Checks
pub mod MimeType
pub mod Rtp
pub mod RtpCapabilities
pub mod RtpParameters
pub mod Samples
pub mod Sctp
pub mod Ice
pub mod Dtls
pub mod CodecOptions
pub mod Objects
pub mod Sending
pub mod Matching
pub mod Extended
pub mod Receiving
