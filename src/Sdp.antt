-- ===== src/Sdp.antt =====
-- src/sdp: the SDP of the remote side that the handlers keep.
pub mod Answer
pub mod MediaSection
pub mod Offer
pub mod RemoteSdp
pub mod Section
pub mod Simulcast
pub mod Utils
