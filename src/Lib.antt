-- ===== src/Lib.antt =====
-- Verification of SIPBridge, the signalling core of a bridge between SIP lines.
--
-- The program answers SIP requests over UDP. An inbound INVITE is routed to a bridge, a conference
-- group, a HOOT group or the IVR; the first three ring a list of endpoints, and the first to answer
-- wins. Calls that are up stand in rooms, are recorded over SIPREC, and count against a limit.
--
-- Files and the code they are about:
--   Text, Maps, Prelude: Go's strings (as lists of bytes), maps (as association lists) and
--   integers.
--   Config: the records of internal/config/appconfig.go; Config.Cluster: the admission limits of
--   cluster_spec.go. Entries, Servers, Database and Recording: the validators of appconfig.go,
--   database_spec.go and recording_spec.go, the choice of a recorder and the links of endpoints.
--   Manager: the live configuration and the ways to replace it (manager.go, LoadAppConfig).
--   Api.Users: the handlers of internal/api/users.go, which share the array of users with the live
--   configuration. Api.Auth: sessions, roles, logins and the middleware of internal/api/auth.go
--   with the records of internal/config/auth_spec.go.
--   Media: mu-law samples (internal/capture/g711.go, linearToMuLaw of internal/sip/rtp.go) and the
--   digits of RTP telephone events (decodeTelephoneEvent).
--   Sip.Message, Sip.Address, Sip.Identity, Sip.Router: message.go, address.go, the lookups of
--   siprec_ctrl.go and region_ring.go, and router.go, all in internal/sip.
--   Sip.Ring: whom an INVITE rings and in which order (conference_ard.go, region_ring.go, and the
--   target switch of Start in server.go).
--   Sip.Sdp: offers, destinations and answers (sdp.go). Sip.Framing: messages cut from a stream
--   (framing.go).
--   Sip.Server: the state under sessionMu, with the heap of legs that the maps share. Its children:
--   Keys (dialog keys and recording keys), Bridges (bridgeCalls), Siprec (recordings), Fanout
--   (handleResponse for ringing legs, cancelLosers, cleanupSession, enforceRingTimeout), Conference
--   (fanouts of the IVR), Teardown (handleInboundBye, handleInboundCancel, DropBridgeCall and
--   handleResponse as a whole), Capacity (tryRejectInviteForCapacity), Invite (the INVITE case of
--   Start), Ivr (handleInboundInfo, handleIVRDigitLocked, ivrAuthorizeAndResolveTarget and
--   ivrStartConferenceGroupFanout), Run (sequences of events).
--
-- A handler is one step: it takes the state to a new state and the list of what it sends. What the
-- operating system decides (the clock, sockets, whether an outbound INVITE could be sent) is an
-- argument. Interleavings are orders of whole handlers. The code releases its lock inside some of
-- them; the one place where a session is then found unmarked, after a 480, is two steps, with any
-- other handlers in between (Run.failed_cleanup). The other handlers that send a final answer mark
-- the session as terminated before they let go of the lock. What else happens while a handler is
-- without the lock is not modelled. Goroutines that a handler leaves behind are effects. The header
-- loop of the parser runs on fuel, one more than the length of the text. Go's int is an unbounded
-- integer but for the soft threshold of Config.Cluster, where the product can leave 64 bits. Bytes
-- above 127 are not given a meaning by case folding and trimming, as for texts in ASCII.
--
-- What other packages do is an argument with named laws: the YAML and JSON libraries, the schema
-- and the hash (Config.Manager.Formats), URLs, IP addresses, LDAP, random tokens and PINs. The
-- stream reader's header loop runs on fuel, one more than the length of what has arrived.
--
-- Not modelled: re-INVITEs within a dialog, RTP packets and the relays with the capture
-- file that a conference relay opens, the bytes of the requests and responses sent, the other handlers of the HTTP API, capture files, IPTV, logging and the
-- programs' wiring.
mod Prelude
pub mod Text
pub mod Maps
pub mod Api
pub mod Config
pub mod Media
pub mod Sip
mod Tests
