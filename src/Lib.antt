-- ===== src/Lib.antt =====
-- AnonChat's browser client: end-to-end encrypted rooms over a relay that is not trusted.
--
-- The parts, and how they interact
--
-- A room has an owner and members. The owner hands out an invite, a token and a short code; owner
-- and joiner run SPAKE2 on the code through the relay (web/src/spake2.ts, driven by the class of
-- web/src/handshake.ts), send each other their X25519 public keys sealed under the secret that
-- comes out, and the owner seals a new room key to the joiner and to each other member
-- (web/src/crypto.ts). Whenever somebody joins or leaves the owner rotates the room key. All of
-- this is driven by the message handlers of web/src/main.ts on the messages of web/src/protocol.ts.
--
-- - Prelude: the names that are shared, with results and errors, association lists, 16-bit texts.
-- - Crypto/Base64url: b64ToB64url, b64urlToB64 of web/src/crypto.ts.
-- - Crypto/Primitives: what the code calls and does not contain (btoa, atob, TextEncoder,
--   TextDecoder, XChaCha20-Poly1305, HKDF, X25519), as a record of operations and one of laws.
-- - Crypto/Envelope: sealBytes, openBytes, encryptMessage, decryptMessage, keyToString,
--   keyFromString, keyId and the base64 loops of web/src/crypto.ts; Crypto/Envelope/Laws on them.
-- - Crypto/KeyExchange: generateKeyPair, sealUnderKe, openUnderKe, pairKey, sealRoomKey,
--   openRoomKey of web/src/crypto.ts; Crypto/KeyExchange/Laws on them.
-- - Spake2/Bytes: lv, concat, bytesToBigBE, bigToBytesBE, timingSafeEqual of web/src/spake2.ts,
--   with Compare, Numbers and Concat on them.
-- - Spake2/Suite: the group and the hashes as records of operations and laws.
-- - Spake2/Exchange: start, finish, deriveW, mul, randomScalar of web/src/spake2.ts. Bounds,
--   Scalars, Flow, Agreement and Transcript are about it.
-- - Handshake: the class HandshakeSession of web/src/handshake.ts. A call returns the new
--   session, the callbacks that it has made in order, and what it has thrown, if anything. Cases,
--   Verdicts, Soundness and Completeness are about it.
-- - Protocol: the messages of web/src/protocol.ts.
-- - Client/State: the variables and records of web/src/main.ts.
-- - Client/Keyring: pushKey, decryptAny, findKeyById; Heap, Lifetime, Rotations, Reading and
--   Window, the abstract view of the keys.
-- - Client/Membership: onPresence, rekeyMember, rotateForJoin, onRekey, broadcastRoster,
--   applyRoster; Sending, Recipients, Frames, Departed, Rotation, Contents,
--   News, Delivery and Admission.
-- - Client/Lifecycle: onWelcome, teardown, onClose; Wiping.
-- - Client/Invites: generateCode, buildInviteLink, parseInvite; Codes and Links.
-- - Client/Handshaking: onInviteCreated, onInviteRedeemed, onRedeemOk, the pake case of onMessage
--   and the callbacks of a handshake; Onward, Records, Callbacks, Starting, Agreement, and, for a
--   whole join of two clients, Meeting, LastMessages and Entry.
-- - Client/Joining: onMemberKey, onKeyDeliver, finishJoin; Order, Entering, Admitting and Delivering.
-- - Client/Transfer: onFileStart, onFileChunk, onFileEnd, finishIncoming; Counting. The index of a chunk
--   is any number, and one that is not whole is the key of a property beside the parts.
-- - Client/Upload: randomId, sendFile; Slices, Sent, Received, Delivered and RoundTrip. What may
--   happen at an await of sendFile is a function from the number of the await to what it does to
--   the client.
-- - Client/Connecting: closeCurrentSession, connect, the socket's listeners, handleError,
--   closeReason, doLeave, recoverIfSocketDead, the forms of the lobby and their first messages; Joins.
-- - Client/Dispatch: onMessage, the form for messages, the members' buttons, and the events of a
--   client one after another. Chat is about messages; Invariant, Members, Handshakes, Callbacks,
--   Files and Events are about what every event keeps.
-- - Page/Element: what document.createElement makes. Page/Sizes: formatBytes, and Reading on it.
-- - Page/Members: renderMembers, badge, actionBtn and the listener of the members' list; Buttons.
-- - Page/Attachments: onFileSelected, renderStaged, clearStaged, trackUrl and the other places that
--   create or revoke an object URL; Steps says what may happen, Held and Safety are about it.
-- - Page/Messages: addMessage, startFileMessage, setFileProgress, finishFileMessage and
--   failFileMessage, and what connect and teardown do to the chat; Settled, Linked, Cleared and
--   Shown.
-- - Page/Leaving: openModal, closeModal, onLeaveClicked; Choices.
-- - Page/Lobby: SESSION_ID, pollStats, showLobby, bootstrapFromHash, the button that copies the link,
--   and wsURL of web/src/protocol.ts; Address and Ids.
-- - Samples, Client/Scenarios, Client/Arrivals, Client/Exchanges, Client/Meetings, Client/Runs
--   and the modules
--   called Tests: stand-ins for the parameters that satisfy the laws, and runs at concrete
--   inputs.
--
-- Conventions
--
-- A byte and a UTF-16 code unit are natural numbers, with the bound as a predicate where it matters.
-- A thrown error is the error case of a result; a handler that throws on the way keeps the state
-- that it has reached. Random bytes are arguments, or drawn from a stream in the order of the calls.
-- A key is a buffer that several places may hold and that is wiped in place, so it is an index into
-- a heap. Public keys are plain values, so the overwriting of firstOwnerPub in teardown is left out.
-- Two clients may draw from one stream, each from its own place on. The loops are structural
-- recursions over what they walk along; fuel is only used for the decimal digits of a number n, where
-- n rounds and one more are enough.
-- Cryptographic strength is no subject here; the laws say what the primitives compute.
--
-- Not modelled: in web/src/main.ts focus, scrolling, timers and the rounding of a bar's percentage,
-- which is an argument; the static page (web/index.html, web/src/style.css), which has no behaviour;
-- and the relay under server, which is a program of its own in Go.
mod Prelude
mod Samples
pub mod Crypto
pub mod Spake2
pub mod Handshake
pub mod Protocol
pub mod Client
pub mod Page
