-- ===== src/Client/Handshaking/Records.antt =====
-- What a handshake's callbacks do to a client: its record, its heap, and what it sends.
use e2eanon.Prelude.{
  ℕ, suc, ◌+◌, ◌≡◌, refl, ap, sym, subst, ◌∙◌, List, [], ◌∷◌, ◌++◌, append_assoc, Option, some,
  Text, text_eq_refl, lookup, insert, lookup-insert, length, length-append, arith,
}
use e2eanon.Crypto.Base64url.{Bytes}
use e2eanon.Crypto.Primitives.{Primitives}
use e2eanon.Client.Handshaking.Onward.{
  member_keys_in, AreSealed, Onward, Onward-trans, Onward-intro, handshake_of-insert,
}
use e2eanon.Handshake.{Output, send_pake, confirmed, failed}
use e2eanon.Protocol.{ClientMsg}
use e2eanon.Client.State.{Ref, opened, HsRecord, Session, Client}
use e2eanon.Client.Membership.{update, send}
use e2eanon.Client.Membership.Frames.{Frames}
use e2eanon.Client.Handshaking.{set_record}

-- The secrets among some outputs.
abbrev pub secrets : List Output → List Bytes
secrets [] = []
secrets (send_pake d ∷ os) = secrets os
secrets (confirmed ke ∷ os) = ke ∷ secrets os
secrets (failed ∷ os) = secrets os

-- What the outputs hand to the relay.
abbrev pub payloads : List Output → List Text
payloads [] = []
payloads (send_pake d ∷ os) = d ∷ payloads os
payloads (confirmed ke ∷ os) = payloads os
payloads (failed ∷ os) = payloads os

-- The payloads among the messages that a client has sent.
abbrev pub pakes_in : List ClientMsg → List Text
pakes_in [] = []
pakes_in (ClientMsg.pake id d ∷ ms) = d ∷ pakes_in ms
pakes_in (_ ∷ ms) = pakes_in ms

-- Where the last of them is stored, from the n-th buffer on.
abbrev pub ke_after : ℕ → List Bytes → Option Ref → Option Ref
ke_after n [] ke = ke
ke_after n (b ∷ bs) ke = ke_after (suc n) bs (some n)

abbrev pub Succeeds : Output → Type 0
Succeeds failed = ⊥
Succeeds _ = Unit

-- The client is in a session, its socket open, that has this record for the handshake.
pub record HasRecord (hs_id : Text) (r : HsRecord) (cl : Client) : Type 0 where
  pub now : Session
  pub in_session : cl.session ≡ some now
  pub found : lookup hs_id now.handshakes ≡ some r
  pub up : now.ws ≡ opened

-- What a client has sent and stored after these outputs.
pub record Confirmed (p : Primitives) (random : ℕ → ℕ → Bytes) (hs_id : Text) (r : HsRecord)
    (os : List Output) (cl cl' : Client) : Type 0 where
  pub has : HasRecord hs_id (record r { ke = ke_after (length cl.heap) (secrets os) r.ke }) cl'
  pub stored : cl'.heap ≡ cl.heap ++ secrets os
  pub handed_out : pakes_in cl'.sent ≡ pakes_in cl.sent ++ payloads os
  pub onward : Onward p random hs_id r.joiner_member_id (secrets os) cl cl'

pub HasRecord-Frames :
    {hs_id : Text} {r : HsRecord} (cl cl' : Client)
    → Frames cl cl'
    → HasRecord hs_id r cl
    → HasRecord hs_id r cl'
HasRecord-Frames cl cl' (fs, fh) h = record {
  now = h.now;
  in_session = fs ∙ h.in_session;
  found = h.found;
  up = h.up;
}

pub session-set_record :
    (hs_id : Text) (f : HsRecord → HsRecord) (r : HsRecord) (cl : Client) (h : HasRecord hs_id r cl)
    → (update (set_record hs_id f) cl).session
      ≡ some (record h.now { handshakes = insert hs_id (f r) h.now.handshakes })
session-set_record hs_id f r cl h =
    let s = h.now in
    let known = h.found in
    let e = h.in_session in
    let stored : set_record hs_id f s ≡ record s { handshakes = insert hs_id (f r) s.handshakes } =
      ground arith in
    let moved : (update (set_record hs_id f) cl).session ≡ some (set_record hs_id f s) =
      ground arith in
    moved ∙ ap some stored

pub HasRecord-set :
    (hs_id : Text) (f : HsRecord → HsRecord) (r : HsRecord) (cl : Client)
    → HasRecord hs_id r cl
    → HasRecord hs_id (f r) (update (set_record hs_id f) cl)
HasRecord-set hs_id f r cl h = record {
  now = record h.now { handshakes = insert hs_id (f r) h.now.handshakes };
  in_session = session-set_record hs_id f r cl h;
  found = ground (arith, lookup-insert hs_id hs_id (f r) h.now.handshakes, text_eq_refl hs_id);
  up = h.up;
}

pub update-heap : (f : Session → Session) (cl : Client) → (update f cl).heap ≡ cl.heap
update-heap f cl = ground arith

ke_after-append :
    (n : ℕ) (xs ys : List Bytes) (ke : Option Ref)
    → ke_after n (xs ++ ys) ke ≡ ke_after (n + length xs) ys (ke_after n xs ke)
ke_after-append n [] ys ke = ap (λ m. ke_after m ys ke) (omega arith)
ke_after-append n (b ∷ xs) ys ke =
    ke_after-append (suc n) xs ys (some n)
    ∙ ap (λ m. ke_after m ys (ke_after (suc n) xs (some n))) (omega arith)

secrets-append : (os ps : List Output) → secrets (os ++ ps) ≡ secrets os ++ secrets ps
secrets-append [] ps = refl
secrets-append (send_pake d ∷ os) ps = secrets-append os ps
secrets-append (confirmed ke ∷ os) ps = ap (λ bs. ke ∷ bs) (secrets-append os ps)
secrets-append (failed ∷ os) ps = secrets-append os ps

payloads-append : (os ps : List Output) → payloads (os ++ ps) ≡ payloads os ++ payloads ps
payloads-append [] ps = refl
payloads-append (send_pake d ∷ os) ps = ap (λ ds. d ∷ ds) (payloads-append os ps)
payloads-append (confirmed ke ∷ os) ps = payloads-append os ps
payloads-append (failed ∷ os) ps = payloads-append os ps

pakes_in-append : (ms ns : List ClientMsg) → pakes_in (ms ++ ns) ≡ pakes_in ms ++ pakes_in ns
pakes_in-append [] ns = refl
pakes_in-append (ClientMsg.pake id d ∷ ms) ns = ap (λ ds. d ∷ ds) (pakes_in-append ms ns)
pakes_in-append (_ ∷ ms) ns = pakes_in-append ms ns

-- A message that goes out of an open socket.
pub send-pakes_in :
    (m : ClientMsg) (s : Session) (cl : Client)
    → cl.session ≡ some s
    → s.ws ≡ opened
    → pakes_in (send m cl).sent ≡ pakes_in cl.sent ++ pakes_in (m ∷ [])
unfolding send
send-pakes_in m s cl e up =
    let same : (send m cl).sent ≡ cl.sent ++ m ∷ [] = ground arith in
    ap pakes_in same ∙ pakes_in-append cl.sent (m ∷ [])

pub Confirmed-trans :
    {p : Primitives} {random : ℕ → ℕ → Bytes} {hs_id : Text} {r : HsRecord} (os ps : List Output)
    (a b c : Client) (mid : Session)
    → b.session ≡ some mid
    → Onward p random hs_id r.joiner_member_id (secrets os) a b
    → b.heap ≡ a.heap ++ secrets os
    → pakes_in b.sent ≡ pakes_in a.sent ++ payloads os
    → Confirmed p random hs_id (record r { ke = ke_after (length a.heap) (secrets os) r.ke }) ps b c
    → Confirmed p random hs_id r (os ++ ps) a c
Confirmed-trans {p} {random} {hs_id} {r} os ps a b c mid eb w x z y =
    let xs = secrets os in
    let ys = secrets ps in
    let size : length b.heap ≡ length a.heap + length xs = ap length x ∙ length-append a.heap xs in
    let same =
      ap (λ n. ke_after n ys (ke_after (length a.heap) xs r.ke)) size
      ∙ sym (ke_after-append (length a.heap) xs ys r.ke)
      ∙ ap (λ bs. ke_after (length a.heap) bs r.ke) (sym (secrets-append os ps)) in
    record {
      has = subst (λ ke. HasRecord hs_id (record r { ke = ke }) c) same y.has;
      stored =
          y.stored
          ∙ ap (λ h. h ++ ys) x
          ∙ append_assoc a.heap xs ys
          ∙ ap (λ bs. a.heap ++ bs) (sym (secrets-append os ps));
      handed_out =
          y.handed_out
          ∙ ap (λ d. d ++ payloads ps) z
          ∙ append_assoc (pakes_in a.sent) (payloads os) (payloads ps)
          ∙ ap (λ ds. pakes_in a.sent ++ ds) (sym (payloads-append os ps));
      onward =
          subst (λ kes. Onward p random hs_id r.joiner_member_id kes a c)
            (sym (secrets-append os ps)) (Onward-trans p random a b c mid eb w y.onward);
    }

pub update-sent : (f : Session → Session) (cl : Client) → (update f cl).sent ≡ cl.sent
update-sent f cl = ground arith

-- What is stored in the record leaves the rest of the session alone.
pub Onward-set :
    (p : Primitives) (random : ℕ → ℕ → Bytes) (hs_id : Text) (f : HsRecord → HsRecord)
    (r : HsRecord) (cl cl' : Client) (kes : List Bytes) (envs : List Text)
    (h : HasRecord hs_id r cl)
    → (f r).joiner_member_id ≡ r.joiner_member_id
    → cl'.session ≡ some (record h.now { handshakes = insert hs_id (f r) h.now.handshakes })
    → member_keys_in cl'.sent ≡ member_keys_in cl.sent ++ envs
    → AreSealed p random h.now.public_key kes envs
    → Onward p random hs_id r.joiner_member_id kes cl cl'
Onward-set p random hs_id f r cl cl' kes envs h same_id same out sealed =
    Onward-intro p random cl cl' h.now
      (record h.now { handshakes = insert hs_id (f r) h.now.handshakes }) envs h.in_session same
      (record { same_keys = refl; same_private = refl; same_public = refl })
      (λ id named found.
        handshake_of-insert p random id hs_id r (f r) h.now.handshakes (same_id ∙ named) h.found
          named found)
      out sealed

-- Nor does a message of another kind.
pub Onward-send :
    (p : Primitives) (random : ℕ → ℕ → Bytes) (hs_id : Text) (r : HsRecord) (cl cl' : Client)
    (h : HasRecord hs_id r cl)
    → cl'.session ≡ cl.session
    → member_keys_in cl'.sent ≡ member_keys_in cl.sent ++ []
    → Onward p random hs_id r.joiner_member_id [] cl cl'
Onward-send p random hs_id r cl cl' h same out =
    Onward-intro p random cl cl' h.now h.now [] h.in_session (same ∙ h.in_session)
      (record { same_keys = refl; same_private = refl; same_public = refl })
      (λ id named found. found) out tt
