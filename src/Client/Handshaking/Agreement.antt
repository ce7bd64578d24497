-- ===== src/Client/Handshaking/Agreement.antt =====
-- Two clients that start a handshake from one code end with one secret in their records.
use e2eanon.Prelude.{ℕ, ◌≡◌, ap, sym, subst, ◌∙◌, List, [], ◌∷◌, ◌++◌, All, some, Text, length, ok}
use e2eanon.Crypto.Base64url.{Bytes}
use e2eanon.Crypto.Primitives.{Primitives, Laws}
use e2eanon.Spake2.Suite.{Curve, Hashes, CurveLaws, HashesLaws}
use e2eanon.Handshake.{confirmation, FrameJson, Output, send_pake, confirmed, frame, run}
use e2eanon.Handshake.Completeness.{create-agree}
use e2eanon.Protocol.{ServerMsg}
use e2eanon.Client.State.{Ref, opened, HsRecord, Session, Client, read}
use e2eanon.Client.Keyring.Heap.{read-append_last}
use e2eanon.Client.Handshaking.{owner_record, joiner_record, start_as_owner, start_as_joiner}
use e2eanon.Client.Handshaking.Starting.{start_as_owner-Started, start_as_joiner-Started}
use e2eanon.Client.Handshaking.Records.{
  HasRecord, Confirmed, Succeeds, secrets, payloads, pakes_in, ke_after,
}
use e2eanon.Client.Handshaking.Callbacks.{on_pakes, on_pakes-Confirmed}

-- From one client to the next the relay was handed just this payload, and the record of the
-- handshake now holds this secret.
pub record Ends (hs_id : Text) (before after : Client) (payload : Text) (ke : Bytes) : Type 0 where
  pub handed_out : pakes_in after.sent ≡ pakes_in before.sent ++ payload ∷ []
  pub r : HsRecord
  pub has : HasRecord hs_id r after
  pub k : Ref
  pub holds : r.ke ≡ some k
  pub secret : read after.heap k ≡ ke

Confirmed-Ends :
    {p : Primitives} {random : ℕ → ℕ → Bytes} (hs_id : Text) (r : HsRecord) (os : List Output)
    (cl cl' : Client) (payload : Text) (ke : Bytes)
    → os ≡ send_pake payload ∷ confirmed ke ∷ []
    → Confirmed p random hs_id r os cl cl'
    → Ends hs_id cl cl' payload ke
Confirmed-Ends hs_id r os cl cl' payload ke e h = record {
  handed_out = h.handed_out ∙ ap (λ o. pakes_in cl.sent ++ payloads o) e;
  r = record r { ke = ke_after (length cl.heap) (secrets os) r.ke };
  has = h.has;
  k = length cl.heap;
  holds = ap (λ o. ke_after (length cl.heap) (secrets o) r.ke) e;
  secret =
      ap (λ m. read m (length cl.heap)) (h.stored ∙ ap (λ o. cl.heap ++ secrets o) e)
      ∙ read-append_last cl.heap ke;
}

module _ (p : Primitives) (random : ℕ → ℕ → Bytes) (json : FrameJson) (c : Curve) (h : Hashes) where
  on_pakes-Ends :
      (msg : ServerMsg) (ch : ℕ) (cs : Text) (ds : List Text) (r : HsRecord) (cl : Client)
      (payload : Text) (ke : Bytes)
      → HasRecord (ch ∷ cs) r cl
      → (run p json c h r.hs ds).1 ≡ send_pake payload ∷ confirmed ke ∷ []
      → Ends (ch ∷ cs) cl (on_pakes p random json c h msg ch cs ds cl) payload ke
  on_pakes-Ends msg ch cs ds r cl payload ke has e =
      let good : All Succeeds (run p json c h r.hs ds).1 =
        subst (All Succeeds) (sym e) (tt, (tt, tt)) in
      Confirmed-Ends (ch ∷ cs) _ _ cl (on_pakes p random json c h msg ch cs ds cl) payload ke e
        (on_pakes-Confirmed p random json c h msg ch cs ds r cl has good)

  -- The clients of an owner and a joiner, in sessions with open sockets, start a handshake with one
  -- code and one handshake id, and neither throws. Each sends one payload then. When each gets the
  -- two payloads of the other, in either order, it sends one more, which is the other's second, and
  -- the records of both hold one and the same secret.
  pub on_pakes-agree :
      (laws : Laws p) (curve_laws : CurveLaws c) (hash_laws : HashesLaws h) (msg : ServerMsg)
      (ch : ℕ) (cs code token joiner self : Text) (s t : Session) (owner_cl joiner_cl : Client)
      → owner_cl.session ≡ some s
      → s.ws ≡ opened
      → joiner_cl.session ≡ some t
      → t.ws ≡ opened
      → (start_as_owner p random json c h token code (ch ∷ cs) joiner owner_cl).1 ≡ ok tt
      → (start_as_joiner p random json c h self code (ch ∷ cs) joiner_cl).1 ≡ ok tt
      → let o = (start_as_owner p random json c h token code (ch ∷ cs) joiner owner_cl).0 in
        let j = (start_as_joiner p random json c h self code (ch ∷ cs) joiner_cl).0 in
        let gets = on_pakes p random json c h msg ch cs in
        (a1 : Text) × (a2 : Text) × (b1 : Text) × (b2 : Text) × (ke : Bytes) × (pakes_in o.sent
          ≡ pakes_in owner_cl.sent ++ a1 ∷ [])
        × (pakes_in j.sent ≡ pakes_in joiner_cl.sent ++ b1 ∷ [])
        × Ends (ch ∷ cs) o (gets (b1 ∷ b2 ∷ []) o) a2 ke
        × Ends (ch ∷ cs) o (gets (b2 ∷ b1 ∷ []) o) a2 ke
        × Ends (ch ∷ cs) j (gets (a1 ∷ a2 ∷ []) j) b2 ke
        × Ends (ch ∷ cs) j (gets (a2 ∷ a1 ∷ []) j) b2 ke
  on_pakes-agree laws curve_laws hash_laws msg ch cs code token joiner self s t owner_cl joiner_cl
        es us et ut fs ft =
      let hs_id = ch ∷ cs in
      let a =
        start_as_owner-Started p random json c h token code hs_id joiner s owner_cl es us fs in
      let b = start_as_joiner-Started p random json c h self code hs_id t joiner_cl et ut ft in
      let (ra, rb, same_ke, oa, oa', ob, ob') =
        create-agree p laws json c curve_laws h hash_laws code hs_id a.bytes b.bytes a.hs b.hs
          a.payload b.payload a.made b.made in
      let o = (start_as_owner p random json c h token code hs_id joiner owner_cl).0 in
      let j = (start_as_joiner p random json c h self code hs_id joiner_cl).0 in
      let a2 = frame p json confirmation ra.confirm in
      let b2 = frame p json confirmation rb.confirm in
      let ends_j =
        λ (ds : List Text) (e : (run p json c h b.hs ds).1 ≡ send_pake b2 ∷ confirmed rb.ke ∷ []).
          subst (Ends hs_id j (on_pakes p random json c h msg ch cs ds j) b2) (sym same_ke)
            (on_pakes-Ends msg ch cs ds (joiner_record b.hs) j b2 rb.ke b.begun.has e) in
      (
        a.payload,
        a2,
        b.payload,
        b2,
        ra.ke,
        a.begun.handed_out,
        b.begun.handed_out,
        on_pakes-Ends msg ch cs (b.payload ∷ b2 ∷ []) (owner_record a.hs joiner) o a2 ra.ke
            a.begun.has oa,
        on_pakes-Ends msg ch cs (b2 ∷ b.payload ∷ []) (owner_record a.hs joiner) o a2 ra.ke
            a.begun.has oa',
        ends_j (a.payload ∷ a2 ∷ []) ob,
        ends_j (a2 ∷ a.payload ∷ []) ob',
      )
