-- ===== src/Spake2/Exchange/Transcript.antt =====
-- The transcript binds every value that enters it.
use e2eanon.Prelude.{ℕ, ◌<◌, ◌^◌, ◌≡◌, ap, sym, ◌∙◌, length, arith}
use e2eanon.Crypto.Base64url.{Bytes}
use e2eanon.Spake2.Bytes.{big_to_bytes_be, bytes_to_big_be}
use e2eanon.Spake2.Bytes.Concat.{concat_lem, lv-append-injective}
use e2eanon.Spake2.Bytes.Numbers.{bytes_to_big_be-big_to_bytes_be}
use e2eanon.Spake2.Exchange.{Spake2State, scalar_bytes, by_role, transcript_of}

abbrev pub IsShort : Bytes → Type 0
IsShort b = length b < 256 ^ 8

-- What enters a transcript, besides the password scalar: both identities, both messages in the
-- order of their senders, and the shared element.
pub record AreShort (s : Spake2State) (peer k : Bytes) : Type 0 where
  pub short_a : IsShort s.id_a
  pub short_b : IsShort s.id_b
  pub short_own : IsShort s.own
  pub short_peer : IsShort peer
  pub short_k : IsShort k

pub record Binds (s t : Spake2State) (peer_s peer_t k l : Bytes) : Type 0 where
  pub same_id_a : s.id_a ≡ t.id_a
  pub same_id_b : s.id_b ≡ t.id_b
  pub same_first : by_role s.role s.own peer_s ≡ by_role t.role t.own peer_t
  pub same_second : by_role s.role peer_s s.own ≡ by_role t.role peer_t t.own
  pub same_k : k ≡ l
  pub same_w : s.w ≡ t.w

by_role-IsShort :
    {s : Spake2State} {peer k : Bytes}
    → AreShort s peer k
    → IsShort (by_role s.role s.own peer) × IsShort (by_role s.role peer s.own)
by_role-IsShort {s} h = ground arith

w_bytes-IsShort : (w : ℕ) → w < 256 ^ 32 → IsShort (big_to_bytes_be w scalar_bytes)
w_bytes-IsShort w h = omega (arith, (bytes_to_big_be-big_to_bytes_be w scalar_bytes h).1)

w_bytes-injective :
    (v w : ℕ)
    → v < 256 ^ 32
    → w < 256 ^ 32
    → big_to_bytes_be v scalar_bytes ≡ big_to_bytes_be w scalar_bytes
    → v ≡ w
w_bytes-injective v w hv hw e =
    sym (bytes_to_big_be-big_to_bytes_be v scalar_bytes hv).0
    ∙ ap bytes_to_big_be e
    ∙ (bytes_to_big_be-big_to_bytes_be w scalar_bytes hw).0

-- Two transcripts are equal only if both identities, both messages, the shared element and the
-- password scalar are equal, for parts below 2^64 bytes and scalars of 32 bytes.
pub transcript_of-injective :
    (s t : Spake2State) (peer_s peer_t k l : Bytes)
    → AreShort s peer_s k
    → AreShort t peer_t l
    → s.w < 256 ^ 32
    → t.w < 256 ^ 32
    → transcript_of s peer_s k ≡ transcript_of t peer_t l
    → Binds s t peer_s peer_t k l
unfolding transcript_of
transcript_of-injective s t peer_s peer_t k l hs ht ws wt e =
    let (fs, gs) = by_role-IsShort hs in
    let (ft, gt) = by_role-IsShort ht in
    let e0 = sym (concat_lem _) ∙ e ∙ concat_lem _ in
    let (e1, r1) = lv-append-injective s.id_a t.id_a _ _ hs.short_a ht.short_a e0 in
    let (e2, r2) = lv-append-injective s.id_b t.id_b _ _ hs.short_b ht.short_b r1 in
    let (e3, r3) = lv-append-injective _ _ _ _ fs ft r2 in
    let (e4, r4) = lv-append-injective _ _ _ _ gs gt r3 in
    let (e5, r5) = lv-append-injective k l _ _ hs.short_k ht.short_k r4 in
    let (e6, r6) =
      lv-append-injective _ _ _ _ (w_bytes-IsShort s.w ws) (w_bytes-IsShort t.w wt) r5 in
    record {
      same_id_a = e1;
      same_id_b = e2;
      same_first = e3;
      same_second = e4;
      same_k = e5;
      same_w = w_bytes-injective s.w t.w ws wt e6;
    }
