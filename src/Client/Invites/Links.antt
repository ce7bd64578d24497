-- ===== src/Client/Invites/Links.antt =====
-- A link that was built is parsed to what it was built from.
use e2eanon.Prelude.{
  ℕ, suc, ◌≡◌, ◌≢◌, refl, ap, sym, ◌∙◌, [], ◌∷◌, ◌++◌, All, Option, some, Text, drop, lookup, ok,
  >>=-eq-ok, ok-injective, arith, length, text_eq,
}
use e2eanon.Crypto.Envelope.{codes}
use e2eanon.Client.State.{Invite}
use e2eanon.Client.Invites.{Web, index_of, both, after_index, build_invite_link, parse_invite}

-- Neither of the characters that structure a query.
abbrev pub IsPlain : ℕ → Type 0
IsPlain ch = (ch ≢ b'#') × (ch ≢ b'&') × (ch ≢ b'=') × (ch ≢ b'?') × (ch ≢ b'+') × (ch ≢ b'%')

abbrev pub IsField : ℕ → Type 0
IsField ch = ch ≢ b'&'

-- What the web platform documents. The address of a page without its fragment has no `#`. An encoded
-- component has none of `#`, `&`, `=`. A query is cut at each `&`, and an entry at its first `=`; a
-- leading `?` counts only at the start of the whole. A component that was encoded is decoded again.
pub record WebLaws (web : Web) : Type 0 where
  pub address_has_no_fragment : All (λ ch. ch ≢ b'#') web.address
  pub encode_uri_component-All :
      (t u : Text)
      → web.encode_uri_component t ≡ ok u
      → All (λ ch. (ch ≢ b'#') × (ch ≢ b'&') × (ch ≢ b'=')) u
  pub search_params_cut :
      (s : Text) (x : ℕ) (t : Text)
      → All IsField s
      → x ≢ b'?'
      → web.search_params (s ++ b'&' ∷ x ∷ t) ≡ web.search_params s ++ web.search_params (x ∷ t)
  pub search_params_entry :
      (name : ℕ) (t u : Text)
      → IsPlain name
      → web.encode_uri_component t ≡ ok u
      → web.search_params (name ∷ b'=' ∷ u) ≡ (name ∷ [], t) ∷ []

index_of-append :
    (ch : ℕ) (s t : Text) → All (λ x. x ≢ ch) s → index_of ch (s ++ ch ∷ t) ≡ some (length s)
unfolding index_of
index_of-append ch [] t h = ground arith
index_of-append ch (x ∷ s) t (p, h) = ground (arith, index_of-append ch s t h)

drop_past : (s t : Text) (ch : ℕ) → drop (suc (length s)) (s ++ ch ∷ t) ≡ t
drop_past [] t ch = refl
drop_past (x ∷ s) t ch = drop_past s t ch

both_sound :
    (t c : Option Text) (invite : Invite)
    → both t c ≡ some invite
    → (invite.token ≢ []) × (invite.code ≢ [])
both_sound (some (x ∷ t)) (some (y ∷ c)) invite e = (λ n. cc, λ n. cc)
both_sound _ _ invite e = cc

module _ (web : Web) (laws : WebLaws web) where
  fragment :
      (t : Text)
      → after_index (web.address ++ b'#' ∷ t) (index_of b'#' (web.address ++ b'#' ∷ t)) ≡ t
  fragment t =
      ap (after_index (web.address ++ b'#' ∷ t))
        (index_of-append b'#' web.address t laws.address_has_no_fragment)
      ∙ drop_past web.address t b'#'

  IsField-All : (u : Text) → All (λ ch. (ch ≢ b'#') × (ch ≢ b'&') × (ch ≢ b'=')) u → All IsField u
  IsField-All [] h = tt
  IsField-All (x ∷ u) (p, h) = (p.1, IsField-All u h)

  query :
      (token code t c : Text)
      → web.encode_uri_component token ≡ ok t
      → web.encode_uri_component code ≡ ok c
      → web.search_params (codes "t=" ++ (t ++ (codes "&c=" ++ c)))
        ≡ (codes "t", token) ∷ (codes "c", code) ∷ []
  query token code t c et ec =
      let plain : All IsField (b't' ∷ b'=' ∷ t) =
        (omega arith, (omega arith, IsField-All t (laws.encode_uri_component-All token t et))) in
      laws.search_params_cut (b't' ∷ b'=' ∷ t) b'c' (b'=' ∷ c) plain (omega arith)
      ∙ ap (λ q. q ++ web.search_params (b'c' ∷ b'=' ∷ c))
          (laws.search_params_entry b't' token t (omega arith) et)
      ∙ ap (λ q. (codes "t", token) ∷ q) (laws.search_params_entry b'c' code c (omega arith) ec)

  -- Whoever opens a link that was built from a token and a code, both not empty, has that token and
  -- that code.
  pub parse_invite-build_invite_link :
      (invite : Invite) (link : Text)
      → invite.token ≢ []
      → invite.code ≢ []
      → build_invite_link web invite.token invite.code ≡ ok link
      → parse_invite web link ≡ some invite
  unfolding build_invite_link parse_invite text_eq
  parse_invite-build_invite_link invite link nt nc built =
      let (t, et, rest) = >>=-eq-ok (web.encode_uri_component invite.token) _ built in
      let (c, ec, made) = >>=-eq-ok (web.encode_uri_component invite.code) _ rest in
      let params = query invite.token invite.code t c et ec in
      let cut = fragment (codes "t=" ++ (t ++ (codes "&c=" ++ c))) in
      ap
        (λ l.
          both (lookup (codes "t") (web.search_params (after_index l (index_of b'#' l))))
            (lookup (codes "c") (web.search_params (after_index l (index_of b'#' l)))))
        (sym (ok-injective made))
      ∙ ap
          (λ f.
            both (lookup (codes "t") (web.search_params f))
              (lookup (codes "c") (web.search_params f)))
          cut
      ∙ ap (λ q. both (lookup (codes "t") q) (lookup (codes "c") q)) params
      ∙ found invite.token invite.code nt nc
    where
      found :
          (token code : Text)
          → token ≢ []
          → code ≢ []
          → both
              (lookup (codes "t") ((codes "t", token) ∷ (codes "c", code) ∷ []))
              (lookup (codes "c") ((codes "t", token) ∷ (codes "c", code) ∷ []))
            ≡ some (record { token = token; code = code })
      found [] code nt nc = absurd (nt refl)
      found (x ∷ token) [] nt nc = absurd (nc refl)
      found (x ∷ token) (y ∷ code) nt nc = refl

  -- What is taken for an invite has a token and a code.
  pub parse_invite_sound :
      (input : Text) (invite : Invite)
      → parse_invite web input ≡ some invite
      → (invite.token ≢ []) × (invite.code ≢ [])
  unfolding parse_invite
  parse_invite_sound input invite e =
      let params = web.search_params (after_index input (index_of b'#' input)) in
      both_sound (lookup (codes "t") params) (lookup (codes "c") params) invite e
