-- ===== src/Client/Invites.antt =====
-- The invite's code and its link: `generateCode`, `buildInviteLink` and `parseInvite` of
-- web/src/main.ts.
pub mod Codes
pub mod Links
use e2eanon.Prelude.{
  ℕ, suc, ◌%◌, ◌==◌, List, [], ◌∷◌, ◌++◌, Bool, Option, none, some, Text, get_elem?, length, drop,
  lookup, Result, ok, err, ◌>>=◌, if◌then◌else◌,
}
use e2eanon.Crypto.Base64url.{Bytes}
use e2eanon.Crypto.Envelope.{codes}
use e2eanon.Client.State.{Invite}

abbrev pub alphabet : Text
alphabet = codes "ABCDEFGHJKLMNPQRSTUVWXYZ23456789"

abbrev pub code_len : ℕ
code_len = 10

-- `out += alphabet[i]`; beyond its end the alphabet has "undefined".
abbrev pub char_text : Option ℕ → Text
char_text none = codes "undefined"
char_text (some ch) = ch ∷ []

unfoldable pub code_from : Text → Bytes → Text
code_from out [] = out
code_from out (b ∷ bytes) =
    code_from (out ++ char_text (get_elem? alphabet (b % length alphabet))) bytes

-- Over the ten bytes that were drawn.
unfoldable pub generate_code : Bytes → Text
unfolding code_from
generate_code bytes = code_from [] bytes

-- What the browser lends: the page's address without its fragment, `encodeURIComponent`, which
-- throws at a surrogate that is alone, and the entries of `new URLSearchParams(text)` in order.
pub record Web : Type 0 where
  pub address : Text
  pub encode_uri_component : Text → Result Text
  pub search_params : Text → List (Text × Text)

-- `input.indexOf("#")`, where -1 is `none`.
unfoldable pub index_of : ℕ → Text → Option ℕ
index_of ch [] = none
index_of ch (x ∷ s) =
    let rest = index_of ch s in
    if x == ch then some 0 else elim rest [ none ↦ none | some i ↦ some (suc i) ]

-- `token && code ? { token, code } : null`.
abbrev pub both : Option Text → Option Text → Option Invite
both (some (t ∷ ts)) (some (c ∷ cs)) = some (record { token = t ∷ ts; code = c ∷ cs })
both _ _ = none

abbrev pub after_index : Text → Option ℕ → Text
after_index input none = input
after_index input (some i) = drop (suc i) input

module _ (web : Web) where
  unfoldable pub build_invite_link : Text → Text → Result Text
  build_invite_link token code = do
    t ← web.encode_uri_component token
    c ← web.encode_uri_component code
    ok (web.address ++ (codes "#t=" ++ (t ++ (codes "&c=" ++ c))))

  unfoldable pub parse_invite : Text → Option Invite
  unfolding index_of
  parse_invite input =
      let params = web.search_params (after_index input (index_of b'#' input)) in
      both (lookup (codes "t") params) (lookup (codes "c") params)
