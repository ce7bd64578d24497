-- ===== src/Samples/Links.antt =====
-- Invite links and files' metadata in the forms that the sources make, with their laws. A unit is
-- encoded as that many `A` and a `B`.
use e2eanon.Prelude.{
  ℕ, zero, suc, ◌+◌, ◌==◌, ◌≡◌, ◌≢◌, refl, ap, ap₂, sym, ◌∙◌, List, [], ◌∷◌, ◌++◌, append_assoc,
  append-nil, map, map-append, All, All-append, replicate, Option, none, some, Text, take, drop,
  length, ok, if◌then◌else◌, arith, ok-injective, subst,
}
use e2eanon.Crypto.Envelope.{codes}
use e2eanon.Client.State.{FileMeta}
use e2eanon.Client.Transfer.{MetaJson}
use e2eanon.Client.Invites.{Web}
use e2eanon.Client.Invites.Links.{IsField, WebLaws}

abbrev pub escape : Text → Text
escape [] = []
escape (c ∷ t) = replicate c b'A' ++ b'B' ∷ escape t

abbrev pub unescape : ℕ → Text → Text
unescape k [] = []
unescape k (c ∷ u) =
    let more = unescape (suc k) u in let next = unescape 0 u in if c == b'A' then more else k ∷ next

abbrev IsLetter : ℕ → Type 0
IsLetter ch = (ch ≢ b'#') × (ch ≢ b'&') × (ch ≢ b'=')

replicate-IsLetter : (n : ℕ) → All IsLetter (replicate n b'A')
replicate-IsLetter zero = tt
replicate-IsLetter (suc n) = (omega arith, replicate-IsLetter n)

escape-IsLetter : (t : Text) → All IsLetter (escape t)
escape-IsLetter [] = tt
escape-IsLetter (c ∷ t) =
    All-append IsLetter (replicate c b'A') (b'B' ∷ escape t) (replicate-IsLetter c)
      (omega arith, escape-IsLetter t)

unescape-run :
    (k n : ℕ) (u : Text) → unescape k (replicate n b'A' ++ b'B' ∷ u) ≡ (k + n) ∷ unescape 0 u
unescape-run k zero u = ap (λ x. x ∷ unescape 0 u) (omega arith)
unescape-run k (suc n) u = unescape-run (suc k) n u ∙ ap (λ x. x ∷ unescape 0 u) (omega arith)

unescape-escape : (t : Text) → unescape 0 (escape t) ≡ t
unescape-escape [] = refl
unescape-escape (c ∷ t) =
    unescape-run 0 c (escape t) ∙ ap₂ (λ x u. x ∷ u) (omega arith) (unescape-escape t)

abbrev pub split : Text → Text → List Text
split field [] = field ∷ []
split field (c ∷ s) =
    let next = split [] s in
    let more = split (field ++ c ∷ []) s in if c == b'&' then field ∷ next else more

-- A field is a name of one character, `=` and the escaped value.
abbrev pub entry : Text → Text × Text
entry (name ∷ equals ∷ u) = (name ∷ [], unescape 0 u)
entry _ = ([], [])

split-append :
    (field s t : Text) → All IsField s → split field (s ++ b'&' ∷ t) ≡ split field s ++ split [] t
split-append field [] t h = refl
split-append field (c ∷ s) t (n, h) = ground (arith, split-append (field ++ c ∷ []) s t h)

split_one : (field s : Text) → All IsField s → split field s ≡ (field ++ s) ∷ []
split_one field [] h = ap (λ f. f ∷ []) (sym (append-nil field))
split_one field (c ∷ s) (n, h) =
    let rest = split_one (field ++ c ∷ []) s h ∙ ap (λ f. f ∷ []) (append_assoc field (c ∷ []) s) in
    ground (arith, rest)

abbrev pub links : Web
links = record {
  address = codes "https://r/";
  encode_uri_component = λ t. ok (escape t);
  search_params = λ t. map entry (split [] t);
}

All-IsField : (u : Text) → All IsLetter u → All IsField u
All-IsField [] h = tt
All-IsField (c ∷ u) (p, h) = (p.1, All-IsField u h)

pub links-WebLaws : WebLaws links
links-WebLaws = record {
  address_has_no_fragment = omega arith;
  encode_uri_component-All = λ t u e. subst (All IsLetter) (ok-injective e) (escape-IsLetter t);
  search_params_cut = λ s x t h n.
      ap (map entry) (split-append [] s (x ∷ t) h)
      ∙ map-append entry (split [] s) (split [] (x ∷ t));
  search_params_entry = λ name t u plain e.
      let good : All IsField (name ∷ b'=' ∷ u) = (
        plain.1,
        (omega arith, All-IsField u (subst (All IsLetter) (ok-injective e) (escape-IsLetter t))),
      ) in
      ap (map entry) (split_one [] (name ∷ b'=' ∷ u) good)
      ∙ ap (λ v. (name ∷ [], v) ∷ []) (ap (unescape 0) (sym (ok-injective e)) ∙ unescape-escape t);
}

-- The two numbers, the length of the name, the name and the type.
abbrev pub metas : MetaJson
metas = record {
  stringify = λ m. m.size ∷ m.chunks ∷ length m.name ∷ (m.name ++ m.type);
  parse = read_back;
}
  where
    read_back : Text → Option FileMeta
    read_back (size ∷ chunks ∷ n ∷ t) =
        some (record { name = take n t; type = drop n t; size = size; chunks = chunks })
    read_back _ = none
