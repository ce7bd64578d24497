-- ===== src/Client/Membership/Departed.antt =====
-- The members that a presence message leaves out: the sets of ids in `onPresence` of web/src/main.ts.
use e2eanon.Prelude.{
  member, adjoin, map, ◌++◌, ◌||◌, ◌⊎◌, text_eq, text_eq_iff, Bool-cases, false, ◌≡◌, refl, subst,
  List, [], ◌∷◌, All, true, Text, inl, inr, arith,
}
use e2eanon.Protocol.{MemberInfo}
use e2eanon.Client.Membership.{id_set, to_set, removed_of}

abbrev pub ids_of : List MemberInfo → List Text
ids_of members = map (λ (m : MemberInfo). m.id) members

member-append : (id : Text) (s : List Text) (k : Text) → member id (s ++ k ∷ []) ≡ member id (k ∷ s)
member-append id [] k = refl
member-append id (j ∷ s) k = let rest = member-append id s k in ground arith

member-adjoin : (id k : Text) (s : List Text) → member id (adjoin k s) ≡ member id (k ∷ s)
member-adjoin id k s = elim (Bool-cases (member k s)) [
  | inl there ↦ elim (Bool-cases (text_eq k id)) [
    | inl e ↦ let same : k ≡ id = (text_eq_iff k id).0 e in ground arith
    | inr d ↦ ground arith
  ]
  | inr new ↦ let last = member-append id s k in ground arith
]

member-to_set :
    (id : Text) (s ks : List Text) → member id (to_set s ks) ≡ (member id s || member id ks)
unfolding to_set
member-to_set id s [] = ground arith
member-to_set id s (k ∷ ks) =
    let rest = member-to_set id (adjoin k s) ks in let first = member-adjoin id k s in ground arith

-- The set of the ids holds what the list holds.
pub member-id_set :
    (members : List MemberInfo) (id : Text)
    → member id (id_set members) ≡ member id (ids_of members)
unfolding id_set
member-id_set members id = member-to_set id [] (ids_of members)

-- What holds of the ids that are filtered out holds of every known id that is not current.
pub removed_of-All :
    (P : Text → Type 0) (current known : List Text)
    → All P (removed_of current known)
    → All (λ id. (member id current ≡ true) ⊎ P id) known
unfolding removed_of
removed_of-All P current [] h = tt
removed_of-All P current (id ∷ known) h = elim (Bool-cases (member id current)) [
  | inl there ↦
      let same : removed_of current (id ∷ known) ≡ removed_of current known = ground arith in
      (inl there, removed_of-All P current known (subst (All P) same h))
  | inr missing ↦
      let same : removed_of current (id ∷ known) ≡ id ∷ removed_of current known = ground arith in
      let (here, rest) = subst (All P) same h in (inr here, removed_of-All P current known rest)
]

-- A known id that is not current is filtered out, so something is.
pub removed_of-cons :
    (r : Text) (current known : List Text)
    → member r known ≡ true
    → member r current ≡ false
    → (r' : Text) × (rs : List Text) × (removed_of current known ≡ r' ∷ rs)
unfolding removed_of
removed_of-cons r current [] h off = absurd (ground arith)
removed_of-cons r current (id ∷ known) h off = elim (Bool-cases (member id current)) [
  | inl there ↦ elim (Bool-cases (text_eq id r)) [
    | inl e ↦ let same : id ≡ r = (text_eq_iff id r).0 e in absurd (ground arith)
    | inr d ↦
        let (r', rs, rest) = removed_of-cons r current known (ground arith) off in
        (r', rs, ground arith)
  ]
  | inr missing ↦ (id, removed_of current known, ground arith)
]
