-- ===== src/Client/Transfer/Counting.antt =====
-- The count of received parts in web/src/main.ts, and the parts that are there.
use e2eanon.Prelude.{
  ℕ, zero, suc, ◌+◌, ◌≤◌, ◌<◌, ltb, ltb→lt, ◌==◌, ◌≡◌, refl, ap, sym, subst, ◌∙◌, List, [], ◌∷◌,
  ◌++◌, All, All-append, false, Option, none, some, Text, text_eq, lookup, insert, erase,
  lookup-insert, text_eq_refl, get_elem?, set, length, length-set, Bool-cases, Option-cases,
  Result-cases, inl, inr, arith, ◌⊎◌,
}
use mathlib.Core.Option.{some-injective}
use e2eanon.Crypto.Base64url.{Bytes}
use e2eanon.Crypto.Primitives.{Primitives}
use e2eanon.Crypto.Envelope.{open_bytes}
use e2eanon.Prelude.Int.{pos, negsuc}
use e2eanon.Protocol.{Number, integer, fractional, ServerMsg}
use e2eanon.Client.State.{Incoming, Session, Client, read}
use e2eanon.Client.Membership.{or_empty}
use e2eanon.Client.Transfer.{
  Place, slot, store_part, is_there, index_of, put_part, end_transfer, finish_incoming,
  store_incoming, got_chunk, on_chunk_at, on_file_chunk,
}

abbrev one_if : Option Bytes → ℕ
one_if none = 0
one_if (some b) = 1

-- The parts that are there.
unfoldable pub count : List (Option Bytes) → ℕ
count [] = 0
count (x ∷ parts) = one_if x + count parts

abbrev pub IsThere : Option Bytes → Type 0
IsThere none = ⊥
IsThere (some b) = Unit

count-le-length : (parts : List (Option Bytes)) → count parts ≤ length parts
unfolding count
count-le-length [] = omega arith
count-le-length (none ∷ parts) = omega (arith, count-le-length parts)
count-le-length (some b ∷ parts) = omega (arith, count-le-length parts)

count_full : (parts : List (Option Bytes)) → count parts ≡ length parts → All IsThere parts
unfolding count
count_full [] e = tt
count_full (none ∷ parts) e = absurd (omega (arith, count-le-length parts))
count_full (some b ∷ parts) e = (tt, count_full parts (omega arith))

count-set :
    (parts : List (Option Bytes)) (i : ℕ) (b : Bytes)
    → i < length parts
    → is_there (get_elem? parts i) ≡ false
    → count (set parts i (some b)) ≡ count parts + 1
unfolding count
count-set [] i b l h = absurd (omega arith)
count-set (none ∷ parts) zero b l h = omega arith
count-set (some c ∷ parts) zero b l h = cc
count-set (x ∷ parts) (suc i) b l h = omega (arith, count-set parts i b (omega arith) h)

-- There is a place for each part, and the count is right.
pub record IsCounted (inc : Incoming) : Type 0 where
  pub places : length inc.parts ≡ inc.meta.chunks
  pub counted : count inc.parts ≡ inc.received

abbrev pub Every {ℓ κ} : {V : Type ℓ} → (V → Type κ) → List (Text × V) → Type κ
Every P [] = Unit
Every P ((k, v) ∷ m) = P v × Every P m

module _ {ℓ κ} {V : Type ℓ} (P : V → Type κ) where
  Every-insert : (k : Text) (v : V) (m : List (Text × V)) → P v → Every P m → Every P (insert k v m)
  Every-insert k v [] h hs = (h, tt)
  Every-insert k v ((j, w) ∷ m) h (g, hs) = elim (Bool-cases (text_eq j k)) [
    | inl same ↦ rw same (h, hs)
    | inr other ↦ rw other (g, Every-insert k v m h hs)
  ]

  Every-erase : (k : Text) (m : List (Text × V)) → Every P m → Every P (erase k m)
  Every-erase k [] hs = tt
  Every-erase k ((j, w) ∷ m) (g, hs) = elim (Bool-cases (text_eq j k)) [
    | inl same ↦ rw same (Every-erase k m hs)
    | inr other ↦ rw other (g, Every-erase k m hs)
  ]

  Every-lookup : (k : Text) (v : V) (m : List (Text × V)) → Every P m → lookup k m ≡ some v → P v
  Every-lookup k v [] hs e = cc
  Every-lookup k v ((j, w) ∷ m) (g, hs) e = elim (Bool-cases (text_eq j k)) [
    | inl same ↦ let found : w ≡ v = ground arith in subst P found g
    | inr other ↦ Every-lookup k v m hs (ground arith)
  ]

abbrev pub CountedIn : Option Session → Type 0
CountedIn none = Unit
CountedIn (some s) = Every IsCounted s.incoming

abbrev pub IsWhole : (Text × List (Option Bytes)) → Type 0
IsWhole (type, parts) = All IsThere parts

-- The transfers that are running are counted right, and no file with a gap was handed over.
pub record IsSound (cl : Client) : Type 0 where
  pub running : CountedIn cl.session
  pub handed_over : All IsWhole cl.view.blobs

put_part-IsCounted :
    (inc : Incoming) (i : ℕ) (b : Bytes)
    → IsCounted inc
    → i < inc.meta.chunks
    → is_there (get_elem? inc.parts i) ≡ false
    → IsCounted (put_part inc i b)
unfolding put_part
put_part-IsCounted inc i b h l gap = record {
  places = length-set inc.parts i (some b) ∙ h.places;
  counted = count-set inc.parts i b (omega (arith, h.places)) gap ∙ ap (λ n. n + 1) h.counted;
}

finish_incoming-IsSound :
    (transfer : Text) (s : Session) (cl : Client)
    → cl.session ≡ some s
    → IsSound cl
    → ((inc : Incoming) → lookup transfer s.incoming ≡ some inc → All IsThere inc.parts)
    → IsSound (finish_incoming transfer cl)
unfolding finish_incoming
finish_incoming-IsSound transfer s cl e h whole =
    let here : Every IsCounted s.incoming = subst CountedIn e h.running in
    elim (Option-cases (lookup transfer s.incoming)) [
      | inl missing ↦
          let same : finish_incoming transfer cl ≡ cl = ground arith in subst IsSound (sym same) h
      | inr (inc, found) ↦
          let blobs' = cl.view.blobs ++ (inc.meta.type, inc.parts) ∷ [] in
          let cl' = record cl {
            session = some (end_transfer transfer s);
            view = record cl.view { blobs = blobs' };
          } in
          let same : finish_incoming transfer cl ≡ cl' = ground arith in
          let sound : IsSound cl' = record {
            running = Every-erase IsCounted transfer s.incoming here;
            handed_over =
                All-append IsWhole cl.view.blobs ((inc.meta.type, inc.parts) ∷ []) h.handed_over
                  (whole inc found, tt);
          } in
          subst IsSound (sym same) sound
    ]

-- A transfer that has received as many parts as it has places is whole.
full-IsThere :
    (inc : Incoming) → IsCounted inc → inc.received ≡ inc.meta.chunks → All IsThere inc.parts
full-IsThere inc h e = count_full inc.parts (h.counted ∙ e ∙ sym h.places)

got_chunk-IsSound :
    (transfer : Text) (inc : Incoming) (i : Place) (chunk : Bytes) (s : Session) (cl : Client)
    → cl.session ≡ some s
    → IsSound cl
    → IsCounted (store_part inc i chunk)
    → IsSound (got_chunk transfer inc i chunk s cl)
unfolding got_chunk
got_chunk-IsSound transfer inc i chunk s cl e h good =
    let inc' = store_part inc i chunk in
    let s' = store_incoming transfer inc' s in
    let cl' = record cl { session = some s' } in
    let stored : IsSound cl' = record {
      running = Every-insert IsCounted transfer inc' s.incoming good (subst CountedIn e h.running);
      handed_over = h.handed_over;
    } in
    let there : lookup transfer s'.incoming ≡ some inc' =
      ground (arith, lookup-insert transfer transfer inc' s.incoming, text_eq_refl transfer) in
    elim (Bool-cases (inc'.received == inc'.meta.chunks)) [
      | inl full ↦ rw full (
          finish_incoming-IsSound transfer s' cl' refl stored (λ found same.
            subst (λ (x : Incoming). All IsThere x.parts)
              (some-injective inc' found (sym there ∙ same))
              (full-IsThere inc' good (ground arith))))
      | inr more ↦ rw more stored
    ]

-- The index is missing or a whole number.
abbrev pub IsInteger : Option Number → Type 0
IsInteger none = Unit
IsInteger (some (integer i)) = Unit
IsInteger (some (fractional i key)) = ⊥

index_of-cases :
    (index : Option Number)
    → IsInteger index
    → (index_of index ≡ none) ⊎ ((i : ℕ) × (index_of index ≡ some (slot i)))
index_of-cases none h = inl refl
index_of-cases (some (integer (pos i))) h = inr (i, refl)
index_of-cases (some (integer (negsuc i))) h = inl refl
index_of-cases (some (fractional i key)) h = elim h [ ]

module _ (p : Primitives) where
  on_chunk_at-IsSound :
      (transfer : Text) (inc : Incoming) (i : ℕ) (env : Text) (s : Session) (cl : Client)
      → cl.session ≡ some s
      → IsSound cl
      → IsCounted inc
      → IsSound (on_chunk_at p transfer inc (slot i) env s cl)
  unfolding on_chunk_at
  on_chunk_at-IsSound transfer inc i env s cl e h good = elim (Bool-cases (ltb i inc.meta.chunks)) [
    | inr beyond ↦ rw beyond h
    | inl inside ↦ elim (Bool-cases (is_there (get_elem? inc.parts i))) [
      | inl twice ↦ rw (inside, twice) h
      | inr gap ↦ elim (Result-cases (open_bytes p (read cl.heap inc.key) env)) [
        | inr (x, failed) ↦ rw (inside, gap, failed) h
        | inl (chunk, opened) ↦
            rw (inside, gap, opened)
              (got_chunk-IsSound transfer inc (slot i) chunk s cl e h
                (put_part-IsCounted inc i chunk good (ltb→lt i inc.meta.chunks inside) gap))
      ]
    ]
  ]

  on_file_chunk-cases :
      (msg : ServerMsg) (cl : Client)
      → IsInteger msg.index
      → (on_file_chunk p msg cl ≡ cl)
        ⊎ ((inc : Incoming) × (i : ℕ) × (env : Text) × (s : Session) × (cl.session ≡ some s)
            × (lookup (or_empty msg.transfer) s.incoming ≡ some inc)
            × (on_file_chunk p msg cl
                ≡ on_chunk_at p (or_empty msg.transfer) inc (slot i) env s cl))
  unfolding on_file_chunk
  on_file_chunk-cases msg cl at = elim (Option-cases cl.session) [
    | inl e ↦ inl (ground arith)
    | inr (s, e) ↦ elim (Option-cases (lookup (or_empty msg.transfer) s.incoming)) [
      | inl missing ↦ inl (ground arith)
      | inr (inc, found) ↦ elim (Option-cases msg.data_text) [
        | inl none_sent ↦ inl (ground arith)
        | inr (env, sent) ↦ elim (index_of-cases msg.index at) [
          | inl negative ↦ inl (ground arith)
          | inr (i, named) ↦ inr (inc, i, env, s, e, found, ground arith)
        ]
      ]
    ]
  ]

  -- The transfers that are running are counted right, and no file with a gap has been handed over. Then
  -- a chunk whose index is missing or a whole number, negative, too large and repeated ones included,
  -- leaves it so: a file is handed over only if none of its parts is missing.
  pub on_file_chunk-IsSound :
      (msg : ServerMsg) (cl : Client)
      → IsInteger msg.index
      → IsSound cl
      → IsSound (on_file_chunk p msg cl)
  on_file_chunk-IsSound msg cl at h = elim (on_file_chunk-cases msg cl at) [
    | inl same ↦ subst IsSound (sym same) h
    | inr (inc, i, env, s, e, found, same) ↦ subst IsSound (sym same) (
        on_chunk_at-IsSound (or_empty msg.transfer) inc i env s cl e h (
          Every-lookup IsCounted (or_empty msg.transfer) inc s.incoming
            (subst CountedIn e h.running) found))
  ]
