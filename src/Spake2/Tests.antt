-- ===== src/Spake2/Tests.antt =====
-- web/src/spake2.ts at concrete inputs, over the stand-ins of `Samples`.
use e2eanon.Prelude.{
  ◌≤◌, ◌<◌, ◌≡◌, ◌≢◌, ◌↔◌, refl, [], ◌∷◌, true, false, length, none, some, Result, ok, err, arith,
}
use e2eanon.Samples.Group.{Third, thirds, thirds-CurveLaws, weights}
use e2eanon.Crypto.Base64url.{Bytes}
use e2eanon.Crypto.Primitives.{IsBytes}
use e2eanon.Crypto.Envelope.{codes}
use e2eanon.Spake2.Bytes.{concat, lv, bytes_to_big_be, big_to_bytes_be, timing_safe_equal}
use e2eanon.Spake2.Bytes.Compare.{timing_safe_equal_iff}
use e2eanon.Spake2.Bytes.Numbers.{bytes_to_big_be-big_to_bytes_be}
use e2eanon.Spake2.Bytes.Concat.{join, concat_lem}
use e2eanon.Spake2.Exchange.{
  party_a, party_b, Spake2Start, Spake2Result, by_role, seed_m, seed_n, mul, random_scalar,
  transcript_of, start, finish, verify_peer,
}
use e2eanon.Spake2.Exchange.Scalars.{random_scalar_bounds, start_total}
use e2eanon.Spake2.Exchange.Transcript.{AreShort, Binds, transcript_of-injective}
use e2eanon.Spake2.Exchange.Agreement.{Agree, finish-Agree}

big_endian :
    (big_to_bytes_be 0x01_02_03 4 ≡ 0 ∷ 1 ∷ 2 ∷ 3 ∷ []) × (bytes_to_big_be (1 ∷ 0 ∷ []) ≡ 256)
unfolding big_to_bytes_be bytes_to_big_be
big_endian = (refl, refl)

prefixed : lv (9 ∷ 8 ∷ []) ≡ 2 ∷ 0 ∷ 0 ∷ 0 ∷ 0 ∷ 0 ∷ 0 ∷ 0 ∷ 9 ∷ 8 ∷ []
unfolding lv
prefixed = refl

compares :
    (timing_safe_equal (1 ∷ 2 ∷ []) (1 ∷ 2 ∷ []) ≡ true)
    × (timing_safe_equal (1 ∷ 2 ∷ []) (1 ∷ 3 ∷ []) ≡ false)
    × (timing_safe_equal (1 ∷ []) (1 ∷ 2 ∷ []) ≡ false)
unfolding timing_safe_equal
compares = (refl, refl, refl)

timing_safe_equal_iff_example :
    (timing_safe_equal (1 ∷ 2 ∷ []) (1 ∷ 3 ∷ []) ≡ true) ↔ ◌≡◌ {A = Bytes} (1 ∷ 2 ∷ []) (1 ∷ 3 ∷ [])
timing_safe_equal_iff_example = timing_safe_equal_iff (1 ∷ 2 ∷ []) (1 ∷ 3 ∷ [])

bytes_to_big_be-big_to_bytes_be_example :
    (bytes_to_big_be (big_to_bytes_be 70000 3) ≡ 70000)
    × (length (big_to_bytes_be 70000 3) ≡ 3)
    × IsBytes (big_to_bytes_be 70000 3)
bytes_to_big_be-big_to_bytes_be_example = bytes_to_big_be-big_to_bytes_be 70000 3 (omega arith)

concat_lem_example :
    concat ((1 ∷ []) ∷ [] ∷ (2 ∷ 3 ∷ []) ∷ []) ≡ join ((1 ∷ []) ∷ [] ∷ (2 ∷ 3 ∷ []) ∷ [])
concat_lem_example = concat_lem ((1 ∷ []) ∷ [] ∷ (2 ∷ 3 ∷ []) ∷ [])

random_scalar_bounds_example :
    (1 ≤ random_scalar thirds (0 ∷ 3 ∷ [])) × (random_scalar thirds (0 ∷ 3 ∷ []) < 3)
random_scalar_bounds_example = random_scalar_bounds thirds thirds-CurveLaws (0 ∷ 3 ∷ [])

abbrev id_a : Bytes
id_a = codes "owner"

abbrev id_b : Bytes
id_b = codes "joiner"

start_total_example :
    (x : Third) × (s : Third) × (thirds.multiply thirds.base (random_scalar thirds (1 ∷ [])) ≡ ok x)
    × (mul thirds (by_role party_a (seed_m thirds) (seed_n thirds)) 2 ≡ ok s)
    × (thirds.add s x ≢ thirds.identity
        → (r : Spake2Start) × (start thirds party_a 2 id_a id_b [] none (1 ∷ []) ≡ ok r)
          × (thirds.to_bytes (thirds.add s x) ≡ ok r.message))
start_total_example =
    start_total thirds thirds-CurveLaws party_a 2 id_a id_b [] (1 ∷ []) (omega arith)

abbrev get {ℓ} : {A : Type ℓ} → Result A → A → A
get (ok a) d = a
get (err e) d = d

abbrev no_start : Spake2Start
no_start = record {
  state = record { role = party_a; scalar = 0; w = 0; own = []; id_a = []; id_b = []; aad = [] };
  message = [];
}

abbrev owner : Spake2Start
owner = get (start thirds party_a 2 id_a id_b [] none (1 ∷ [])) no_start

abbrev joiner : Spake2Start
joiner = get (start thirds party_b 2 id_a id_b [] (some 1) []) no_start

owner_starts : start thirds party_a 2 id_a id_b [] none (1 ∷ []) ≡ ok owner
unfolding start random_scalar bytes_to_big_be mul seed_m
owner_starts = refl

joiner_starts : start thirds party_b 2 id_a id_b [] (some 1) [] ≡ ok joiner
unfolding start mul seed_n
joiner_starts = refl

finish-Agree_example :
    (ra : Spake2Result) × (rb : Spake2Result) × (finish weights thirds owner.state joiner.message
      ≡ ok ra)
    × (finish weights thirds joiner.state owner.message ≡ ok rb)
    × Agree ra rb
finish-Agree_example =
    finish-Agree thirds thirds-CurveLaws weights 2 id_a id_b [] none (some 1) (1 ∷ []) [] owner
      joiner owner_starts joiner_starts

abbrev no_result : Spake2Result
no_result = record {
  ke = [];
  confirm = [];
  expected_peer = [];
  transcript = [];
  ka = [];
  kc_a = [];
  kc_b = [];
  c_a = [];
  c_b = [];
}

-- A joiner with another code computes another element, and the owner rejects its confirmation.
abbrev guesser : Spake2Start
guesser = get (start thirds party_b 0 id_a id_b [] (some 1) []) no_start

guess_refused :
    verify_peer
      (get (finish weights thirds owner.state guesser.message) no_result)
      (get (finish weights thirds guesser.state owner.message) no_result).confirm
    ≡ false
unfolding start finish mul seed_m seed_n random_scalar bytes_to_big_be verify_peer timing_safe_equal
guess_refused = refl

abbrev element : Bytes
element = 4 ∷ 1 ∷ []

binds_owner : AreShort owner.state joiner.message element
unfolding start random_scalar bytes_to_big_be mul seed_m seed_n
binds_owner = omega arith

binds_joiner : AreShort joiner.state owner.message element
unfolding start random_scalar bytes_to_big_be mul seed_m seed_n
binds_joiner = omega arith

transcript_of-injective_example :
    Binds owner.state joiner.state joiner.message owner.message element element
unfolding start random_scalar bytes_to_big_be mul seed_m seed_n transcript_of
transcript_of-injective_example =
    transcript_of-injective owner.state joiner.state joiner.message owner.message element element
      binds_owner binds_joiner (omega arith) (omega arith) refl
