-- ===== src/Samples/Codec.antt =====
-- Frames as texts: the tag, then the body.
use e2eanon.Prelude.{ℕ, zero, suc, ◌≡◌, refl, [], ◌∷◌, Option, none, some, Text}
use e2eanon.Handshake.{Tag, point, confirmation, other, Frame, FrameJson}

abbrev pub tag_code : Tag → ℕ
tag_code point = 0
tag_code confirmation = 1
tag_code other = 2

abbrev pub to_text : Frame → Text
to_text f = tag_code f.t ∷ f.d

abbrev pub of_text : Text → Option Frame
of_text [] = none
of_text (zero ∷ d) = some (record { t = point; d = d })
of_text (suc zero ∷ d) = some (record { t = confirmation; d = d })
of_text (suc (suc k) ∷ d) = some (record { t = other; d = d })

pub of_text-to_text : (f : Frame) → of_text (to_text f) ≡ some f
of_text-to_text f = go f.t f.d
  where
    go : (t : Tag) (d : Text) → of_text (tag_code t ∷ d) ≡ some (record { t = t; d = d })
    go point d = refl
    go confirmation d = refl
    go other d = refl

abbrev pub frames : FrameJson
frames = record { stringify = to_text; parse = of_text; parse-stringify = of_text-to_text }
